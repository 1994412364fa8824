-- ===== src/Memory/PageMap/Entry.antt =====
-- The words of the tables of memory/paging_map.c, by arithmetic in place of masks.
use Prim.Native.Nat.{bit_and, bit_or, bit_or-bitwise}
use native.Mathlib.Nat.{
  pow-suc, one-le-pow, mul_comm, mul_assoc, mod-add-div, mod-lt, mod-eq_of_lt,
  add-mul-mod_self_right, div-div-eq-div-mul,
}
use helos.Prelude.{
  ℕ, zero, suc, ◌+◌, ◌-◌, ◌*◌, ◌/◌, ◌%◌, ◌^◌, ◌<◌, ◌≡◌, ap, sym, ◌∙◌, inl, inr, Bool, true, false,
  not, ◌&&◌, ◌==◌, if◌then◌else◌, arith, Bool-cases, bit_and_step, bit_or_step, bit_and-zero,
  bit_or-zero, test_bit, nth_bit,
}
use helos.Memory.Rounding.{take_bitfield}
use helos.Memory.PageMap.{
  has, index1, index2, index3, index4, page_entry, pml_addr_mask, pml_present, pml_writeable,
  pml_page_size, pml_execute_disable,
}

-- Remainders by a double.
mod-double : (x p : ℕ) → 0 < p → x % (p * 2) ≡ x % 2 + 2 * (x / 2 % p)
mod-double x p h =
    let low = x % 2 + 2 * (x / 2 % p) in
    let split : x ≡ low + x / 2 / p * (p * 2) =
      omega (arith, mod-add-div (x / 2) p, mul_comm p (x / 2 / p), mul_assoc (x / 2 / p) p 2) in
    let small : low < p * 2 = omega (arith, mod-lt (x / 2) h) in
    ap (λ y. y % (p * 2)) split
    ∙ add-mul-mod_self_right low (x / 2 / p) (p * 2)
    ∙ mod-eq_of_lt small

bit_and-ones : (k x : ℕ) → bit_and x (2 ^ k - 1) ≡ x % 2 ^ k
bit_and-ones zero x = omega (arith, bit_and-zero x x (omega arith))
bit_and-ones (suc k) x =
    let half : (2 ^ suc k - 1) / 2 ≡ 2 ^ k - 1 = omega (arith, pow-suc 2 k, one-le-pow k 2) in
    let double : x % 2 ^ suc k ≡ x % 2 + 2 * (x / 2 % 2 ^ k) =
      ap (λ p. x % p) (pow-suc 2 k) ∙ mod-double x (2 ^ k) (omega (arith, one-le-pow k 2)) in
    omega (
      arith,
      bit_and_step x (2 ^ suc k - 1),
      ap (λ m. bit_and (x / 2) m) half,
      bit_and-ones k (x / 2),
      double,
      pow-suc 2 k,
      one-le-pow k 2,
    )

-- A mask of high bits, and bits put beside lower or higher ones.
bit_and-shifted : (k x m : ℕ) → bit_and x (m * 2 ^ k) ≡ bit_and (x / 2 ^ k) m * 2 ^ k
bit_and-shifted zero x m = omega (
  arith,
  ap (λ y. bit_and x y) (let e : m * 2 ^ 0 ≡ m = omega arith in e),
  ap (λ y. bit_and y m) (let e : x / 2 ^ 0 ≡ x = omega arith in e),
)
bit_and-shifted (suc k) x m =
    let mask : m * 2 ^ suc k ≡ m * 2 ^ k * 2 =
      ap (λ p. m * p) (pow-suc 2 k) ∙ sym (mul_assoc m (2 ^ k) 2) in
    let half : m * 2 ^ suc k / 2 ≡ m * 2 ^ k = omega (arith, mask) in
    let quarter : x / 2 / 2 ^ k ≡ x / 2 ^ suc k =
      div-div-eq-div-mul x 2 (2 ^ k) ∙ ap (λ p. x / p) (mul_comm 2 (2 ^ k) ∙ sym (pow-suc 2 k)) in
    let high = bit_and (x / 2 ^ suc k) m in
    omega (
      arith,
      bit_and_step x (m * 2 ^ suc k),
      ap (λ y. bit_and (x / 2) y) half,
      bit_and-shifted k (x / 2) m,
      ap (λ y. bit_and y m * 2 ^ k) quarter,
      mask,
      ap (λ p. high * p) (pow-suc 2 k),
      mul_assoc high (2 ^ k) 2,
    )

double-shifted : (k a : ℕ) → a * 2 ^ suc k ≡ a * 2 ^ k * 2
double-shifted k a = ap (λ p. a * p) (pow-suc 2 k) ∙ sym (mul_assoc a (2 ^ k) 2)

-- A bit that is not set yet.
pub bit_or-pow : (k x : ℕ) → nth_bit x k ≡ 0 → bit_or x (2 ^ k) ≡ x + 2 ^ k
bit_or-pow zero x h =
    omega (arith, bit_or_step x (2 ^ 0), bit_or-zero (x / 2) (x / 2) (omega arith), h)
bit_or-pow (suc k) x h =
    let half : 2 ^ suc k / 2 ≡ 2 ^ k = omega (arith, pow-suc 2 k) in
    omega (
      arith,
      bit_or_step x (2 ^ suc k),
      ap (λ y. bit_or (x / 2) y) half,
      bit_or-pow k (x / 2) h,
      pow-suc 2 k,
    )

pub bit_or-high : (k a f : ℕ) → f < 2 ^ k → bit_or f (a * 2 ^ k) ≡ f + a * 2 ^ k
bit_or-high zero a f h =
    let none_left : f ≡ 0 = omega arith in rw none_left (bit_or-bitwise 0 (a * 2 ^ 0) ∙ omega arith)
bit_or-high (suc k) a f h =
    let half : a * 2 ^ suc k / 2 ≡ a * 2 ^ k = omega (arith, double-shifted k a) in
    omega (
      arith,
      bit_or_step f (a * 2 ^ suc k),
      ap (λ y. bit_or (f / 2) y) half,
      bit_or-high k a (f / 2) (omega (arith, pow-suc 2 k)),
      double-shifted k a,
    )

pub address-lem : (e : ℕ) → bit_and e pml_addr_mask ≡ e / 4096 % 2 ^ 40 * 4096
address-lem e =
    bit_and-shifted 12 e (2 ^ 40 - 1) ∙ ap (λ y. y * 2 ^ 12) (bit_and-ones 40 (e / 2 ^ 12))

pub index4-lem : (v : ℕ) → index4 v ≡ v / 2 ^ 39 % 512
unfolding index4 take_bitfield
index4-lem v = bit_and-ones 9 (v / 2 ^ 39)

pub index3-lem : (v : ℕ) → index3 v ≡ v / 2 ^ 30 % 512
unfolding index3 take_bitfield
index3-lem v = bit_and-ones 9 (v / 2 ^ 30)

pub index2-lem : (v : ℕ) → index2 v ≡ v / 2 ^ 21 % 512
unfolding index2 take_bitfield
index2-lem v = bit_and-ones 9 (v / 2 ^ 21)

pub index1-lem : (v : ℕ) → index1 v ≡ v / 2 ^ 12 % 512
unfolding index1 take_bitfield
index1-lem v = bit_and-ones 9 (v / 2 ^ 12)

-- A physical address that fits an entry.
abbrev pub IsFrame : ℕ → Type 0
IsFrame a = (a % 4096 ≡ 0) × (a < 2 ^ 52)

-- The word that stands for a table.
pub pointer-lem : (a : ℕ) → IsFrame a → bit_or (bit_or a pml_present) pml_writeable ≡ a + 3
pointer-lem a h =
    ap (λ y. bit_or y 2) (bit_or-pow 0 a (omega (arith, h)))
    ∙ bit_or-pow 1 (a + 1) (omega (arith, h))
    ∙ omega arith

-- The word that stands for a page.
pub page_entry-lem :
    (xd : Bool) (a flags : ℕ)
    → IsFrame a
    → page_entry xd a flags
      ≡ a + 1 + (if has flags 2 then 2 else 0) + (if xd && not (has flags 1) then 2 ^ 63 else 0)
unfolding page_entry
page_entry-lem xd a flags h =
    let w : ℕ = if has flags 2 then 2 else 0 in
    let low : bit_or a 1 ≡ a + 1 = bit_or-pow 0 a (omega (arith, h)) in
    let mid : bit_or (a + 1) w ≡ a + 1 + w = elim (Bool-cases (has flags 2)) [
      | inl e ↦ rw e (bit_or-pow 1 (a + 1) (omega (arith, h)))
      | inr e ↦ rw e (bit_or-zero (a + 1) (a + 1) (omega arith) ∙ omega arith)
    ] in
    let small : a + 1 + w < 2 ^ 63 = ground (arith, h) in
    rw low (
      rw mid (elim (Bool-cases (xd && not (has flags 1))) [
        | inl e ↦ rw e (bit_or-high 63 1 (a + 1 + w) small)
        | inr e ↦ rw e (bit_or-zero (a + 1 + w) (a + 1 + w) (omega arith) ∙ omega arith)
      ]))

has-present : (e : ℕ) → has e pml_present ≡ (e % 2 == 1)
unfolding has
has-present e = test_bit e 0

has-writeable : (e : ℕ) → has e pml_writeable ≡ (e / 2 % 2 == 1)
unfolding has
has-writeable e = test_bit e 1

has-page_size : (e : ℕ) → has e pml_page_size ≡ (nth_bit e 7 == 1)
unfolding has
has-page_size e = test_bit e 7

has-execute_disable : (e : ℕ) → has e pml_execute_disable ≡ (nth_bit e 63 == 1)
unfolding has
has-execute_disable e = test_bit e 63

nth_bit-div : (k e : ℕ) → nth_bit e k ≡ e / 2 ^ k % 2
nth_bit-div zero e = omega arith
nth_bit-div (suc k) e =
    nth_bit-div k (e / 2)
    ∙ ap (λ y. y % 2)
        (div-div-eq-div-mul e 2 (2 ^ k) ∙ ap (λ y. e / y) (mul_comm 2 (2 ^ k) ∙ sym (pow-suc 2 k)))

pub zero-present : has 0 pml_present ≡ false
zero-present = has-present 0

-- What the bits of a table's word say.
pub pointer-present : (a : ℕ) → IsFrame a → has (a + 3) pml_present ≡ true
pointer-present a h = has-present (a + 3) ∙ ground (arith, h)

pub pointer-writeable : (a : ℕ) → IsFrame a → has (a + 3) pml_writeable ≡ true
pointer-writeable a h = has-writeable (a + 3) ∙ ground (arith, h)

pub pointer-execute_disable : (a : ℕ) → IsFrame a → has (a + 3) pml_execute_disable ≡ false
pointer-execute_disable a h =
    has-execute_disable (a + 3) ∙ ap (λ b. b == 1) (nth_bit-div 63 (a + 3)) ∙ ground (arith, h)

pub pointer-page_size : (a : ℕ) → IsFrame a → has (a + 3) pml_page_size ≡ false
pointer-page_size a h = has-page_size (a + 3) ∙ ground (arith, h)

pub pointer-address : (a : ℕ) → IsFrame a → bit_and (a + 3) pml_addr_mask ≡ a
pointer-address a h = address-lem (a + 3) ∙ omega (arith, h)

-- And those of a page's word.
module _ (xd : Bool) (a flags : ℕ) (h : IsFrame a) where
  pub page_entry-present : has (page_entry xd a flags) pml_present ≡ true
  page_entry-present =
      has-present (page_entry xd a flags) ∙ ground (arith, page_entry-lem xd a flags h, h)

  pub page_entry-writeable : has (page_entry xd a flags) pml_writeable ≡ has flags 2
  page_entry-writeable =
      has-writeable (page_entry xd a flags) ∙ ground (arith, page_entry-lem xd a flags h, h)

  pub page_entry-execute_disable :
      has (page_entry xd a flags) pml_execute_disable ≡ (xd && not (has flags 1))
  page_entry-execute_disable =
      has-execute_disable (page_entry xd a flags)
      ∙ ap (λ b. b == 1) (nth_bit-div 63 (page_entry xd a flags))
      ∙ ground (arith, page_entry-lem xd a flags h, h)

  pub page_entry-address : bit_and (page_entry xd a flags) pml_addr_mask ≡ a
  page_entry-address =
      address-lem (page_entry xd a flags) ∙ ground (arith, page_entry-lem xd a flags h, h)
