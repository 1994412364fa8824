-- ===== src/Memory/Rounding/Laws.antt =====
-- What the arithmetic of memory/paging_internal.h and memory/memory.h comes to.
use Prim.Native.Nat.{bit_and}
use native.Mathlib.Nat.{pow-suc, one-le-pow, pow-le-pow_right, mul_assoc}
use helos.Prelude.{
  ◌∙◌, ltb→lt, mul64, ltb, Bool-cases, ap, sub64, ◌⊎◌, bit_and_step, word, ℕ, zero, suc, ◌+◌, ◌-◌,
  ◌*◌, ◌/◌, ◌%◌, ◌^◌, ◌≤◌, ◌<◌, ◌≡◌, refl, inl, inr, some, arith, bit_and-zero, complement,
}
use helos.Memory.Rounding.{
  round_up_to_page_count, shift_up, round_up_to_2_exponent, allocate_kernel_mapping,
}

bit_and-full : (n x : ℕ) → x < 2 ^ n → bit_and x (2 ^ n - 1) ≡ x
bit_and-full zero x h = omega (arith, bit_and-zero x x (omega arith))
bit_and-full (suc n) x h =
    let half : (2 ^ suc n - 1) / 2 ≡ 2 ^ n - 1 = omega (arith, pow-suc 2 n, one-le-pow n 2) in
    omega (
      arith,
      bit_and_step x (2 ^ suc n - 1),
      ap (λ m. bit_and (x / 2) m) half,
      bit_and-full n (x / 2) (omega (arith, pow-suc 2 n)),
      pow-suc 2 n,
      one-le-pow n 2,
    )

-- A multiple of 2 ^ k that is at most `x`, and by less than 2 ^ k.
record CutDown (k x r : ℕ) : Type 0 where
  quotient : ℕ
  multiple : r ≡ quotient * 2 ^ k
  at_most : r ≤ x
  near : x < r + 2 ^ k

bit_and-complement :
    (k n x : ℕ) → k ≤ n → x < 2 ^ n → CutDown k x (bit_and x (complement n (2 ^ k - 1)))
bit_and-complement zero n x h l =
    let all : complement n (2 ^ 0 - 1) ≡ 2 ^ n - 1 = omega arith in
    let same : bit_and x (complement n (2 ^ 0 - 1)) ≡ x =
      ap (λ m. bit_and x m) all ∙ bit_and-full n x l in
    record {
      quotient = x;
      multiple = omega (arith, same);
      at_most = omega (arith, same);
      near = omega (arith, same);
    }
bit_and-complement (suc k) zero x h l = absurd (omega arith)
bit_and-complement (suc k) (suc n) x h l =
    let mask = complement (suc n) (2 ^ suc k - 1) in
    let smaller : 2 ^ k ≤ 2 ^ n =
      pow-le-pow_right {n = 2} (omega arith) {i = k} {j = n} (omega arith) in
    let half : (mask / 2 ≡ complement n (2 ^ k - 1)) × (mask % 2 ≡ 0) =
      omega (arith, pow-suc 2 k, pow-suc 2 n, one-le-pow k 2, smaller) in
    let cut = bit_and-complement k n (x / 2) (omega arith) (omega (arith, pow-suc 2 n)) in
    let double : bit_and x mask ≡ 2 * bit_and (x / 2) (complement n (2 ^ k - 1)) =
      omega (arith, bit_and_step x mask, ap (λ m. bit_and (x / 2) m) half.0, half.1) in
    record {
      quotient = cut.quotient;
      multiple = omega (
        arith,
        double,
        cut.multiple,
        mul_assoc cut.quotient (2 ^ k) 2,
        ap (λ p. cut.quotient * p) (pow-suc 2 k),
      );
      at_most = omega (arith, double, cut.at_most);
      near = omega (arith, double, cut.near, pow-suc 2 k);
    }

-- `memory_AllocateKernelMapping(size, 1 << k)`, while `size` bytes are left below the bottom: the
-- address is a multiple of `1 << k`, the region from it lies below the old bottom, and less than `1
-- << k` bytes are left between the two.
pub allocate_kernel_mapping-lem :
    (k size bottom : ℕ)
    → k < 64
    → size ≤ bottom
    → bottom < word
    → let address = allocate_kernel_mapping size (2 ^ k) bottom in
      ((q : ℕ) × (address ≡ q * 2 ^ k))
      × (address + size ≤ bottom)
      × (bottom < address + size + 2 ^ k)
unfolding allocate_kernel_mapping
allocate_kernel_mapping-lem k size bottom h l m =
    let rest : sub64 bottom size ≡ bottom - size = omega arith in
    let cut = bit_and-complement k 64 (sub64 bottom size) (omega arith) (omega (arith, rest, m)) in
    ((cut.quotient, cut.multiple), omega (arith, cut.at_most, rest), omega (arith, cut.near, rest))

-- As many pages as needed to hold the bytes, and no more, for pages of some size.
pub round_up_to_page_count-least :
    (size : ℕ)
    → let n = round_up_to_page_count 4096 size in
      let n2m = round_up_to_page_count 2097152 size in
      let n1g = round_up_to_page_count 1073741824 size in
      (size ≤ 4096 * n)
      × (4096 * n < size + 4096)
      × (size ≤ 2097152 * n2m)
      × (2097152 * n2m < size + 2097152)
      × (size ≤ 1073741824 * n1g)
      × (1073741824 * n1g < size + 1073741824)
unfolding round_up_to_page_count
round_up_to_page_count-least size = ground arith

shift_up-power :
    (n k v : ℕ)
    → k ≤ 63
    → v ≤ 2 ^ 63
    → 63 ≤ n + k
    → (j : ℕ) × (shift_up n (2 ^ k) v ≡ some (2 ^ j)) × (v ≤ 2 ^ j) × ((j ≡ k) ⊎ (2 ^ j < 2 * v))
unfolding shift_up
shift_up-power zero k v h l m =
    let last : k ≡ 63 = omega arith in
    let top : 2 ^ k ≡ 2 ^ 63 = ap (λ i. 2 ^ i) last in
    (k, ground (arith, top), omega (arith, top), inl refl)
shift_up-power (suc n) k v h l m = elim (Bool-cases (ltb (2 ^ k) v)) [
  | inr x ↦ (k, rw x refl, ground arith, inl refl)
  | inl x ↦
      let top : k ≡ 63 → 2 ^ k ≡ 2 ^ 63 = λ last. ap (λ i. 2 ^ i) last in
      let below : k < 63 = ground (arith, top) in
      let twice : mul64 (2 ^ k) 2 ≡ 2 ^ suc k = omega (arith, pow-suc 2 k, ltb→lt _ _ x) in
      let (j, returns, enough, near) = shift_up-power n (suc k) v below l (omega arith) in
      let within : (j ≡ k) ⊎ (2 ^ j < 2 * v) = elim near [
        | inl e ↦ inr (omega (arith, ap (λ i. 2 ^ i) e, pow-suc 2 k, ltb→lt _ _ x))
        | inr least ↦ inr least
      ] in
      (j, rw (x, twice) returns, enough, within)
]

-- `roundUpTo2Exponent` of a number up to 2 ^ 63 ends, with the least power of two that is not below
-- it.
pub round_up_to_2_exponent-least :
    (v : ℕ)
    → v ≤ 2 ^ 63
    → (j : ℕ) × (round_up_to_2_exponent v ≡ some (2 ^ j))
      × (v ≤ 2 ^ j)
      × ((j ≡ 0) ⊎ (2 ^ j < 2 * v))
unfolding round_up_to_2_exponent
round_up_to_2_exponent-least v h = shift_up-power 64 0 v (omega arith) h (omega arith)
