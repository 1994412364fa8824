-- ===== src/Prelude/Bits.antt =====
-- Bits of a native number, and what `|` and `&` do to each. The native operations stand for a
-- recursion on digits with fuel; the laws here have none.
use Prim.Native.Nat.{
  ℕ, zero, suc, ◌+◌, ◌-◌, ◌*◌, ◌/◌, ◌%◌, ◌^◌, ◌≤◌, ◌<◌, min, max, bit_and, bit_or, digits,
  bit_and-bitwise, bit_or-bitwise,
}
use mathlib.Core.Path.{◌≡◌, refl, ap, sym, ◌∙◌}
use mathlib.Core.Bool.{Bool, true, false, not}
use mathlib.Core.Logic.{◌⊎◌, inl, inr}
use native.Mathlib.Omega.{arith}
use native.Mathlib.Nat.{pow-suc, one-le-pow}
use helos.Prelude.Tests.{if◌then◌else◌, ◌==◌, ltb}

-- A recursion on the binary digits of its first number, at any fuel that covers that number.
module _ (end : ℕ → ℕ) (op : ℕ → ℕ → ℕ) where
  no_digits : (fuel y : ℕ) → digits end op fuel 0 y ≡ end y
  no_digits zero y = refl
  no_digits (suc fuel) y = refl

  more_fuel :
      (fuel extra x y : ℕ) → x ≤ fuel → digits end op (fuel + extra) x y ≡ digits end op fuel x y
  more_fuel fuel extra zero y h = no_digits (fuel + extra) y ∙ sym (no_digits fuel y)
  more_fuel zero extra (suc x) y h = absurd (omega arith)
  more_fuel (suc fuel) extra (suc x) y h =
      let halves = more_fuel fuel extra (suc x / 2) (y / 2) (omega arith) in
      let sum : suc fuel + extra ≡ suc (fuel + extra) = omega arith in
      ap (λ n. digits end op n (suc x) y) sum
      ∙ ap (λ high. high * 2 + op (suc x % 2) (y % 2)) halves

  -- The lowest digits apart from the others.
  lowest_digit :
      (x y : ℕ)
      → digits end op (suc x) (suc x) y
        ≡ digits end op (suc x / 2) (suc x / 2) (y / 2) * 2 + op (suc x % 2) (y % 2)
  lowest_digit x y =
      let half = suc x / 2 in
      let split : x ≡ half + (x - half) = omega arith in
      ap (λ high. high * 2 + op (suc x % 2) (y % 2))
        (ap (λ fuel. digits end op fuel half (y / 2)) split
          ∙ more_fuel half (x - half) half (y / 2) (omega arith))

pub bit_or_step : (x y : ℕ) → bit_or x y ≡ max (x % 2) (y % 2) + 2 * bit_or (x / 2) (y / 2)
bit_or_step zero y =
    let halved = bit_or-bitwise 0 (y / 2) in omega (arith, bit_or-bitwise 0 y, halved)
bit_or_step (suc x) y =
    let whole = bit_or-bitwise (suc x) y in
    let halved = bit_or-bitwise (suc x / 2) (y / 2) in
    omega (arith, whole, lowest_digit (λ b. b) max x y, halved)

pub bit_and_step : (x y : ℕ) → bit_and x y ≡ min (x % 2) (y % 2) + 2 * bit_and (x / 2) (y / 2)
bit_and_step zero y =
    let halved = bit_and-bitwise 0 (y / 2) in omega (arith, bit_and-bitwise 0 y, halved)
bit_and_step (suc x) y =
    let whole = bit_and-bitwise (suc x) y in
    let halved = bit_and-bitwise (suc x / 2) (y / 2) in
    omega (arith, whole, lowest_digit (λ b. 0) min x y, halved)

-- Bit `j` of `a`, 0 or 1.
abbrev pub nth_bit : ℕ → ℕ → ℕ
nth_bit a zero = a % 2
nth_bit a (suc j) = nth_bit (a / 2) j

pub nth_bit-lt : (j a : ℕ) → nth_bit a j < 2
nth_bit-lt zero a = omega arith
nth_bit-lt (suc j) a = nth_bit-lt j (a / 2)

pub nth_bit-bit_or : (j a b : ℕ) → nth_bit (bit_or a b) j ≡ max (nth_bit a j) (nth_bit b j)
nth_bit-bit_or zero a b = omega (arith, bit_or_step a b)
nth_bit-bit_or (suc j) a b =
    let e : bit_or a b / 2 ≡ bit_or (a / 2) (b / 2) = omega (arith, bit_or_step a b) in
    rw e (nth_bit-bit_or j (a / 2) (b / 2))

pub nth_bit-bit_and : (j a b : ℕ) → nth_bit (bit_and a b) j ≡ min (nth_bit a j) (nth_bit b j)
nth_bit-bit_and zero a b = omega (arith, bit_and_step a b)
nth_bit-bit_and (suc j) a b =
    let e : bit_and a b / 2 ≡ bit_and (a / 2) (b / 2) = omega (arith, bit_and_step a b) in
    rw e (nth_bit-bit_and j (a / 2) (b / 2))

pub bit_or-zero : (bound a : ℕ) → a ≤ bound → bit_or a 0 ≡ a
bit_or-zero bound zero h = bit_or-bitwise 0 0
bit_or-zero zero (suc a) h = absurd (omega arith)
bit_or-zero (suc bound) (suc a) h =
    omega (arith, bit_or_step (suc a) 0, bit_or-zero bound (suc a / 2) (omega arith))

pub bit_and-zero : (bound a : ℕ) → a ≤ bound → bit_and a 0 ≡ 0
bit_and-zero bound zero h = bit_and-bitwise 0 0
bit_and-zero zero (suc a) h = absurd (omega arith)
bit_and-zero (suc bound) (suc a) h =
    omega (arith, bit_and_step (suc a) 0, bit_and-zero bound (suc a / 2) (omega arith))

-- A table of tests, from the last entry to the first, and what looking one up gives.
unfoldable pub holds_below : (ℕ → Bool) → ℕ → Bool
holds_below test zero = true
holds_below test (suc k) = if test k then holds_below test k else false

pub holds_below-lt :
    (test : ℕ → Bool) (k : ℕ) {i : ℕ} → i < k → holds_below test k ≡ true → test i ≡ true
unfolding holds_below
holds_below-lt test zero below h = absurd (omega arith)
holds_below-lt test (suc k) {i} below h = ground (arith, holds_below-lt test k {i = i})

pub nth_bit-zero : (j : ℕ) → nth_bit 0 j ≡ 0
nth_bit-zero zero = refl
nth_bit-zero (suc j) = nth_bit-zero j

-- `2 ^ k` has bit `k` alone.
pub nth_bit-pow : (k j : ℕ) → nth_bit (2 ^ k) j ≡ (if k == j then 1 else 0)
nth_bit-pow zero zero = refl
nth_bit-pow zero (suc j) = nth_bit-zero j ∙ ground arith
nth_bit-pow (suc k) zero = ground (arith, pow-suc 2 k)
nth_bit-pow (suc k) (suc j) =
    let half : 2 ^ suc k / 2 ≡ 2 ^ k = omega (arith, pow-suc 2 k) in
    rw half (nth_bit-pow k j ∙ ground arith)

-- `~m` in `n` bits.
abbrev pub complement : ℕ → ℕ → ℕ
complement n m = 2 ^ n - 1 - m

pub nth_bit-complement :
    (j n m : ℕ) → m < 2 ^ n → j < n → nth_bit (complement n m) j ≡ 1 - nth_bit m j
nth_bit-complement j zero m h k = absurd (omega arith)
nth_bit-complement zero (suc n) m h k = omega (arith, pow-suc 2 n)
nth_bit-complement (suc j) (suc n) m h k =
    let half : complement (suc n) m / 2 ≡ complement n (m / 2) = omega (arith, pow-suc 2 n) in
    rw half (nth_bit-complement j n (m / 2) (omega (arith, pow-suc 2 n)) (omega arith))

-- `m & 1 << k` is not zero exactly if bit `k` is set.
pub bit_and-pow : (k m : ℕ) → bit_and m (2 ^ k) ≡ nth_bit m k * 2 ^ k
bit_and-pow zero m = omega (arith, bit_and_step m 1, bit_and-zero (m / 2) (m / 2) (omega arith))
bit_and-pow (suc k) m =
    let half : 2 ^ suc k / 2 ≡ 2 ^ k = omega (arith, pow-suc 2 k) in
    omega (
      arith,
      bit_and_step m (2 ^ suc k),
      ap (λ t. bit_and (m / 2) t) half,
      bit_and-pow k (m / 2),
      pow-suc 2 k,
      ap (λ (t : ℕ). nth_bit (m / 2) k * t) (pow-suc 2 k),
    )

-- `(1 << k) - 1` has the bits below `k`.
pub nth_bit-ones : (k j : ℕ) → nth_bit (2 ^ k - 1) j ≡ (if ltb j k then 1 else 0)
nth_bit-ones zero j = nth_bit-zero j ∙ ground arith
nth_bit-ones (suc k) zero = ground (arith, pow-suc 2 k, one-le-pow k 2)
nth_bit-ones (suc k) (suc j) =
    let half : (2 ^ suc k - 1) / 2 ≡ 2 ^ k - 1 = omega (arith, pow-suc 2 k, one-le-pow k 2) in
    rw half (nth_bit-ones k j ∙ ground arith)

pub bit_and-le : (bound a b : ℕ) → b ≤ bound → bit_and a b ≤ b
bit_and-le bound a zero h = omega (arith, bit_and-zero a a (omega arith))
bit_and-le zero a (suc b) h = absurd (omega arith)
bit_and-le (suc bound) a (suc b) h =
    omega (arith, bit_and_step a (suc b), bit_and-le bound (a / 2) (suc b / 2) (omega arith))

bit_cases : (b : ℕ) → b < 2 → (b ≡ 0) ⊎ (b ≡ 1)
bit_cases b h = omega arith

-- A test of one bit, in terms of that bit.
pub test_bit : (m k : ℕ) → not (bit_and m (2 ^ k) == 0) ≡ (nth_bit m k == 1)
test_bit m k = elim (bit_cases (nth_bit m k) (nth_bit-lt k m)) [
  | inl e ↦ rw (bit_and-pow k m, e) (ground arith)
  | inr e ↦ rw (bit_and-pow k m, e) (ground (arith, one-le-pow k 2))
]
