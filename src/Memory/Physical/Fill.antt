-- ===== src/Memory/Physical/Fill.antt =====
-- The words that memory/paging_physical.c fills from one bit to another.
use Prim.Native.Nat.{bit_and, bit_or}
use native.Mathlib.Nat.{one-le-pow, pow-le-pow_right}
use helos.Prelude.{
  ℕ, ◌+◌, ◌-◌, ◌^◌, ◌≤◌, ◌<◌, ◌≡◌, not, ◌&&◌, ◌||◌, arith, leb, ◌==◌, if◌then◌else◌, nth_bit,
  nth_bit-lt, nth_bit-bit_or, nth_bit-bit_and, complement, nth_bit-complement, nth_bit-ones,
  bit_and-le,
}
use helos.Memory.Physical.{fill_bits}

pow_le : (k : ℕ) → k ≤ 64 → 2 ^ k ≤ 2 ^ 64
pow_le k h = pow-le-pow_right {n = 2} (omega arith) {i = k} {j = 64} h

fill_bits-lt : (b l : ℕ) → b ≤ l → l < 64 → fill_bits b l < 2 ^ 64
unfolding fill_bits
fill_bits-lt b l h k = ground (
  arith,
  one-le-pow b 2,
  pow_le (l + 1),
  one-le-pow (l + 1) 2,
  bit_and-le (2 ^ (l + 1) - 1) (complement 64 (2 ^ b - 1)) (2 ^ (l + 1) - 1),
)

ones-lt : (k : ℕ) → k ≤ 64 → 2 ^ k - 1 < 2 ^ 64
ones-lt k h = omega (arith, pow_le k h, one-le-pow k 2)

pub nth_bit-fill_bits :
    (b l j : ℕ)
    → b ≤ l
    → l < 64
    → j < 64
    → nth_bit (fill_bits b l) j ≡ (if leb b j && leb j l then 1 else 0)
unfolding fill_bits
nth_bit-fill_bits b l j h k i = ground (
  arith,
  nth_bit-complement j 64 (2 ^ b - 1) (ones-lt b (omega arith)) i,
  nth_bit-ones b j,
  nth_bit-ones (l + 1) j,
  nth_bit-bit_and j (complement 64 (2 ^ b - 1)) (2 ^ (l + 1) - 1),
)

-- A word ored, or cleared, from bit `b` to bit `l`.
pub or-fill :
    (w b l j : ℕ)
    → b ≤ l
    → l < 64
    → j < 64
    → (nth_bit (bit_or w (fill_bits b l)) j == 1) ≡ ((leb b j && leb j l) || (nth_bit w j == 1))
or-fill w b l j h k i =
    ground
      (arith, nth_bit-bit_or j w (fill_bits b l), nth_bit-fill_bits b l j h k i, nth_bit-lt j w)

pub and_not-fill :
    (w b l j : ℕ)
    → b ≤ l
    → l < 64
    → j < 64
    → (nth_bit (bit_and w (complement 64 (fill_bits b l))) j == 1)
      ≡ (not (leb b j && leb j l) && (nth_bit w j == 1))
and_not-fill w b l j h k i = ground (
  arith,
  nth_bit-bit_and j w (complement 64 (fill_bits b l)),
  nth_bit-complement j 64 (fill_bits b l) (fill_bits-lt b l h k) i,
  nth_bit-fill_bits b l j h k i,
  nth_bit-lt j w,
)
