-- ===== src/Runtime/Unicode/Bytes.antt =====
-- The bytes that `utf8_Encode` writes, as sums.
use Prim.Native.Nat.{bit_and, bit_or}
use helos.Prelude.{
  ◌≤◌, ◌∙◌, ap, max, min, ◌*◌, ◌/◌, arith, bit_or_step, bit_and_step, bit_or-zero, ℕ, ◌+◌, ◌%◌, ◌<◌,
  ◌≡◌, refl, true, ltb, ◌==◌, if◌then◌else◌, ==_iff, get_or, holds_below, holds_below-lt,
}
use helos.Runtime.Unicode.{trailing, continuation_byte, first_byte}

abbrev runs : ℕ → ℕ
runs first =
    if ltb first 0xc0
    then 0
    else if ltb first 0xe0
    then 1
    else if ltb first 0xf0
    then 2
    else if ltb first 0xf8
    then 3
    else if ltb first 0xfc
    then 4
    else 5

trailing-table : holds_below (λ x. get_or trailing x 0 == runs x) 256 ≡ true
unfolding holds_below
trailing-table = refl

trailing-runs : (first : ℕ) → first < 256 → get_or trailing first 0 ≡ runs first
trailing-runs first h = (==_iff _ (runs first)).0 (holds_below-lt _ 256 h trailing-table)

-- The number of trailing bytes that a first byte announces.
pub trailing_zero : (first : ℕ) → first < 192 → get_or trailing first 0 ≡ 0
trailing_zero first h = trailing-runs first (omega arith) ∙ runs_zero
  where
    runs_zero : runs first ≡ 0
    runs_zero = ground arith

pub trailing_one : (first : ℕ) → 192 ≤ first → first < 224 → get_or trailing first 0 ≡ 1
trailing_one first l h = trailing-runs first (omega arith) ∙ runs_one
  where
    runs_one : runs first ≡ 1
    runs_one = ground arith

pub trailing_two : (first : ℕ) → 224 ≤ first → first < 240 → get_or trailing first 0 ≡ 2
trailing_two first l h = trailing-runs first (omega arith) ∙ runs_two
  where
    runs_two : runs first ≡ 2
    runs_two = ground arith

pub trailing_three : (first : ℕ) → 240 ≤ first → first < 248 → get_or trailing first 0 ≡ 3
trailing_three first l h = trailing-runs first (omega arith) ∙ runs_three
  where
    runs_three : runs first ≡ 3
    runs_three = ground arith

-- One bit of `(c | m) & n`.
masked_step :
    (c m n : ℕ)
    → bit_and (bit_or c m) n
      ≡ bit_and (bit_or (c / 2) (m / 2)) (n / 2) * 2 + min (max (c % 2) (m % 2)) (n % 2)
masked_step c m n =
    let half : bit_or c m / 2 ≡ bit_or (c / 2) (m / 2) = omega (arith, bit_or_step c m) in
    omega (arith, bit_and_step (bit_or c m) n, bit_or_step c m, ap (λ x. bit_and x (n / 2)) half)

-- The same where the two masks' own bits are known.
keep_step :
    (c m n : ℕ)
    → m % 2 ≡ 0
    → n % 2 ≡ 1
    → bit_and (bit_or c m) n ≡ bit_and (bit_or (c / 2) (m / 2)) (n / 2) * 2 + c % 2
keep_step c m n p q = omega (arith, masked_step c m n)

clear_step :
    (c m n : ℕ) → n % 2 ≡ 0 → bit_and (bit_or c m) n ≡ bit_and (bit_or (c / 2) (m / 2)) (n / 2) * 2
clear_step c m n q = omega (arith, masked_step c m n)

-- Bits 7 and 6 of a continuation byte are 1 and 0.
high_bits : (c : ℕ) → bit_and (bit_or c 2) 2 % 4 ≡ 2
high_bits c = omega (arith, clear_step c 2 2 refl, masked_step (c / 2) 1 1)

pub continuation_byte-eq : (c : ℕ) → continuation_byte c ≡ 128 + c % 64
unfolding continuation_byte
continuation_byte-eq c = omega (
  arith,
  keep_step c 128 191 refl refl,
  keep_step (c / 2) 64 95 refl refl,
  keep_step (c / 2 / 2) 32 47 refl refl,
  keep_step (c / 2 / 2 / 2) 16 23 refl refl,
  keep_step (c / 2 / 2 / 2 / 2) 8 11 refl refl,
  keep_step (c / 2 / 2 / 2 / 2 / 2) 4 5 refl refl,
  high_bits (c / 2 / 2 / 2 / 2 / 2 / 2),
)

pub first_byte_one : (c : ℕ) → c < 128 → first_byte c 1 ≡ c
unfolding first_byte
first_byte_one c h = omega (arith, bit_or-zero c c (omega arith))

two_table : holds_below (λ x. bit_or x 0xC0 % 256 == x + 192) 32 ≡ true
unfolding holds_below
two_table = refl

three_table : holds_below (λ x. bit_or x 0xE0 % 256 == x + 224) 16 ≡ true
unfolding holds_below
three_table = refl

four_table : holds_below (λ x. bit_or x 0xF0 % 256 == x + 240) 8 ≡ true
unfolding holds_below
four_table = refl

pub first_byte_two : (c : ℕ) → c < 32 → first_byte c 2 ≡ c + 192
unfolding first_byte
first_byte_two c h = (==_iff _ (c + 192)).0 (holds_below-lt _ 32 h two_table)

pub first_byte_three : (c : ℕ) → c < 16 → first_byte c 3 ≡ c + 224
unfolding first_byte
first_byte_three c h = (==_iff _ (c + 224)).0 (holds_below-lt _ 16 h three_table)

pub first_byte_four : (c : ℕ) → c < 8 → first_byte c 4 ≡ c + 240
unfolding first_byte
first_byte_four c h = (==_iff _ (c + 240)).0 (holds_below-lt _ 8 h four_table)
