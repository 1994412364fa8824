-- ===== src/Runtime/Unicode.antt =====
-- runtime/unicode.c and runtime/unicode.h: one code point to and from UTF-8. A byte is a number
-- below 256 and a code point is a `uint32_t`, whose sums wrap at 2 ^ 32. The pointers handed in are
-- not NULL.
pub mod Bytes
pub mod RoundTrip
mod Tests
use Prim.Native.Nat.{bit_and, bit_or}
use helos.Prelude.{
  Bool, ℕ, zero, suc, ◌+◌, ◌-◌, ◌*◌, ◌/◌, ◌%◌, ◌^◌, min, max, refl, ap, inl, inr, true, false, not,
  ◌&&◌, ◌||◌, none, some, List, [], ◌∷◌, ◌++◌, ltb, leb, if◌then◌else◌, length, set, get_or, take,
  drop, replicate,
}

abbrev pub unicode_error : ℕ
unicode_error = 0xfffd

abbrev pub unicode_max : ℕ
unicode_max = 0x10ffff

-- HELOS_UTF8_CONTINUATION_MIN and the other limits of the first byte.
abbrev pub continuation_min : ℕ
continuation_min = 0xc0

abbrev pub overlong_leader_2 : ℕ
overlong_leader_2 = 0xc1

abbrev pub invalid_leader_min : ℕ
invalid_leader_min = 0xf5

abbrev pub invalid_leader_max : ℕ
invalid_leader_max = 0xff

-- The static table `trailing`, by its runs.
abbrev pub trailing : List ℕ
trailing =
    replicate 192 0
    ++ (replicate 32 1 ++ (replicate 16 2 ++ (replicate 8 3 ++ (replicate 4 4 ++ replicate 4 5))))

-- The static table `offsets`.
abbrev pub offsets : List ℕ
offsets = 0x00000000 ∷ 0x00003080 ∷ 0x000E2080 ∷ 0x03C82080 ∷ 0xFA082080 ∷ 0x82082080 ∷ []

-- The switch that falls through: a byte is added, and what is there moves up for the next one.
pub accumulate : ℕ → List ℕ → ℕ → ℕ
accumulate zero utf8 output = (output + get_or utf8 0 0) % 2 ^ 32
accumulate (suc n) utf8 output =
    accumulate n (drop 1 utf8) (((output + get_or utf8 0 0) % 2 ^ 32) * 2 ^ 6 % 2 ^ 32)

-- A first byte that starts no sequence, or a sequence longer than the text.
pub is_corrupted : ℕ → ℕ → ℕ → Bool
is_corrupted first trailing_bytes len =
    (leb continuation_min first && leb first overlong_leader_2)
    || (leb invalid_leader_min first && leb first invalid_leader_max)
    || ltb len (trailing_bytes + 1)

-- `output - offsets[trailingBytes]`
pub code_point : ℕ → List ℕ → ℕ
unfolding accumulate
code_point trailing_bytes utf8 =
    (accumulate trailing_bytes utf8 0 + 2 ^ 32 - get_or offsets trailing_bytes 0) % 2 ^ 32

-- `utf8` is the memory from the pointer on, of which `len` bytes belong to the text. The number of
-- bytes taken, and the code point.
pub decode : List ℕ → ℕ → ℕ × ℕ
unfolding is_corrupted code_point
decode utf8 len =
    let first = get_or utf8 0 0 in
    let trailing_bytes = get_or trailing first 0 in
    if is_corrupted first trailing_bytes len
    then (1, unicode_error)
    else (trailing_bytes + 1, code_point trailing_bytes utf8)

pub encode_length : ℕ → ℕ
encode_length codepoint =
    if leb codepoint 0x007f
    then 1
    else if leb codepoint 0x07ff
    then 2
    else if leb codepoint 0xffff
    then 3
    else if leb codepoint 0x10ffff
    then 4
    else 0

-- The static table `firstBytes`.
abbrev pub first_bytes : List ℕ
first_bytes = 0x00 ∷ 0x00 ∷ 0xC0 ∷ 0xE0 ∷ 0xF0 ∷ 0xF8 ∷ 0xFC ∷ []

-- `(char)((codepoint | 0x80) & 0xBF)`
pub continuation_byte : ℕ → ℕ
continuation_byte codepoint = bit_and (bit_or codepoint 0x80) 0xBF % 2 ^ 8

-- `(char)(codepoint | firstBytes[len])`
pub first_byte : ℕ → ℕ → ℕ
first_byte codepoint len = bit_or codepoint (get_or first_bytes len 0) % 2 ^ 8

-- The switch on `len`, from the last byte to the first; `k` is how many cases are left.
pub write_bytes : ℕ → ℕ → ℕ → List ℕ → List ℕ
write_bytes zero len codepoint written = written
write_bytes (suc zero) len codepoint written = first_byte codepoint len ∷ written
write_bytes (suc (suc k)) len codepoint written =
    write_bytes (suc k) len (codepoint / 2 ^ 6) (continuation_byte codepoint ∷ written)

-- The number of bytes, and those bytes.
pub encode : ℕ → ℕ × List ℕ
unfolding encode_length write_bytes
encode codepoint =
    let c = if ltb unicode_max codepoint then unicode_error else codepoint in
    let len = encode_length c in (len, write_bytes len len c [])
