-- ===== src/Runtime/Unicode/RoundTrip.antt =====
-- `utf8_Decode` after `utf8_Encode`, and what `utf8_Decode` makes of a byte that starts no sequence.
use helos.Prelude.{
  ltb→lt, ◌++◌, Bool-cases, length, if◌then◌else◌, sym, subst, ap, ◌⊎◌, inl, inr, ◌≤◌, ◌%◌, ◌%◌,
  ◌/◌, [], ltb, ◌≤◌, ◌∙◌, ℕ, ◌+◌, ◌*◌, ◌<◌, ◌≡◌, refl, ◌⊎◌, inl, inr, true, false, List, ◌∷◌, arith,
  get_or,
}
use helos.Runtime.Unicode.{
  trailing, unicode_error, unicode_max, is_corrupted, code_point, decode, encode, encode_length,
  write_bytes,
}
use helos.Runtime.Unicode.Bytes.{
  trailing_zero, trailing_one, trailing_two, trailing_three, continuation_byte-eq, first_byte_one,
  first_byte_two, first_byte_three, first_byte_four,
}

-- A sequence of `n + 1` bytes that is there as a whole.
decode_whole :
    (n : ℕ) (utf8 : List ℕ) (len : ℕ)
    → get_or trailing (get_or utf8 0 0) 0 ≡ n
    → is_corrupted (get_or utf8 0 0) n len ≡ false
    → decode utf8 len ≡ (n + 1, code_point n utf8)
unfolding decode
decode_whole n utf8 len t c = rw t (rw c refl)

fits :
    (first n len : ℕ)
    → n < len
    → (first < 192) ⊎ ((193 < first) × (first < 245))
    → is_corrupted first n len ≡ false
unfolding is_corrupted
fits first n len h (inl a) = ground arith
fits first n len h (inr b) = ground arith

one_byte : (c : ℕ) (rest : List ℕ) → c < 256 → code_point 0 (c ∷ rest) ≡ c
unfolding code_point
one_byte c rest h = omega arith

two_bytes :
    (a b : ℕ) (rest : List ℕ)
    → a < 32
    → b < 64
    → code_point 1 ((a + 192) ∷ (128 + b) ∷ rest) ≡ a * 64 + b
unfolding code_point
two_bytes a b rest h hb = omega arith

three_bytes :
    (a b c : ℕ) (rest : List ℕ)
    → a < 16
    → b < 64
    → c < 64
    → code_point 2 ((a + 224) ∷ (128 + b) ∷ (128 + c) ∷ rest) ≡ (a * 64 + b) * 64 + c
unfolding code_point
three_bytes a b c rest h hb hc = omega arith

four_bytes :
    (a b c d : ℕ) (rest : List ℕ)
    → a < 8
    → b < 64
    → c < 64
    → d < 64
    → code_point 3 ((a + 240) ∷ (128 + b) ∷ (128 + c) ∷ (128 + d) ∷ rest)
      ≡ ((a * 64 + b) * 64 + c) * 64 + d
unfolding code_point
four_bytes a b c d rest h hb hc hd = omega arith

-- The bytes of a code point that is not replaced, by its length.
encode_as : (c n : ℕ) → c ≤ unicode_max → encode_length c ≡ n → encode c ≡ (n, write_bytes n n c [])
unfolding encode
encode_as c n h e = let t : ltb unicode_max c ≡ false = ground arith in rw t (rw e refl)

written_one : (c : ℕ) → c < 0x80 → write_bytes 1 1 c [] ≡ c ∷ []
unfolding write_bytes
written_one c h = rw (first_byte_one c h) refl

written_two : (c : ℕ) → c < 0x800 → write_bytes 2 2 c [] ≡ (c / 64 + 192) ∷ (128 + c % 64) ∷ []
unfolding write_bytes
written_two c h = rw (first_byte_two (c / 64) (omega arith), continuation_byte-eq c) refl

written_three :
    (c : ℕ)
    → c < 0x10000
    → write_bytes 3 3 c [] ≡ (c / 64 / 64 + 224) ∷ (128 + c / 64 % 64) ∷ (128 + c % 64) ∷ []
unfolding write_bytes
written_three c h =
    rw
      (
        first_byte_three (c / 64 / 64) (omega arith),
        continuation_byte-eq (c / 64),
        continuation_byte-eq c,
      )
      refl

written_four :
    (c : ℕ)
    → c ≤ unicode_max
    → write_bytes 4 4 c []
      ≡ (c / 64 / 64 / 64 + 240)
        ∷ (128 + c / 64 / 64 % 64)
        ∷ (128 + c / 64 % 64)
        ∷ (128 + c % 64)
        ∷ []
unfolding write_bytes
written_four c h =
    rw
      (
        first_byte_four (c / 64 / 64 / 64) (omega arith),
        continuation_byte-eq (c / 64 / 64),
        continuation_byte-eq (c / 64),
        continuation_byte-eq c,
      )
      refl

encode_replaced : (c : ℕ) → unicode_max < c → encode c ≡ encode unicode_error
unfolding encode
encode_replaced c h = let t : ltb unicode_max c ≡ true = ground arith in rw t refl

-- What decoding has to give back for `out`, the result of `utf8_Encode`.
abbrev DecodesTo : ℕ → ℕ × List ℕ → Type 0
DecodesTo c out =
    (out.0 ≡ length out.1)
    × ((rest : List ℕ) (len : ℕ) → out.0 ≤ len → decode (out.1 ++ rest) len ≡ (out.0, c))

one_back : (c : ℕ) → c < 0x80 → DecodesTo c (1, c ∷ [])
one_back c h = (
  refl,
  λ rest len k.
      decode_whole 0 (c ∷ rest) len (trailing_zero c (omega arith))
        (fits c 0 len k (inl (omega arith)))
      ∙ ap (λ x. (1, x)) (one_byte c rest (omega arith)),
)

two_back : (c : ℕ) → 0x80 ≤ c → c < 0x800 → DecodesTo c (2, (c / 64 + 192) ∷ (128 + c % 64) ∷ [])
two_back c l h = (
  refl,
  λ rest len k.
      decode_whole 1 ((c / 64 + 192) ∷ (128 + c % 64) ∷ rest) len
        (trailing_one (c / 64 + 192) (omega arith) (omega arith))
        (fits (c / 64 + 192) 1 len k (inr (omega arith)))
      ∙ ap (λ x. (2, x))
          (two_bytes (c / 64) (c % 64) rest (omega arith) (omega arith) ∙ omega arith),
)

three_back :
    (c : ℕ)
    → c < 0x10000
    → DecodesTo c (3, (c / 64 / 64 + 224) ∷ (128 + c / 64 % 64) ∷ (128 + c % 64) ∷ [])
three_back c h = (
  refl,
  λ rest len k.
      decode_whole 2 ((c / 64 / 64 + 224) ∷ (128 + c / 64 % 64) ∷ (128 + c % 64) ∷ rest) len
        (trailing_two (c / 64 / 64 + 224) (omega arith) (omega arith))
        (fits (c / 64 / 64 + 224) 2 len k (inr (omega arith)))
      ∙ ap (λ x. (3, x))
          (three_bytes (c / 64 / 64) (c / 64 % 64) (c % 64) rest (omega arith) (omega arith)
              (omega arith)
            ∙ omega arith),
)

four_back :
    (c : ℕ)
    → c ≤ unicode_max
    → DecodesTo c (
      4,
      (c / 64 / 64 / 64 + 240)
          ∷ (128 + c / 64 / 64 % 64)
          ∷ (128 + c / 64 % 64)
          ∷ (128 + c % 64)
          ∷ [],
    )
four_back c h = (
  refl,
  λ rest len k.
      decode_whole 3
        ((c / 64 / 64 / 64 + 240)
          ∷ (128 + c / 64 / 64 % 64)
          ∷ (128 + c / 64 % 64)
          ∷ (128 + c % 64)
          ∷ rest)
        len (trailing_three (c / 64 / 64 / 64 + 240) (omega arith) (omega arith))
        (fits (c / 64 / 64 / 64 + 240) 3 len k (inr (omega arith)))
      ∙ ap (λ x. (4, x))
          (four_bytes (c / 64 / 64 / 64) (c / 64 / 64 % 64) (c / 64 % 64) (c % 64) rest
              (omega arith) (omega arith) (omega arith) (omega arith)
            ∙ omega arith),
)

-- The ranges of `utf8_EncodeLength`.
length_cases :
    (c : ℕ)
    → c ≤ unicode_max
    → ((c < 0x80) × (encode_length c ≡ 1))
      ⊎ ((0x80 ≤ c) × (c < 0x800) × (encode_length c ≡ 2)
          ⊎ ((c < 0x10000) × (encode_length c ≡ 3) ⊎ (encode_length c ≡ 4)))
unfolding encode_length
length_cases c h = ground arith

valid_back : (c : ℕ) → c ≤ unicode_max → DecodesTo c (encode c)
valid_back c h = elim (length_cases c h) [
  | inl (a, e) ↦
      subst (DecodesTo c) (sym (encode_as c 1 h e ∙ ap (λ l. (1, l)) (written_one c a)))
        (one_back c a)
  | inr (inl (b, a, e)) ↦
      subst (DecodesTo c) (sym (encode_as c 2 h e ∙ ap (λ l. (2, l)) (written_two c a)))
        (two_back c b a)
  | inr (inr (inl (a, e))) ↦
      subst (DecodesTo c) (sym (encode_as c 3 h e ∙ ap (λ l. (3, l)) (written_three c a)))
        (three_back c a)
  | inr (inr (inr e)) ↦
      subst (DecodesTo c) (sym (encode_as c 4 h e ∙ ap (λ l. (4, l)) (written_four c h)))
        (four_back c h)
]

all_back : (c : ℕ) → DecodesTo (if ltb unicode_max c then unicode_error else c) (encode c)
all_back c = elim (Bool-cases (ltb unicode_max c)) [
  | inl e ↦ rw e (
      subst (DecodesTo unicode_error) (sym (encode_replaced c (ltb→lt unicode_max c e)))
        (valid_back unicode_error (omega arith)))
  | inr e ↦ rw e (valid_back c (ground arith))
]

-- For every code point `utf8_Encode` writes as many bytes as it returns, and `utf8_Decode`, given
-- those bytes with anything behind them and a length that takes them all in, takes exactly those
-- bytes and yields the code point, or U+FFFD where it was greater than U+10FFFF.
pub decode-encode :
    (c len : ℕ) (rest : List ℕ)
    → (encode c).0 ≤ len
    → ((encode c).0 ≡ length (encode c).1)
      × (decode ((encode c).1 ++ rest) len
          ≡ ((encode c).0, if ltb unicode_max c then unicode_error else c))
decode-encode c len rest h = ((all_back c).0, (all_back c).1 rest len h)

-- A continuation byte at the start of a text is not reported as an error: whatever the length, as
-- long as it is not zero, `utf8_Decode` yields the byte's own value.
pub decode_continuation :
    (b len : ℕ) (rest : List ℕ) → 0x80 ≤ b → b < 0xc0 → 0 < len → decode (b ∷ rest) len ≡ (1, b)
decode_continuation b len rest l h k =
    decode_whole 0 (b ∷ rest) len (trailing_zero b h) (fits b 0 len k (inl h))
    ∙ ap (λ x. (1, x)) (one_byte b rest (omega arith))
