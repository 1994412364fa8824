-- ===== src/Runtime/Unicode/Tests.antt =====
-- runtime/unicode.c at a few code points, and the theorems at concrete texts.
use helos.Prelude.{◌≡◌, refl, [], ◌∷◌, ◌++◌, arith, length}
use helos.Runtime.Unicode.{unicode_error, decode, encode, continuation_byte, first_byte}
use helos.Runtime.Unicode.RoundTrip.{decode-encode, decode_continuation}

-- U+20AC, the euro sign.
encode_euro : encode 0x20ac ≡ (3, 0xe2 ∷ 0x82 ∷ 0xac ∷ [])
unfolding encode continuation_byte first_byte
encode_euro = refl

encode_out_of_range : encode 0x110000 ≡ encode unicode_error
unfolding encode continuation_byte first_byte
encode_out_of_range = refl

decode_truncated : decode (0xe2 ∷ 0x82 ∷ []) 2 ≡ (1, unicode_error)
unfolding decode
decode_truncated = refl

decode-encode_example :
    ((encode 0x20ac).0 ≡ length (encode 0x20ac).1)
    × (decode ((encode 0x20ac).1 ++ (0x41 ∷ [])) 4 ≡ ((encode 0x20ac).0, 0x20ac))
unfolding encode
decode-encode_example = decode-encode 0x20ac 4 (0x41 ∷ []) (omega arith)

decode_continuation_example : decode (0x82 ∷ 0xac ∷ []) 2 ≡ (1, 0x82)
decode_continuation_example =
    decode_continuation 0x82 2 (0xac ∷ []) (omega arith) (omega arith) (omega arith)
