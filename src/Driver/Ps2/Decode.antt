-- ===== src/Driver/Ps2/Decode.antt =====
-- `__pic_ps2_DecodeKeyScancode1` of driver/irq/pic/ps2/ps2.c on what a keyboard sends.
use helos.Prelude.{ℕ, ◌+◌, ◌-◌, ◌<◌, ◌≡◌, refl, some, List, [], ◌∷◌, arith}
use helos.Util.Queue.{Queue}
use helos.Driver.Ps2.{Decoded, nothing, pressed, released, decode_extended, decode_key_scancode1}
use helos.Driver.Ps2.Scancodes.{extended_key, extended_key-release}
use helos.Driver.Ps2.Held.{Holds, pop_byte-Holds, front_byte-Holds, size-Holds}
use helos.Driver.Ps2.Wire.{IsSet1, down, up}

-- The event and the bytes left of a queue that holds `bs`.
pub record Decodes (bs : List ℕ) (event : Decoded) (rest : List ℕ) (q : Queue) : Type 0 where
  pub is_event : (decode_key_scancode1 q).0 ≡ event
  pub left : Holds rest (decode_key_scancode1 q).1

pub decode-down :
    {q : Queue} (code key : ℕ)
    → IsSet1 (down code key)
    → Holds (code ∷ []) q
    → Decodes (code ∷ []) (pressed (some key)) [] q
unfolding decode_key_scancode1
decode-down code key h held = ground (arith, front_byte-Holds held, pop_byte-Holds held)

pub decode-up :
    {q : Queue} (code key : ℕ)
    → IsSet1 (up code key)
    → Holds ((code + 128) ∷ []) q
    → Decodes ((code + 128) ∷ []) (released (some key)) [] q
unfolding decode_key_scancode1
decode-up code key h held = ground (arith, front_byte-Holds held, pop_byte-Holds held)

pub decode-ack : {q : Queue} → Holds (250 ∷ []) q → Decodes (250 ∷ []) nothing [] q
unfolding decode_key_scancode1
decode-ack held = ground (arith, front_byte-Holds held, pop_byte-Holds held)

pub decode-prefix : {q : Queue} → Holds (224 ∷ []) q → Decodes (224 ∷ []) nothing (224 ∷ []) q
unfolding decode_key_scancode1
decode-prefix held = ground (arith, front_byte-Holds held, size-Holds held)

pub decode-extended :
    {q : Queue} {event : Decoded} (code : ℕ)
    → decode_extended code ≡ event
    → Holds (224 ∷ code ∷ []) q
    → Decodes (224 ∷ code ∷ []) event [] q
unfolding decode_key_scancode1
decode-extended code h held =
    let rest = pop_byte-Holds held in
    ground (arith, front_byte-Holds held, size-Holds held, rest, pop_byte-Holds rest.1)

pub decode-pause_start :
    {q : Queue} (x : ℕ)
    → (Holds (225 ∷ []) q → Decodes (225 ∷ []) nothing (225 ∷ []) q)
      × (Holds (225 ∷ x ∷ []) q → Decodes (225 ∷ x ∷ []) nothing (225 ∷ x ∷ []) q)
unfolding decode_key_scancode1
decode-pause_start x = (
  λ held. ground (arith, front_byte-Holds held, size-Holds held),
  λ held. ground (arith, front_byte-Holds held, size-Holds held),
)

pub decode-pause :
    {q : Queue} (x y : ℕ) → Holds (225 ∷ x ∷ y ∷ []) q → Decodes (225 ∷ x ∷ y ∷ []) nothing [] q
unfolding decode_key_scancode1
decode-pause x y held =
    let rest = pop_byte-Holds held in
    let rest' = pop_byte-Holds rest.1 in
    ground (arith, front_byte-Holds held, size-Holds held, rest', pop_byte-Holds rest'.1)

pub decode_extended-key :
    (code key : ℕ)
    → code < 128
    → extended_key code ≡ some key
    → (decode_extended code ≡ pressed (some key))
      × (decode_extended (code + 128) ≡ released (some key))
unfolding decode_extended
decode_extended-key code key h k =
    let same : code + 128 - 128 ≡ code = omega arith in
    (
      rw (decode_extended, k) refl,
      rw (decode_extended, extended_key-release code, same, k) (ground arith),
    )
