-- ===== src/Driver/Ps2.antt =====
-- driver/irq/pic/ps2/ps2.c: the handlers of the keyboard's and the mouse's interrupts. A byte read
-- from the port is an argument. A handler's result is `none` where C leaves its behaviour undefined,
-- which is where `input_Key_Unknown` (-1) is shifted by.
pub mod Scancodes
pub mod Held
pub mod Wire
pub mod Decode
pub mod Keyboard
pub mod Stuck
pub mod Motion
pub mod Packet
pub mod Mouse
mod Tests
use Prim.Native.Nat.{bit_and}
use helos.Prelude.{
  get_or, leb, ltb, Option, Bool, ◌*◌, ℕ, zero, suc, ◌-◌, ◌/◌, ◌<◌, refl, inl, inr, true, false,
  not, ◌&&◌, none, some, List, ◌==◌, if◌then◌else◌, set, take,
}
use helos.Prelude.Int.{ℤ, pos, ◌-ℤ◌}
use helos.Util.Queue.{Queue, push_byte, pop_byte, front_byte, size}
use helos.Driver.Input.{
  Event, Input, press_key, release_key, press_mouse, release_mouse, move_mouse,
}
use Scancodes.{scancode1, extended_key}

-- The variables of the file, and those of driver/input/input.c.
pub record Ps2 : Type 0 where
  pub queue_keyboard : Queue
  pub queue_mouse : Queue
  pub mouse_4bytes : Bool
  pub mouse_buttons : ℕ
  pub input : Input

-- What the event says to do. The handler looks at no key where the type is neither of the two, so
-- the key that is then left unset does not matter.
pub data Decoded : Type 0 where
  nothing : Decoded
  pressed : Option ℕ → Decoded
  released : Option ℕ → Decoded

-- The `switch` on the byte after 0xe0.
pub decode_extended : ℕ → Decoded
decode_extended code = elim (extended_key code) [
  | some key ↦ pressed (some key)
  | none ↦
      if ltb code 128
      then nothing
      else elim (extended_key (code - 128)) [ some key ↦ released (some key) | none ↦ nothing ]
]

pub decode_key_scancode1 : Queue → Decoded × Queue
decode_key_scancode1 q =
    let byte0 = front_byte q in
    let (b, q1) = pop_byte q in
    let (byte1, q2) = pop_byte q1 in
    if byte0 == 250
    then (nothing, q1)
    else if leb 1 byte0 && leb byte0 88
    then (pressed (get_or scancode1 byte0 none), q1)
    else if leb 129 byte0 && leb byte0 216
    then (released (get_or scancode1 (byte0 - 128) none), q1)
    else if byte0 == 224
    then (if ltb (size q) 2 then (nothing, q) else (decode_extended byte1, q2))
    else if byte0 == 225
    then (if ltb (size q) 3 then (nothing, q) else (nothing, (pop_byte q2).1))
    else (nothing, q)

module _ (bytes : Event → List ℕ) where
  pub act : Decoded → Input → Option Input
  act nothing s = some s
  act (pressed (some key)) s = some (press_key bytes key s)
  act (released (some key)) s = some (release_key bytes key s)
  act (pressed none) s = none
  act (released none) s = none

  pub irq_handler_k : ℕ → Ps2 → Option Ps2
  irq_handler_k byte p =
      let (event, q) = decode_key_scancode1 (push_byte p.queue_keyboard byte) in
      elim (act event p.input) [
        | some s ↦ some (record p { queue_keyboard = q; input = s })
        | none ↦ none
      ]

-- The first loop of the mouse's handler, at most once for each byte held: `state` has bit 3 set.
pub resync : ℕ → Queue → Queue
resync zero q = q
resync (suc n) q =
    if not (size q == 0) && (bit_and (front_byte q) 8 == 0) then resync n (pop_byte q).1 else q

-- `d - ((state << s) & 0x100)` as the `int` that `input_source_MoveMouse` takes.
abbrev pub offset : ℕ → ℕ → ℤ
offset d sign = pos d -ℤ pos (bit_and sign 256)

module _ (bytes : Event → List ℕ) where
  -- One button whose bit is `bit` in the state.
  pub button_change : ℕ → ℕ → ℕ → ℕ → Input → Input
  button_change bit button before state s =
      let s' =
        if (bit_and before bit == 0) && not (bit_and state bit == 0)
        then press_mouse bytes button s
        else s in
      if not (bit_and before bit == 0) && (bit_and state bit == 0)
      then release_mouse bytes button s'
      else s'

  -- What the body of the second loop does with the bytes that it took; `q` are those after them.
  pub move_and_click : ℕ → ℕ → ℕ → Queue → Ps2 → Ps2
  move_and_click state dx dy q p =
      let s = move_mouse bytes (offset dx (state * 16)) (pos 0 -ℤ offset dy (state * 8)) p.input in
      if p.mouse_buttons == bit_and state 7
      then record p { queue_mouse = q; input = s }
      else record p {
        queue_mouse = q;
        input =
            button_change 4 2 p.mouse_buttons state
              (button_change 2 1 p.mouse_buttons state (button_change 1 0 p.mouse_buttons state s));
        mouse_buttons = bit_and state 7;
      }

  -- The body of the second loop.
  pub packet : Ps2 → Ps2
  packet p =
      let (state, q1) = pop_byte p.queue_mouse in
      let (dx, q2) = pop_byte q1 in
      let (dy, q3) = pop_byte q2 in
      move_and_click state dx dy (if p.mouse_4bytes then (pop_byte q3).1 else q3) p

  -- The second loop, at most once for each byte held.
  pub packets : ℕ → Ps2 → Ps2
  packets zero p = p
  packets (suc n) p =
      if ltb (size p.queue_mouse) (if p.mouse_4bytes then 4 else 3) then p else packets n (packet p)

  pub irq_handler_m : ℕ → Ps2 → Ps2
  irq_handler_m byte p =
      let q = push_byte p.queue_mouse byte in
      let q' = resync (size q) q in packets (size q') (record p { queue_mouse = q' })
