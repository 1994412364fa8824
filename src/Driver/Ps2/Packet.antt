-- ===== src/Driver/Ps2/Packet.antt =====
-- One packet of the mouse's handler of driver/irq/pic/ps2/ps2.c.
use Prim.Native.Nat.{bit_and}
use helos.Prelude.Int.{◌-ℤ◌}
use helos.Prelude.{
  ◌==◌, ◌∙◌, Bool-cases, ℕ, ◌+◌, ◌*◌, ◌≤◌, ◌≡◌, refl, inl, inr, Bool, true, false, List, [], arith,
}
use helos.Util.Queue.{Queue, pop_byte}
use helos.Driver.Input.{Event, Input}
use helos.Driver.Input.Calls.{run, step, run-append}
use helos.Driver.Ps2.{Ps2, offset, button_change, move_and_click, packet}
use helos.Driver.Ps2.Held.{Holds, pop_byte-Holds}
use helos.Driver.Ps2.Motion.{
  Buttons, Motion, bit, mask_of, state_of, wire_m, amount, change, changes, motion_calls,
}

pub state_bits :
    (l r m x y : Bool)
    → let s = bit l + 2 * bit r + 4 * bit m + 8 + 16 * bit x + 32 * bit y in
      (bit_and s 8 ≡ 8)
      × (bit_and (s * 16) 256 ≡ 256 * bit x)
      × (bit_and (s * 8) 256 ≡ 256 * bit y)
      × (bit_and s 7 ≡ bit l + 2 * bit r + 4 * bit m)
state_bits l r m x y = ground arith

mask_bits :
    (l r m x y : Bool)
    → let s = bit l + 2 * bit r + 4 * bit m + 8 + 16 * bit x + 32 * bit y in
      (bit_and s 1 ≡ 1 * bit l) × (bit_and s 2 ≡ 2 * bit r) × (bit_and s 4 ≡ 4 * bit m)
mask_bits l r m x y = ground arith

old_mask_bits :
    (l r m : Bool)
    → let s = bit l + 2 * bit r + 4 * bit m in
      (bit_and s 1 ≡ 1 * bit l) × (bit_and s 2 ≡ 2 * bit r) × (bit_and s 4 ≡ 4 * bit m)
old_mask_bits l r m = ground arith

-- The state between packets.
pub record Between (b : Buttons) (p : Ps2) : Type 0 where
  pub plain : p.mouse_4bytes ≡ false
  pub mask : p.mouse_buttons ≡ mask_of b
  pub empty : Holds [] p.queue_mouse

module _ (bytes : Event → List ℕ) where
  button_change-run :
      (button k : ℕ) (before after : Bool) (old new : ℕ) (s : Input)
      → 1 ≤ k
      → bit_and old k ≡ k * bit before
      → bit_and new k ≡ k * bit after
      → button_change bytes k button old new s ≡ run bytes (change button before after) s
  unfolding button_change run step
  button_change-run button k true true old new s h i j = ground arith
  button_change-run button k true false old new s h i j = ground arith
  button_change-run button k false true old new s h i j = ground arith
  button_change-run button k false false old new s h i j = ground arith

  no_changes : (before after : Buttons) → mask_of before ≡ mask_of after → changes before after ≡ []
  no_changes before after h = ground arith

  offset-amount :
      (d sign : ℕ) (negative : Bool)
      → bit_and sign 256 ≡ 256 * bit negative
      → offset d sign ≡ amount negative d
  unfolding ◌-ℤ◌
  offset-amount d sign true h = rw (h) refl
  offset-amount d sign false h = rw (h) (ground arith)

  three_changes :
      (before : Buttons) (m : Motion) (old : ℕ) (s : Input)
      → old ≡ mask_of before
      → button_change bytes 4 2 old
          (state_of m)
          (button_change bytes 2 1 old (state_of m) (button_change bytes 1 0 old (state_of m) s))
        ≡ run bytes (changes before m.buttons) s
  three_changes before m old s h =
      let was = old_mask_bits before.left before.right before.middle in
      let is =
        mask_bits m.buttons.left m.buttons.right m.buttons.middle m.x_negative m.y_negative in
      rw
        (
          h,
          button_change-run 0 1 before.left m.buttons.left _ _ _ (omega arith) was.0 is.0,
          button_change-run 1 2 before.right m.buttons.right _ _ _ (omega arith) was.1 is.1,
          button_change-run 2 4 before.middle m.buttons.middle _ _ _ (omega arith) was.2 is.2,
          run-append bytes (change 0 before.left m.buttons.left),
          run-append bytes (change 1 before.right m.buttons.right),
        )
        refl

  move_and_click-run :
      (before : Buttons) (m : Motion) (q : Queue) (p : Ps2)
      → p.mouse_buttons ≡ mask_of before
      → ((move_and_click bytes (state_of m) m.x_low m.y_low q p).input
          ≡ run bytes (motion_calls before m) p.input)
        × ((move_and_click bytes (state_of m) m.x_low m.y_low q p).mouse_buttons
            ≡ mask_of m.buttons)
        × ((move_and_click bytes (state_of m) m.x_low m.y_low q p).queue_mouse ≡ q)
        × ((move_and_click bytes (state_of m) m.x_low m.y_low q p).mouse_4bytes ≡ p.mouse_4bytes)
  unfolding run step move_and_click
  move_and_click-run before m q p mask =
      let low =
        state_bits m.buttons.left m.buttons.right m.buttons.middle m.x_negative m.y_negative in
      let dx = offset-amount m.x_low (state_of m * 16) m.x_negative low.1 in
      let dy = offset-amount m.y_low (state_of m * 8) m.y_negative low.2 in
      elim (Bool-cases (p.mouse_buttons == bit_and (state_of m) 7)) [
        | inl e ↦ (
          rw (move_and_click, e, dx, dy, no_changes before m.buttons (ground (arith, low, mask, e)))
              refl,
          rw (move_and_click, e) (ground (arith, low, mask, e)),
          rw (move_and_click, e) refl,
          rw (move_and_click, e) refl,
        )
        | inr e ↦ (
          rw (move_and_click, e, dx, dy, three_changes before m p.mouse_buttons _ mask) refl,
          rw (move_and_click, e) low.3,
          rw (move_and_click, e) refl,
          rw (move_and_click, e) refl,
        )
      ]

  pub packet-moves :
      (before : Buttons) (m : Motion) (p : Ps2)
      → p.mouse_4bytes ≡ false
      → p.mouse_buttons ≡ mask_of before
      → Holds (wire_m m) p.queue_mouse
      → ((packet bytes p).input ≡ run bytes (motion_calls before m) p.input)
        × Between m.buttons (packet bytes p)
  unfolding packet
  packet-moves before m p plain mask held =
      let first = pop_byte-Holds held in
      let second = pop_byte-Holds first.1 in
      let third = pop_byte-Holds second.1 in
      let q3 = (pop_byte (pop_byte (pop_byte p.queue_mouse).1).1).1 in
      let reads : packet bytes p ≡ move_and_click bytes (state_of m) m.x_low m.y_low q3 p =
        rw (packet, first.0, second.0, third.0, plain) refl in
      let moves = move_and_click-run before m q3 p mask in
      rw (reads)
        (moves.0, record { plain = moves.3 ∙ plain; mask = moves.1; empty = rw (moves.2) third.1 })
