-- ===== src/Driver/Ps2/Mouse.antt =====
-- The mouse's handler of driver/irq/pic/ps2/ps2.c, against what a mouse sends for each motion.
use Prim.Native.Nat.{bit_and}
use helos.Driver.Ps2.Packet.{Between, state_bits, packet-moves}
use helos.Prelude.{length, ◌<◌, ℕ, zero, suc, ◌≡◌, refl, sym, ap, ◌∙◌, false, List, [], ◌∷◌, arith}
use helos.Util.Queue.{Queue, push_byte, size}
use helos.Driver.Input.{Event}
use helos.Driver.Input.Calls.{run, run-append}
use helos.Driver.Ps2.{Ps2, resync, packet, packets, irq_handler_m}
use helos.Driver.Ps2.Held.{Holds, push_byte-Holds, front_byte-Holds, size-Holds}
use helos.Driver.Ps2.Motion.{
  Buttons, Motion, state_of, wire_m, motion_calls, motions_calls, wires_m, last_buttons,
}

resync-aligned :
    (n : ℕ) {q : Queue} {b : ℕ} {bs : List ℕ} → Holds (b ∷ bs) q → bit_and b 8 ≡ 8 → resync n q ≡ q
unfolding resync
resync-aligned zero held h = refl
resync-aligned (suc n) held h = ground (arith, front_byte-Holds held)

packets-wait :
    (bytes : Event → List ℕ) (n : ℕ) (p : Ps2)
    → p.mouse_4bytes ≡ false
    → size p.queue_mouse < 3
    → packets bytes n p ≡ p
unfolding packets
packets-wait bytes zero p h k = refl
packets-wait bytes (suc n) p h k = ground arith

module _ (bytes : Event → List ℕ) where
  irq_handler_m-aligned :
      (byte : ℕ) (p : Ps2) {b : ℕ} {bs : List ℕ}
      → Holds (b ∷ bs) (push_byte p.queue_mouse byte)
      → bit_and b 8 ≡ 8
      → irq_handler_m bytes byte p
        ≡ packets bytes (suc (length bs)) (record p { queue_mouse = push_byte p.queue_mouse byte })
  unfolding irq_handler_m
  irq_handler_m-aligned byte p held h =
      rw (resync-aligned (size (push_byte p.queue_mouse byte)) held h, size-Holds held) refl

  -- A whole packet is taken, and then the loop ends.
  packets-once :
      (p : Ps2) {b : Buttons} {s x y : ℕ}
      → p.mouse_4bytes ≡ false
      → Holds (s ∷ x ∷ y ∷ []) p.queue_mouse
      → Between b (packet bytes p)
      → packets bytes 3 p ≡ packet bytes p
  unfolding packets
  packets-once p plain held after =
      let rest =
        packets-wait bytes 2 (packet bytes p) after.plain (omega (arith, size-Holds after.empty)) in
      ground (arith, size-Holds held, rest)

  -- The bytes of interrupts, one after the other.
  unfoldable pub run_m : List ℕ → Ps2 → Ps2
  run_m [] p = p
  run_m (b ∷ bs) p = run_m bs (irq_handler_m bytes b p)

  motion-moves :
      (before : Buttons) (m : Motion) (p : Ps2)
      → Between before p
      → ((run_m (wire_m m) p).input ≡ run bytes (motion_calls before m) p.input)
        × Between m.buttons (run_m (wire_m m) p)
  unfolding run_m
  motion-moves before m p b =
      let bit3 =
        (state_bits m.buttons.left m.buttons.right m.buttons.middle m.x_negative m.y_negative).0 in
      let one = push_byte-Holds (state_of m) (omega arith) b.empty in
      let p1 : Ps2 = record p { queue_mouse = push_byte p.queue_mouse (state_of m) } in
      let e1 : irq_handler_m bytes (state_of m) p ≡ p1 =
        irq_handler_m-aligned (state_of m) p one bit3
        ∙ packets-wait bytes 1 p1 b.plain (omega (arith, size-Holds one)) in
      let two = push_byte-Holds m.x_low (omega arith) one in
      let p2 : Ps2 = record p1 { queue_mouse = push_byte p1.queue_mouse m.x_low } in
      let e2 : irq_handler_m bytes m.x_low p1 ≡ p2 =
        irq_handler_m-aligned m.x_low p1 two bit3
        ∙ packets-wait bytes 2 p2 b.plain (omega (arith, size-Holds two)) in
      let three = push_byte-Holds m.y_low (omega arith) two in
      let p3 : Ps2 = record p2 { queue_mouse = push_byte p2.queue_mouse m.y_low } in
      let moves = packet-moves bytes before m p3 b.plain b.mask three in
      let e3 : irq_handler_m bytes m.y_low p2 ≡ packet bytes p3 =
        irq_handler_m-aligned m.y_low p2 three bit3 ∙ packets-once p3 b.plain three moves.1 in
      rw (e1, e2, e3) moves

  -- A mouse that sends packets of three bytes, between two packets, with an empty queue of at least
  -- four bytes and the buttons that the driver remembers: after its packets, one interrupt for each
  -- byte, the handler has made for each motion one call that moves by its amounts and one for each
  -- button that changed, in order, and it is between packets again with the buttons of the last
  -- motion.
  pub run_m-wires :
      (before : Buttons) (ms : List Motion) (p : Ps2)
      → Between before p
      → ((run_m (wires_m ms) p).input ≡ run bytes (motions_calls before ms) p.input)
        × Between (last_buttons before ms) (run_m (wires_m ms) p)
  unfolding run run_m
  run_m-wires before [] p b = (refl, b)
  run_m-wires before (m ∷ ms) p b =
      let first = motion-moves before m p b in
      let rest = run_m-wires m.buttons ms (run_m (wire_m m) p) first.1 in
      (
        rest.0
            ∙ ap (run bytes (motions_calls m.buttons ms)) first.0
            ∙ sym (run-append bytes (motion_calls before m) (motions_calls m.buttons ms) p.input),
        rest.1,
      )
