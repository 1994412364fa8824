-- ===== src/Driver/Ps2/Tests.antt =====
-- The theorems on driver/irq/pic/ps2/ps2.c at concrete keyboards and mice.
use helos.Prelude.{ℕ, ◌≡◌, refl, true, false, none, some, List, [], ◌∷◌, arith}
use helos.Prelude.Int.{pos}
use helos.Util.Queue.{Queue, front_byte}
use helos.Util.Queue.Inv.{IsValid}
use helos.Driver.Input.{Event, Input}
use helos.Driver.Input.Calls.{run}
use helos.Driver.Ps2.{Ps2}
use helos.Driver.Ps2.Scancodes.{scancode1, extended_key}
use helos.Driver.Ps2.Held.{Holds}
use helos.Driver.Ps2.Wire.{
  Stroke, down, up, extended_down, extended_up, ack, pause_half, AllSet1, wires, calls_of,
}
use helos.Driver.Ps2.Keyboard.{run_k, run_k-wires}
use helos.Driver.Ps2.Stuck.{run_k-stuck}
use helos.Driver.Ps2.Motion.{Buttons, Motion, motions_calls, wires_m}
use helos.Driver.Ps2.Packet.{Between}
use helos.Driver.Ps2.Mouse.{run_m, run_m-wires}

abbrev bytes_of : Event → List ℕ
bytes_of e = 1 ∷ []

abbrev empty : Queue
empty = record { buf = 0 ∷ 0 ∷ 0 ∷ 0 ∷ 0 ∷ []; size = 5; begin = 3; end = 3; count = 0 }

empty-Holds : Holds [] empty
empty-Holds = record { valid = omega arith; wide = omega arith; held = refl }

-- Byte 0 is in front.
abbrev jammed : Queue
jammed = record { buf = 0 ∷ 0 ∷ 0 ∷ 0 ∷ 0 ∷ []; size = 5; begin = 4; end = 0; count = 1 }

jammed-IsValid : IsValid jammed
jammed-IsValid = omega arith

abbrev idle : Input
idle = record {
  condition = none;
  event_queue = some empty;
  cursor_x = pos 10;
  cursor_y = pos 20;
  desktop_width = pos 640;
  desktop_height = pos 480;
  key_mask = 0 ∷ 0 ∷ [];
  mouse_mask = 0 ∷ [];
}

abbrev at_rest : Queue → Ps2
at_rest q = record {
  queue_keyboard = q;
  queue_mouse = empty;
  mouse_4bytes = false;
  mouse_buttons = 0;
  input = idle;
}

-- Escape, the right arrow, half of Pause.
abbrev strokes : List Stroke
strokes =
    down 1 36 ∷ extended_down 77 72 ∷ ack ∷ extended_up 77 72 ∷ pause_half 29 69 ∷ up 1 36 ∷ []

strokes-AllSet1 : AllSet1 strokes
unfolding scancode1 extended_key
strokes-AllSet1 = ground arith

run_k-wires_example :
    (p' : Ps2) × (run_k bytes_of (wires strokes) (at_rest empty) ≡ some p')
    × (p'.input ≡ run bytes_of (calls_of strokes) idle)
    × Holds [] p'.queue_keyboard
run_k-wires_example = run_k-wires bytes_of strokes (at_rest empty) strokes-AllSet1 empty-Holds

run_k-stuck_example :
    (p' : Ps2) × (run_k bytes_of (1 ∷ 129 ∷ []) (at_rest jammed) ≡ some p')
    × (p'.input ≡ idle)
    × (front_byte p'.queue_keyboard ≡ 0)
run_k-stuck_example = run_k-stuck bytes_of (1 ∷ 129 ∷ []) (at_rest jammed) jammed-IsValid refl refl

abbrev none_down : Buttons
none_down = record { left = false; right = false; middle = false }

-- Left and up, with the left button down.
abbrev drag : Motion
drag = record {
  x_negative = true;
  x_low = 250;
  y_negative = false;
  y_low = 3;
  buttons = record { left = true; right = false; middle = false };
}

at_rest-Between : Between none_down (at_rest empty)
at_rest-Between = record { plain = refl; mask = refl; empty = empty-Holds }

run_m-wires_example :
    ((run_m bytes_of (wires_m (drag ∷ drag ∷ [])) (at_rest empty)).input
      ≡ run bytes_of (motions_calls none_down (drag ∷ drag ∷ [])) idle)
    × Between drag.buttons (run_m bytes_of (wires_m (drag ∷ drag ∷ [])) (at_rest empty))
run_m-wires_example =
    run_m-wires bytes_of none_down (drag ∷ drag ∷ []) (at_rest empty) at_rest-Between
