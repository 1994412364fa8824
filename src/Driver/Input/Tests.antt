-- ===== src/Driver/Input/Tests.antt =====
-- The theorems on driver/input/input.c at a concrete driver's calls.
use helos.Prelude.{ℕ, ◌≡◌, refl, false, not, ◌&&◌, ◌||◌, some, List, [], ◌∷◌, arith, ◌==◌}
use helos.Prelude.Int.{pos, negsuc, ◌+ℤ◌}
use helos.Util.MinMax.{intminmax}
use helos.Util.Queue.{Queue}
use helos.Util.Queue.Inv.{IsValid}
use helos.Driver.Input.{
  Event, Input, mouse_moved, mouse_button_pressed, mouse_button_released, key_pressed, key_released,
  key_pressed_test, mouse_pressed_test, press_key, release_key, press_mouse, move_mouse,
  set_desktop_size, mouse_position, desktop_size,
}
use helos.Driver.Input.Calls.{Call, press, release, press_button, move, resize, AllSound, step, run}
use helos.Driver.Input.Pressed.{key_pressed_test-press_key}
use helos.Driver.Input.Mouse.{InDesktop, run-InDesktop, mouse_pressed_test-run}
use helos.Driver.Input.Events.{queued, reported, run-reported}

-- A layout for the tests: the type and the first byte.
abbrev bytes_of : Event → List ℕ
bytes_of (mouse_moved x y) = 0 ∷ 0 ∷ []
bytes_of (mouse_button_pressed button x y) = 1 ∷ button ∷ []
bytes_of (mouse_button_released button x y) = 2 ∷ button ∷ []
bytes_of (key_pressed key control shift alt) = 3 ∷ key ∷ []
bytes_of (key_released key control shift alt) = 4 ∷ key ∷ []

abbrev events : Queue
events = record { buf = 0 ∷ 0 ∷ 0 ∷ 0 ∷ 0 ∷ []; size = 5; begin = 0; end = 0; count = 0 }

events-IsValid : IsValid events
events-IsValid = omega arith

abbrev started : Input
started = record {
  condition = some 0;
  event_queue = some events;
  cursor_x = pos 10;
  cursor_y = pos 20;
  desktop_width = pos 640;
  desktop_height = pos 480;
  key_mask = 0 ∷ 0 ∷ [];
  mouse_mask = 0 ∷ [];
}

abbrev script : List Call
script =
    press 2 ∷ move (negsuc 30) (pos 3) ∷ press_button 1 ∷ resize (pos 5) (pos 5) ∷ release 2 ∷ []

script-AllSound : AllSound script
script-AllSound = ground arith

started-InDesktop : InDesktop started
started-InDesktop = ground arith

moved :
    (mouse_position (run bytes_of (press 2 ∷ move (negsuc 30) (pos 3) ∷ []) started)
      ≡ (pos 0, pos 23))
    × (desktop_size (run bytes_of script started) ≡ (pos 5, pos 5))
unfolding mouse_position desktop_size run step press_key release_key press_mouse move_mouse
    set_desktop_size intminmax ◌+ℤ◌
moved = (refl, refl)

key_pressed_test-press_key_example :
    (key_pressed_test (press_key bytes_of 2 started) 3 ≡ ((2 == 3) || key_pressed_test started 3))
    × (key_pressed_test (release_key bytes_of 2 started) 3
        ≡ (not (2 == 3) && key_pressed_test started 3))
key_pressed_test-press_key_example =
    key_pressed_test-press_key bytes_of started 2 3 refl (omega arith) (omega arith)

run-InDesktop_example : InDesktop (run bytes_of script started)
run-InDesktop_example = run-InDesktop bytes_of script started script-AllSound started-InDesktop

mouse_pressed_test-run_example : mouse_pressed_test (run bytes_of script started) 1 ≡ false
mouse_pressed_test-run_example = mouse_pressed_test-run bytes_of script started 1 (omega arith)

run-reported_example :
    queued (run bytes_of script started) ≡ some (reported bytes_of script started 5 [])
run-reported_example = run-reported bytes_of script started events refl events-IsValid
