-- ===== src/Driver/Input/Mouse.antt =====
-- The mouse of driver/input/input.c: the cursor stays on the desktop, and no button is ever seen.
use helos.Prelude.{
  ℕ, ◌/◌, ◌<◌, max, ◌≡◌, refl, true, false, List, [], ◌∷◌, arith, ◌==◌, ==_iff, get_or,
  bit_and-zero, holds_below, holds_below-lt,
}
use helos.Prelude.Int.{ℤ, pos, ◌+ℤ◌, ◌≤ℤ◌}
use helos.Util.MinMax.{intminmax}
use helos.Driver.Input.{
  Event, Input, mouse_bit, mouse_pressed_test, press_key, release_key, press_mouse, release_mouse,
  move_mouse, position_mouse, set_desktop_size,
}
use helos.Driver.Input.Calls.{
  Call, press, release, press_button, release_button, move, position, resize, IsSound, AllSound,
  step, run,
}

-- The cursor is within the rectangle of the desktop.
pub record InDesktop (s : Input) : Type 0 where
  pub left : pos 0 ≤ℤ s.cursor_x
  pub right : s.cursor_x ≤ℤ s.desktop_width
  pub top : pos 0 ≤ℤ s.cursor_y
  pub bottom : s.cursor_y ≤ℤ s.desktop_height

intminmax_bounds :
    (x max : ℤ)
    → pos 0 ≤ℤ max
    → (pos 0 ≤ℤ intminmax x (pos 0) max) × (intminmax x (pos 0) max ≤ℤ max)
unfolding intminmax
intminmax_bounds x max h = ground arith

module _ (bytes : Event → List ℕ) where
  step-InDesktop : (c : Call) (s : Input) → IsSound c → InDesktop s → InDesktop (step bytes c s)
  unfolding step press_key release_key press_mouse release_mouse move_mouse position_mouse
      set_desktop_size
  step-InDesktop (press key) s h d = ground arith
  step-InDesktop (release key) s h d = ground arith
  step-InDesktop (press_button button) s h d = ground arith
  step-InDesktop (release_button button) s h d = ground arith
  step-InDesktop (move x y) s h d = ground (
    arith,
    intminmax_bounds (s.cursor_x +ℤ x) s.desktop_width,
    intminmax_bounds (s.cursor_y +ℤ y) s.desktop_height,
  )
  step-InDesktop (position x y) s h d =
      ground (arith, intminmax_bounds x s.desktop_width, intminmax_bounds y s.desktop_height)
  step-InDesktop (resize x y) s h d =
      ground (arith, intminmax_bounds s.cursor_x x, intminmax_bounds s.cursor_y y)

  -- Whatever calls a driver makes, on desktops whose sizes are not negative: a cursor that starts
  -- within the desktop is within it afterwards.
  pub run-InDesktop :
      (cs : List Call) (s : Input) → AllSound cs → InDesktop s → InDesktop (run bytes cs s)
  unfolding run
  run-InDesktop [] s h d = d
  run-InDesktop (c ∷ cs) s h d = run-InDesktop cs (step bytes c s) h.1 (step-InDesktop c s h.0 d)

mouse_bit-table : holds_below (λ b. mouse_bit b == 0) 5 ≡ true
unfolding holds_below
mouse_bit-table = refl

-- `input_MousePressed` answers that a button is not pressed, for each of the five buttons and
-- whatever calls were made before.
pub mouse_pressed_test-run :
    (bytes : Event → List ℕ) (cs : List Call) (s : Input) (button : ℕ)
    → button < 5
    → mouse_pressed_test (run bytes cs s) button ≡ false
unfolding mouse_pressed_test
mouse_pressed_test-run bytes cs s button h =
    let no_bit : mouse_bit button ≡ 0 =
      (==_iff (mouse_bit button) 0).0 (holds_below-lt _ 5 h mouse_bit-table) in
    let word = get_or (run bytes cs s).mouse_mask (button / 64) 0 in
    rw (no_bit, bit_and-zero word word (omega arith)) refl
