-- ===== src/Driver/Input/Calls.antt =====
-- The calls of driver/input/source.h, as a device driver makes them.
use helos.Prelude.{refl, ◌≡◌, ◌++◌, ◌≡◌, ◌++◌, ℕ, Option, none, some, List, [], ◌∷◌}
use helos.Prelude.Int.{ℤ, pos, ◌≤ℤ◌}
use helos.Driver.Input.{
  Event, mouse_moved, mouse_button_pressed, mouse_button_released, key_pressed, key_released, Input,
  flag_control, flag_shift, flag_alt, press_key, release_key, press_mouse, release_mouse,
  move_mouse, position_mouse, set_desktop_size,
}

pub data Call : Type 0 where
  press : ℕ → Call
  release : ℕ → Call
  press_button : ℕ → Call
  release_button : ℕ → Call
  move : ℤ → ℤ → Call
  position : ℤ → ℤ → Call
  resize : ℤ → ℤ → Call

-- A desktop has no negative size.
abbrev pub IsSound : Call → Type 0
IsSound (resize x y) = (pos 0 ≤ℤ x) × (pos 0 ≤ℤ y)
IsSound _ = Unit {0}

abbrev pub AllSound : List Call → Type 0
AllSound [] = Unit {0}
AllSound (c ∷ cs) = IsSound c × AllSound cs

module _ (bytes : Event → List ℕ) where
  unfoldable pub step : Call → Input → Input
  step (press key) s = press_key bytes key s
  step (release key) s = release_key bytes key s
  step (press_button button) s = press_mouse bytes button s
  step (release_button button) s = release_mouse bytes button s
  step (move x y) s = move_mouse bytes x y s
  step (position x y) s = position_mouse bytes x y s
  step (resize x y) s = set_desktop_size x y s

  unfoldable pub run : List Call → Input → Input
  run [] s = s
  run (c ∷ cs) s = run cs (step c s)

  pub run-append : (xs ys : List Call) (s : Input) → run (xs ++ ys) s ≡ run ys (run xs s)
  unfolding run
  run-append [] ys s = refl
  run-append (x ∷ xs) ys s = run-append xs ys (step x s)

-- The event that a call ending in `s` has to report.
unfoldable pub event_of : Call → Input → Option Event
event_of (press key) s = some (key_pressed key (flag_control s) (flag_shift s) (flag_alt s))
event_of (release key) s = some (key_released key (flag_control s) (flag_shift s) (flag_alt s))
event_of (press_button button) s = some (mouse_button_pressed button s.cursor_x s.cursor_y)
event_of (release_button button) s = some (mouse_button_released button s.cursor_x s.cursor_y)
event_of (move x y) s = some (mouse_moved s.cursor_x s.cursor_y)
event_of (position x y) s = some (mouse_moved s.cursor_x s.cursor_y)
event_of (resize x y) s = none
