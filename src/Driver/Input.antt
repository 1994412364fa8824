-- ===== src/Driver/Input.antt =====
-- driver/input/input.c: which keys are held, where the mouse is, and the queue of events. An `int`
-- is read as an integer: the coordinates are within the desktop, and a mouse moves by less than 2 ^
-- 9. Interrupts are off round each call that is modelled.
pub mod Keys
pub mod Pressed
pub mod Calls
pub mod Mouse
pub mod Events
mod Tests
use Prim.Native.Nat.{bit_and, bit_or}
use helos.Prelude.{
  ℕ, zero, ◌+◌, ◌-◌, ◌/◌, ◌%◌, ◌^◌, ◌<◌, min, max, refl, inl, inr, Bool, true, false, not, ◌||◌,
  Option, none, some, List, ◌==◌, if◌then◌else◌, set, get_or, complement,
}
use helos.Prelude.Int.{ℤ, pos, ◌+ℤ◌}
use helos.Util.MinMax.{intminmax}
use helos.Util.Queue.{Queue, push as queue_push}
use Keys.{l_control, r_control, l_shift, r_shift, l_alt, r_alt}

-- `input_Event`, one constructor for each member of its union that is filled in; `Super` is zero.
pub data Event : Type 0 where
  mouse_moved : ℤ → ℤ → Event
  mouse_button_pressed : ℕ → ℤ → ℤ → Event
  mouse_button_released : ℕ → ℤ → ℤ → Event
  key_pressed : ℕ → Bool → Bool → Bool → Event
  key_released : ℕ → Bool → Bool → Bool → Event

-- The variables of the file. `input_Condition` is kept as the number of times it was notified, if
-- it is there.
pub record Input : Type 0 where
  pub condition : Option ℕ
  pub event_queue : Option Queue
  pub cursor_x : ℤ
  pub cursor_y : ℤ
  pub desktop_width : ℤ
  pub desktop_height : ℤ
  pub key_mask : List ℕ
  pub mouse_mask : List ℕ

-- `1ull << key % 64`
abbrev pub key_bit : ℕ → ℕ
key_bit key = 2 ^ (key % 64)

-- `1ull << key & 64`, which C reads as `(1ull << key) & 64`.
abbrev pub mouse_bit : ℕ → ℕ
mouse_bit button = bit_and (2 ^ button) 64

pub key_pressed_test : Input → ℕ → Bool
key_pressed_test s key = not (bit_and (get_or s.key_mask (key / 64) 0) (key_bit key) == 0)

pub mouse_pressed_test : Input → ℕ → Bool
mouse_pressed_test s button =
    not (bit_and (get_or s.mouse_mask (button / 64) 0) (mouse_bit button) == 0)

pub mouse_position : Input → ℤ × ℤ
mouse_position s = (s.cursor_x, s.cursor_y)

pub desktop_size : Input → ℤ × ℤ
desktop_size s = (s.desktop_width, s.desktop_height)

pub notify : Input → Input
notify s = elim s.condition [ none ↦ s | some n ↦ record s { condition = some (n + 1) } ]

pub flag_control : Input → Bool
flag_control s = key_pressed_test s l_control || key_pressed_test s r_control

pub flag_shift : Input → Bool
flag_shift s = key_pressed_test s l_shift || key_pressed_test s r_shift

pub flag_alt : Input → Bool
flag_alt s = key_pressed_test s l_alt || key_pressed_test s r_alt

-- `bytes` is how the compiler lays an event out.
module _ (bytes : Event → List ℕ) where
  -- `if (input_EventQueue) { ...; queue_Push(input_EventQueue, &e, sizeof(e)); }`
  pub post : Event → Input → Input
  post e s = elim s.event_queue [
    | none ↦ s
    | some q ↦ record s { event_queue = some (queue_push q (bytes e)) }
  ]

  abbrev mask_key : Input → ℕ → Input
  mask_key s key = record s {
    key_mask = set s.key_mask (key / 64) (bit_or (get_or s.key_mask (key / 64) 0) (key_bit key));
  }

  abbrev unmask_key : Input → ℕ → Input
  unmask_key s key = record s {
    key_mask =
        set s.key_mask (key / 64)
          (bit_and (get_or s.key_mask (key / 64) 0) (complement 64 (key_bit key)));
  }

  pub press_key : ℕ → Input → Input
  unfolding post notify
  press_key key s =
      let s' = mask_key s key in
      notify (post (key_pressed key (flag_control s') (flag_shift s') (flag_alt s')) s')

  pub release_key : ℕ → Input → Input
  unfolding post notify
  release_key key s =
      let s' = unmask_key s key in
      notify (post (key_released key (flag_control s') (flag_shift s') (flag_alt s')) s')

  pub press_mouse : ℕ → Input → Input
  unfolding post notify
  press_mouse button s =
      let s' = record s {
        mouse_mask =
            set s.mouse_mask (button / 64)
              (bit_or (get_or s.mouse_mask (button / 64) 0) (mouse_bit button));
      } in
      notify (post (mouse_button_pressed button s'.cursor_x s'.cursor_y) s')

  pub release_mouse : ℕ → Input → Input
  unfolding post notify
  release_mouse button s =
      let s' = record s {
        mouse_mask =
            set s.mouse_mask (button / 64)
              (bit_and (get_or s.mouse_mask (button / 64) 0) (complement 64 (mouse_bit button)));
      } in
      notify (post (mouse_button_released button s'.cursor_x s'.cursor_y) s')

  pub position_mouse : ℤ → ℤ → Input → Input
  unfolding post notify
  position_mouse x y s =
      let s' = record s {
        cursor_x = intminmax x (pos 0) s.desktop_width;
        cursor_y = intminmax y (pos 0) s.desktop_height;
      } in
      notify (post (mouse_moved s'.cursor_x s'.cursor_y) s')

  pub move_mouse : ℤ → ℤ → Input → Input
  unfolding post notify
  move_mouse x y s =
      let s' = record s {
        cursor_x = intminmax (s.cursor_x +ℤ x) (pos 0) s.desktop_width;
        cursor_y = intminmax (s.cursor_y +ℤ y) (pos 0) s.desktop_height;
      } in
      notify (post (mouse_moved s'.cursor_x s'.cursor_y) s')

pub set_desktop_size : ℤ → ℤ → Input → Input
set_desktop_size x y s = record s {
  desktop_width = x;
  desktop_height = y;
  cursor_x = intminmax s.cursor_x (pos 0) x;
  cursor_y = intminmax s.cursor_y (pos 0) y;
}
