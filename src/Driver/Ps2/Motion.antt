-- ===== src/Driver/Ps2/Motion.antt =====
-- What a mouse sends, in packets of three bytes, for driver/irq/pic/ps2/ps2.c.
use helos.Prelude.{ℕ, ◌+◌, ◌*◌, Bool, true, false, List, [], ◌∷◌, ◌++◌, if◌then◌else◌}
use helos.Prelude.Int.{ℤ, pos, ◌-ℤ◌}
use helos.Driver.Input.Calls.{Call, move, press_button, release_button}

pub record Buttons : Type 0 where
  pub left : Bool
  pub right : Bool
  pub middle : Bool

-- A motion in nine-bit two's complement each way, and the buttons that are down.
pub record Motion : Type 0 where
  pub x_negative : Bool
  pub x_low : ℕ
  pub y_negative : Bool
  pub y_low : ℕ
  pub buttons : Buttons

abbrev pub bit : Bool → ℕ
bit true = 1
bit false = 0

abbrev pub mask_of : Buttons → ℕ
mask_of b = bit b.left + 2 * bit b.right + 4 * bit b.middle

-- The first byte of a packet; bit 3 is always set.
abbrev pub state_of : Motion → ℕ
state_of m = mask_of m.buttons + 8 + 16 * bit m.x_negative + 32 * bit m.y_negative

abbrev pub wire_m : Motion → List ℕ
wire_m m = state_of m ∷ m.x_low ∷ m.y_low ∷ []

abbrev pub amount : Bool → ℕ → ℤ
amount negative low = if negative then pos low -ℤ pos 256 else pos low

abbrev pub change : ℕ → Bool → Bool → List Call
change button false true = press_button button ∷ []
change button true false = release_button button ∷ []
change button _ _ = []

abbrev pub changes : Buttons → Buttons → List Call
changes before after =
    change 0 before.left after.left
    ++ (change 1 before.right after.right ++ change 2 before.middle after.middle)

-- The screen's y axis points down.
abbrev pub motion_calls : Buttons → Motion → List Call
motion_calls before m =
    move (amount m.x_negative m.x_low) (pos 0 -ℤ amount m.y_negative m.y_low)
    ∷ changes before m.buttons

abbrev pub motions_calls : Buttons → List Motion → List Call
motions_calls before [] = []
motions_calls before (m ∷ ms) = motion_calls before m ++ motions_calls m.buttons ms

abbrev pub wires_m : List Motion → List ℕ
wires_m [] = []
wires_m (m ∷ ms) = wire_m m ++ wires_m ms

abbrev pub last_buttons : Buttons → List Motion → Buttons
last_buttons before [] = before
last_buttons before (m ∷ ms) = last_buttons m.buttons ms
