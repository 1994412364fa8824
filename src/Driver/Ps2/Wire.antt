-- ===== src/Driver/Ps2/Wire.antt =====
-- What a keyboard in scancode set 1 sends, for driver/irq/pic/ps2/ps2.c.
use helos.Prelude.{ℕ, ◌+◌, ◌≤◌, ◌<◌, ◌≡◌, refl, none, some, List, [], ◌∷◌, ◌++◌, get_or}
use helos.Driver.Input.Calls.{Call, press, release}
use helos.Driver.Ps2.Scancodes.{scancode1, extended_key}

-- What a keyboard does: a key of its first plane or of its second goes down or up, it acknowledges
-- a command, or it sends one half of the code of Pause.
pub data Stroke : Type 0 where
  down : ℕ → ℕ → Stroke
  up : ℕ → ℕ → Stroke
  extended_down : ℕ → ℕ → Stroke
  extended_up : ℕ → ℕ → Stroke
  ack : Stroke
  pause_half : ℕ → ℕ → Stroke

-- The code stands for the key in scancode set 1.
abbrev pub IsSet1 : Stroke → Type 0
IsSet1 (down code key) = (1 ≤ code) × (code ≤ 88) × (get_or scancode1 code none ≡ some key)
IsSet1 (up code key) = (1 ≤ code) × (code ≤ 88) × (get_or scancode1 code none ≡ some key)
IsSet1 (extended_down code key) = (code < 128) × (extended_key code ≡ some key)
IsSet1 (extended_up code key) = (code < 128) × (extended_key code ≡ some key)
IsSet1 _ = Unit {0}

abbrev pub AllSet1 : List Stroke → Type 0
AllSet1 [] = Unit {0}
AllSet1 (k ∷ ks) = IsSet1 k × AllSet1 ks

-- The bytes on the wire.
abbrev pub wire : Stroke → List ℕ
wire (down code key) = code ∷ []
wire (up code key) = (code + 128) ∷ []
wire (extended_down code key) = 224 ∷ code ∷ []
wire (extended_up code key) = 224 ∷ (code + 128) ∷ []
wire ack = 250 ∷ []
wire (pause_half x y) = 225 ∷ x ∷ y ∷ []

abbrev pub wires : List Stroke → List ℕ
wires [] = []
wires (k ∷ ks) = wire k ++ wires ks

-- What the driver has to report.
abbrev pub calls_of : List Stroke → List Call
calls_of [] = []
calls_of (down code key ∷ ks) = press key ∷ calls_of ks
calls_of (up code key ∷ ks) = release key ∷ calls_of ks
calls_of (extended_down code key ∷ ks) = press key ∷ calls_of ks
calls_of (extended_up code key ∷ ks) = release key ∷ calls_of ks
calls_of (_ ∷ ks) = calls_of ks

pub calls_of-cons :
    (k : Stroke) (ks : List Stroke) → calls_of (k ∷ ks) ≡ calls_of (k ∷ []) ++ calls_of ks
calls_of-cons (down code key) ks = refl
calls_of-cons (up code key) ks = refl
calls_of-cons (extended_down code key) ks = refl
calls_of-cons (extended_up code key) ks = refl
calls_of-cons ack ks = refl
calls_of-cons (pause_half x y) ks = refl
