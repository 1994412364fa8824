-- ===== src/Driver/Ps2/Scancodes.antt =====
-- The tables of driver/irq/pic/ps2/ps2.c: which key each code of scancode set 1 stands for.
use helos.Prelude.{◌+◌, ◌≡◌, arith, ℕ, Option, none, some, List, [], ◌∷◌, ◌==◌, if◌then◌else◌}
use helos.Driver.Input.Keys

-- `__pic_ps2_KeyScancode1`; `none` is `input_Key_Unknown`.
unfoldable pub scancode1 : List (Option ℕ)
scancode1 =
    none
    ∷ some Keys.escape
    ∷ some Keys.num1
    ∷ some Keys.num2
    ∷ some Keys.num3
    ∷ some Keys.num4
    ∷ some Keys.num5
    ∷ some Keys.num6
    ∷ some Keys.num7
    ∷ some Keys.num8
    ∷ some Keys.num9
    ∷ some Keys.num0
    ∷ some Keys.hyphen
    ∷ some Keys.equal
    ∷ some Keys.backspace
    ∷ some Keys.tab
    ∷ some Keys.q
    ∷ some Keys.w
    ∷ some Keys.e
    ∷ some Keys.r
    ∷ some Keys.t
    ∷ some Keys.y
    ∷ some Keys.u
    ∷ some Keys.i
    ∷ some Keys.o
    ∷ some Keys.p
    ∷ some Keys.l_bracket
    ∷ some Keys.r_bracket
    ∷ some Keys.enter
    ∷ some Keys.l_control
    ∷ some Keys.a
    ∷ some Keys.s
    ∷ some Keys.d
    ∷ some Keys.f
    ∷ some Keys.g
    ∷ some Keys.h
    ∷ some Keys.j
    ∷ some Keys.k
    ∷ some Keys.l
    ∷ some Keys.semicolon
    ∷ some Keys.quote
    ∷ some Keys.tilde
    ∷ some Keys.l_shift
    ∷ some Keys.backslash
    ∷ some Keys.z
    ∷ some Keys.x
    ∷ some Keys.c
    ∷ some Keys.v
    ∷ some Keys.b
    ∷ some Keys.n
    ∷ some Keys.m
    ∷ some Keys.comma
    ∷ some Keys.period
    ∷ some Keys.slash
    ∷ some Keys.r_shift
    ∷ some Keys.multiply
    ∷ some Keys.l_alt
    ∷ some Keys.space
    ∷ some Keys.caps_lock
    ∷ some Keys.f1
    ∷ some Keys.f2
    ∷ some Keys.f3
    ∷ some Keys.f4
    ∷ some Keys.f5
    ∷ some Keys.f6
    ∷ some Keys.f7
    ∷ some Keys.f8
    ∷ some Keys.f9
    ∷ some Keys.f10
    ∷ some Keys.num_lock
    ∷ some Keys.scroll_lock
    ∷ some Keys.numpad7
    ∷ some Keys.numpad8
    ∷ some Keys.numpad9
    ∷ some Keys.subtract
    ∷ some Keys.numpad4
    ∷ some Keys.numpad5
    ∷ some Keys.numpad6
    ∷ some Keys.add
    ∷ some Keys.numpad1
    ∷ some Keys.numpad2
    ∷ some Keys.numpad3
    ∷ some Keys.numpad0
    ∷ some Keys.period
    ∷ none
    ∷ none
    ∷ none
    ∷ some Keys.f11
    ∷ some Keys.f12
    ∷ []

-- The keys sent as 0xe0 and a code, by the code of the press.
unfoldable pub extended_key : ℕ → Option ℕ
extended_key code =
    if code == 28
    then some Keys.enter
    else if code == 29
    then some Keys.r_control
    else if code == 53
    then some Keys.divide
    else if code == 56
    then some Keys.r_alt
    else if code == 71
    then some Keys.home
    else if code == 72
    then some Keys.up
    else if code == 73
    then some Keys.page_up
    else if code == 75
    then some Keys.left
    else if code == 77
    then some Keys.right
    else if code == 79
    then some Keys.end
    else if code == 80
    then some Keys.down
    else if code == 81
    then some Keys.page_down
    else if code == 82
    then some Keys.insert
    else if code == 83
    then some Keys.delete
    else none

-- Codes of releases are not codes of presses.
pub extended_key-release : (code : ℕ) → extended_key (code + 128) ≡ none
unfolding extended_key
extended_key-release code = ground arith
