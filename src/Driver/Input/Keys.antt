-- ===== src/Driver/Input/Keys.antt =====
-- `input_Key` of driver/input/consts.h, as its codes; a key that is not handled is -1 there and
-- stands apart here. `input_Key_GetName` of driver/input/input.c.
mod Tests
use helos.Prelude.{ℕ, List, [], ◌∷◌, get_or}
use Prim.Native.String.{String}

abbrev pub key_count : ℕ
key_count = 104

abbrev pub a : ℕ
a = 0

abbrev pub b : ℕ
b = 1

abbrev pub c : ℕ
c = 2

abbrev pub d : ℕ
d = 3

abbrev pub e : ℕ
e = 4

abbrev pub f : ℕ
f = 5

abbrev pub g : ℕ
g = 6

abbrev pub h : ℕ
h = 7

abbrev pub i : ℕ
i = 8

abbrev pub j : ℕ
j = 9

abbrev pub k : ℕ
k = 10

abbrev pub l : ℕ
l = 11

abbrev pub m : ℕ
m = 12

abbrev pub n : ℕ
n = 13

abbrev pub o : ℕ
o = 14

abbrev pub p : ℕ
p = 15

abbrev pub q : ℕ
q = 16

abbrev pub r : ℕ
r = 17

abbrev pub s : ℕ
s = 18

abbrev pub t : ℕ
t = 19

abbrev pub u : ℕ
u = 20

abbrev pub v : ℕ
v = 21

abbrev pub w : ℕ
w = 22

abbrev pub x : ℕ
x = 23

abbrev pub y : ℕ
y = 24

abbrev pub z : ℕ
z = 25

abbrev pub num0 : ℕ
num0 = 26

abbrev pub num1 : ℕ
num1 = 27

abbrev pub num2 : ℕ
num2 = 28

abbrev pub num3 : ℕ
num3 = 29

abbrev pub num4 : ℕ
num4 = 30

abbrev pub num5 : ℕ
num5 = 31

abbrev pub num6 : ℕ
num6 = 32

abbrev pub num7 : ℕ
num7 = 33

abbrev pub num8 : ℕ
num8 = 34

abbrev pub num9 : ℕ
num9 = 35

abbrev pub escape : ℕ
escape = 36

abbrev pub l_control : ℕ
l_control = 37

abbrev pub l_shift : ℕ
l_shift = 38

abbrev pub l_alt : ℕ
l_alt = 39

abbrev pub l_super : ℕ
l_super = 40

abbrev pub r_control : ℕ
r_control = 41

abbrev pub r_shift : ℕ
r_shift = 42

abbrev pub r_alt : ℕ
r_alt = 43

abbrev pub r_super : ℕ
r_super = 44

abbrev pub menu : ℕ
menu = 45

abbrev pub l_bracket : ℕ
l_bracket = 46

abbrev pub r_bracket : ℕ
r_bracket = 47

abbrev pub semicolon : ℕ
semicolon = 48

abbrev pub comma : ℕ
comma = 49

abbrev pub period : ℕ
period = 50

abbrev pub quote : ℕ
quote = 51

abbrev pub slash : ℕ
slash = 52

abbrev pub backslash : ℕ
backslash = 53

abbrev pub tilde : ℕ
tilde = 54

abbrev pub equal : ℕ
equal = 55

abbrev pub hyphen : ℕ
hyphen = 56

abbrev pub space : ℕ
space = 57

abbrev pub enter : ℕ
enter = 58

abbrev pub backspace : ℕ
backspace = 59

abbrev pub tab : ℕ
tab = 60

abbrev pub page_up : ℕ
page_up = 61

abbrev pub page_down : ℕ
page_down = 62

abbrev pub end : ℕ
end = 63

abbrev pub home : ℕ
home = 64

abbrev pub insert : ℕ
insert = 65

abbrev pub delete : ℕ
delete = 66

abbrev pub add : ℕ
add = 67

abbrev pub subtract : ℕ
subtract = 68

abbrev pub multiply : ℕ
multiply = 69

abbrev pub divide : ℕ
divide = 70

abbrev pub left : ℕ
left = 71

abbrev pub right : ℕ
right = 72

abbrev pub up : ℕ
up = 73

abbrev pub down : ℕ
down = 74

abbrev pub numpad0 : ℕ
numpad0 = 75

abbrev pub numpad1 : ℕ
numpad1 = 76

abbrev pub numpad2 : ℕ
numpad2 = 77

abbrev pub numpad3 : ℕ
numpad3 = 78

abbrev pub numpad4 : ℕ
numpad4 = 79

abbrev pub numpad5 : ℕ
numpad5 = 80

abbrev pub numpad6 : ℕ
numpad6 = 81

abbrev pub numpad7 : ℕ
numpad7 = 82

abbrev pub numpad8 : ℕ
numpad8 = 83

abbrev pub numpad9 : ℕ
numpad9 = 84

abbrev pub f1 : ℕ
f1 = 85

abbrev pub f2 : ℕ
f2 = 86

abbrev pub f3 : ℕ
f3 = 87

abbrev pub f4 : ℕ
f4 = 88

abbrev pub f5 : ℕ
f5 = 89

abbrev pub f6 : ℕ
f6 = 90

abbrev pub f7 : ℕ
f7 = 91

abbrev pub f8 : ℕ
f8 = 92

abbrev pub f9 : ℕ
f9 = 93

abbrev pub f10 : ℕ
f10 = 94

abbrev pub f11 : ℕ
f11 = 95

abbrev pub f12 : ℕ
f12 = 96

abbrev pub f13 : ℕ
f13 = 97

abbrev pub f14 : ℕ
f14 = 98

abbrev pub f15 : ℕ
f15 = 99

abbrev pub pause : ℕ
pause = 100

abbrev pub caps_lock : ℕ
caps_lock = 101

abbrev pub num_lock : ℕ
num_lock = 102

abbrev pub scroll_lock : ℕ
scroll_lock = 103

-- The names of the switch, in the order of the codes.
key_names : List String
key_names =
    "input_Key_A" ∷ "input_Key_B" ∷ "input_Key_C" ∷ "input_Key_D" ∷ "input_Key_E" ∷ "input_Key_F"
    ∷ "input_Key_G" ∷ "input_Key_H" ∷ "input_Key_I" ∷ "input_Key_J" ∷ "input_Key_K" ∷ "input_Key_L"
    ∷ "input_Key_M" ∷ "input_Key_N" ∷ "input_Key_O" ∷ "input_Key_P" ∷ "input_Key_Q" ∷ "input_Key_R"
    ∷ "input_Key_S" ∷ "input_Key_T" ∷ "input_Key_U" ∷ "input_Key_V" ∷ "input_Key_W" ∷ "input_Key_X"
    ∷ "input_Key_Y" ∷ "input_Key_Z" ∷ "input_Key_Num0" ∷ "input_Key_Num1" ∷ "input_Key_Num2"
    ∷ "input_Key_Num3" ∷ "input_Key_Num4" ∷ "input_Key_Num5" ∷ "input_Key_Num6" ∷ "input_Key_Num7"
    ∷ "input_Key_Num8" ∷ "input_Key_Num9" ∷ "input_Key_Escape" ∷ "input_Key_LControl"
    ∷ "input_Key_LShift" ∷ "input_Key_LAlt" ∷ "input_Key_LSuper" ∷ "input_Key_RControl"
    ∷ "input_Key_RShift" ∷ "input_Key_RAlt" ∷ "input_Key_RSuper" ∷ "input_Key_Menu"
    ∷ "input_Key_LBracket" ∷ "input_Key_RBracket" ∷ "input_Key_Semicolon" ∷ "input_Key_Comma"
    ∷ "input_Key_Period" ∷ "input_Key_Quote" ∷ "input_Key_Slash" ∷ "input_Key_Backslash"
    ∷ "input_Key_Tilde" ∷ "input_Key_Equal" ∷ "input_Key_Hyphen" ∷ "input_Key_Space"
    ∷ "input_Key_Enter" ∷ "input_Key_Backspace" ∷ "input_Key_Tab" ∷ "input_Key_PageUp"
    ∷ "input_Key_PageDown" ∷ "input_Key_End" ∷ "input_Key_Home" ∷ "input_Key_Insert"
    ∷ "input_Key_Delete" ∷ "input_Key_Add" ∷ "input_Key_Subtract" ∷ "input_Key_Multiply"
    ∷ "input_Key_Divide" ∷ "input_Key_Left" ∷ "input_Key_Right" ∷ "input_Key_Up" ∷ "input_Key_Down"
    ∷ "input_Key_Numpad0" ∷ "input_Key_Numpad1" ∷ "input_Key_Numpad2" ∷ "input_Key_Numpad3"
    ∷ "input_Key_Numpad4" ∷ "input_Key_Numpad5" ∷ "input_Key_Numpad6" ∷ "input_Key_Numpad7"
    ∷ "input_Key_Numpad8" ∷ "input_Key_Numpad9" ∷ "input_Key_F1" ∷ "input_Key_F2" ∷ "input_Key_F3"
    ∷ "input_Key_F4" ∷ "input_Key_F5" ∷ "input_Key_F6" ∷ "input_Key_F7" ∷ "input_Key_F8"
    ∷ "input_Key_F9" ∷ "input_Key_F10" ∷ "input_Key_F11" ∷ "input_Key_F12" ∷ "input_Key_F13"
    ∷ "input_Key_F14" ∷ "input_Key_F15" ∷ "input_Key_Pause" ∷ "input_Key_CapsLock"
    ∷ "input_Key_NumLock" ∷ "input_Key_ScrollLock" ∷ []

-- Any other value has no name of its own.
pub get_name : ℕ → String
unfolding key_names
get_name key = get_or key_names key "(Unknown)"
