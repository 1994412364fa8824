-- ===== src/Driver/Input/Keys/Tests.antt =====
-- Names of keys of driver/input/input.c.
use helos.Prelude.{◌≡◌, refl}
use helos.Driver.Input.Keys.{key_names, get_name, q, scroll_lock}

named :
    (get_name q ≡ "input_Key_Q")
    × (get_name scroll_lock ≡ "input_Key_ScrollLock")
    × (get_name 104 ≡ "(Unknown)")
unfolding get_name key_names
named = (refl, refl, refl)
