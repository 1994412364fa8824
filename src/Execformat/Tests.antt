-- ===== src/Execformat/Tests.antt =====
-- Names of sections, and the theorem on them, of execformat/pe/reloc.c.
use helos.Prelude.{ℕ, ◌≡◌, refl, ◌↔◌, List, [], ◌∷◌, take}
use helos.Prelude.Int.{pos}
use helos.Execformat.{local_strncmp, case_flags}
use helos.Execformat.Names.{c_string, local_strncmp-c_string}

-- ".reloc" and ".rsrc", with the NULs of a section's name.
abbrev reloc : List ℕ
reloc = 46 ∷ 114 ∷ 101 ∷ 108 ∷ 111 ∷ 99 ∷ 0 ∷ 0 ∷ []

abbrev rsrc : List ℕ
rsrc = 46 ∷ 114 ∷ 115 ∷ 114 ∷ 99 ∷ 0 ∷ 0 ∷ 0 ∷ []

local_strncmp-c_string_example :
    (local_strncmp 6 reloc rsrc ≡ pos 0) ↔ (take 6 (c_string reloc) ≡ take 6 (c_string rsrc))
local_strncmp-c_string_example = local_strncmp-c_string 6 reloc rsrc

named : (case_flags 0xa000 ≡ "DIR64") × (case_flags 5 ≡ "(Unknown)")
unfolding case_flags
named = (refl, refl)
