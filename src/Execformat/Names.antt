-- ===== src/Execformat/Names.antt =====
-- When execformat/pe/reloc.c takes two names for the same.
use helos.Prelude.{ℕ, zero, suc, ◌≡◌, refl, ◌↔◌, List, [], ◌∷◌, arith, ◌==◌, if◌then◌else◌, take}
use helos.Prelude.Int.{pos, ◌-ℤ◌}
use helos.Execformat.{local_strncmp}

-- The bytes before the first NUL.
abbrev pub c_string : List ℕ → List ℕ
c_string [] = []
c_string (b ∷ bs) = if b == 0 then [] else b ∷ c_string bs

-- `__local_strncmp` is 0 exactly if the strings agree in their first `n` bytes, up to the first NUL.
pub local_strncmp-c_string :
    (n : ℕ) (s1 s2 : List ℕ)
    → (local_strncmp n s1 s2 ≡ pos 0) ↔ (take n (c_string s1) ≡ take n (c_string s2))
unfolding local_strncmp ◌-ℤ◌
local_strncmp-c_string zero s1 s2 = (λ h. refl, λ h. refl)
local_strncmp-c_string (suc n) [] [] = (λ h. refl, λ h. ground arith)
local_strncmp-c_string (suc n) [] (y ∷ ys) = (λ h. ground arith, λ h. ground arith)
local_strncmp-c_string (suc n) (x ∷ xs) [] = (λ h. ground arith, λ h. ground arith)
local_strncmp-c_string (suc n) (x ∷ xs) (y ∷ ys) =
    let rest = local_strncmp-c_string n xs ys in
    (λ h. ground (arith, rest), λ h. ground (arith, rest))
