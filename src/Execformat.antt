-- ===== src/Execformat.antt =====
-- The names that execformat/pe/reloc.c compares and prints. A string is a list of bytes, and the
-- bytes after the list are NUL.
pub mod Names
mod Tests
use Prim.Native.String.{String}
use helos.Prelude.{
  ℕ, zero, suc, ◌-◌, ◌*◌, ◌/◌, refl, inl, inr, true, false, not, ◌&&◌, none, some, List, ◌==◌,
  if◌then◌else◌, get_or, drop,
}
use helos.Prelude.Int.{ℤ, pos, ◌-ℤ◌}

-- `__local_strncmp`, whose loop counts `n` down.
pub local_strncmp : ℕ → List ℕ → List ℕ → ℤ
local_strncmp zero s1 s2 = pos 0
local_strncmp (suc n) s1 s2 =
    let c1 = get_or s1 0 0 in
    let c2 = get_or s2 0 0 in
    if not (c1 == 0) && (c1 == c2)
    then local_strncmp n (drop 1 s1) (drop 1 s2)
    else pos c1 -ℤ pos c2

-- `caseFlags`, by the values of EXECFORMAT_PE_BASERELOC_*.
pub case_flags : ℕ → String
case_flags type =
    if type == 0x0000
    then "ABSOLUTE"
    else if type == 0x1000
    then "HIGH"
    else if type == 0x2000
    then "LOW"
    else if type == 0x3000
    then "HIGHLOW"
    else if type == 0x4000
    then "HIGHADJ"
    else if type == 0xa000
    then "DIR64"
    else "(Unknown)"
