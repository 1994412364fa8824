-- ===== src/Memory/Rounding/Tests.antt =====
-- The theorems on the arithmetic of memory/ at concrete sizes.
use helos.Prelude.{ℕ, ◌+◌, ◌*◌, ◌^◌, ◌≤◌, ◌<◌, ◌≡◌, ◌⊎◌, some, arith}
use helos.Memory.Rounding.{round_up_to_2_exponent, allocate_kernel_mapping}
use helos.Memory.Rounding.Laws.{allocate_kernel_mapping-lem, round_up_to_2_exponent-least}

allocate_kernel_mapping-lem_example :
    let address = allocate_kernel_mapping 5000 (2 ^ 12) 100000 in
    ((q : ℕ) × (address ≡ q * 2 ^ 12))
    × (address + 5000 ≤ 100000)
    × (100000 < address + 5000 + 2 ^ 12)
allocate_kernel_mapping-lem_example =
    allocate_kernel_mapping-lem 12 5000 100000 (omega arith) (omega arith) (omega arith)

round_up_to_2_exponent-least_example :
    (j : ℕ) × (round_up_to_2_exponent 5000 ≡ some (2 ^ j))
    × (5000 ≤ 2 ^ j)
    × ((j ≡ 0) ⊎ (2 ^ j < 2 * 5000))
round_up_to_2_exponent-least_example = round_up_to_2_exponent-least 5000 (omega arith)
