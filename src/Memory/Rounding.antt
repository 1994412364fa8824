-- ===== src/Memory/Rounding.antt =====
-- The arithmetic of memory/paging_internal.h, and `memory_AllocateKernelMapping` of memory/memory.h.
-- A page count is an `int`; sizes here are far below the 2 ^ 31 pages that it holds.
pub mod Laws
mod Tests
use Prim.Native.Nat.{bit_and}
use helos.Prelude.{
  ℕ, zero, suc, ◌+◌, ◌-◌, ◌/◌, ◌%◌, ◌^◌, ◌<◌, refl, ap, inl, inr, true, false, Option, none, some,
  map, arith, ltb, ◌==◌, if◌then◌else◌, take, sub64, mul64, complement,
}

-- `roundUpToPageCount`, `roundUpToPageCount2M` and `roundUpToPageCount1G`, by the size of their
-- page.
pub round_up_to_page_count : ℕ → ℕ → ℕ
round_up_to_page_count page size = if size % page == 0 then size / page else size / page + 1

-- The loop `while (s < v) s <<= 1;`, at most so many times; `none` if it still goes on.
pub shift_up : ℕ → ℕ → ℕ → Option ℕ
shift_up zero s v = if ltb s v then none else some s
shift_up (suc n) s v = if ltb s v then shift_up n (mul64 s 2) v else some s

-- After 64 shifts `s` is 0 for good.
pub round_up_to_2_exponent : ℕ → Option ℕ
round_up_to_2_exponent v = shift_up 64 1 v

unfoldable pub take_bitfield : ℕ → ℕ → ℕ → ℕ
take_bitfield v high low = bit_and (v / 2 ^ low) (2 ^ (high - low + 1) - 1)

-- The new bottom of the kernel's mappings, which is the address returned.
pub allocate_kernel_mapping : ℕ → ℕ → ℕ → ℕ
allocate_kernel_mapping size align bottom = bit_and (sub64 bottom size) (complement 64 (align - 1))
