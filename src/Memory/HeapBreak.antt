-- ===== src/Memory/HeapBreak.antt =====
-- memory/heap_break.c: the kernel's heap, a growing range of pages. Messages are left out.
pub mod Growth
mod Tests
use helos.Prelude.{
  ℕ, ◌-◌, ◌/◌, refl, ap, inl, inr, true, false, not, Option, none, some, map, ltb, if◌then◌else◌,
  word, add64, sub64, mul64,
}
use helos.Memory.Physical.{page_size}
use helos.Memory.Rounding.{round_up_to_page_count}
use helos.Memory.PageMap.{Paging}
use helos.Memory.PageMap.Allocated.{map_page_allocated}

-- KERNEL_HEAP_VIRTUAL
abbrev pub kernel_heap : ℕ
kernel_heap = 0xffffffff00000000

-- MAP_PROT_READ | MAP_PROT_WRITE
abbrev pub read_write : ℕ
read_write = 6

-- The variables of the file, and the tables.
pub record Heap : Type 0 where
  pub heap_break : ℕ
  pub page_break : ℕ
  pub paging : Paging

-- `memory_AddBreak`, with the bits of its argument: the value returned. After `none` it does not
-- return.
pub add_break : ℕ → Heap → Option (ℕ × Heap)
add_break inc h =
    let heap_break = add64 h.heap_break inc in
    let page_count = round_up_to_page_count page_size (sub64 heap_break h.page_break) in
    if ltb heap_break kernel_heap
    then some (word - 1, h)
    else if ltb h.page_break heap_break
    then elim (map_page_allocated h.page_break page_count read_write h.paging) [
      | none ↦ none
      | some paging ↦ some (
        sub64 heap_break inc,
        record {
          heap_break = heap_break;
          page_break = add64 h.page_break (mul64 page_size page_count);
          paging = paging;
        },
      )
    ]
    else some (sub64 heap_break inc, record h { heap_break = heap_break })
