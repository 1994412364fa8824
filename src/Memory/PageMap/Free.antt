-- ===== src/Memory/PageMap/Free.antt =====
-- `paging_map_FreeAllocated` of memory/paging_map.c: pages are unmapped and their frames given back.
use Prim.Native.Nat.{bit_and}
use helos.Prelude.{
  ℕ, zero, suc, ◌+◌, ◌-◌, ◌*◌, ◌/◌, ◌%◌, not, Option, none, some, ◌==◌, if◌then◌else◌, ltb, add64,
}
use helos.Memory.Physical.{page_size, page_2m_size}
use helos.Memory.PageMap.{
  Paging, has, index1, index2, index3, index4, page_1g_size, pml_addr_mask, pml_addr_mask_1g,
  pml_addr_mask_2m, pml_present, pml_page_size, release, write,
}

-- `paging_physical_FreeFrame(...); table[i] = 0;`
pub unmap : ℕ → ℕ → ℕ → ℕ → Paging → Paging
unmap table i frame page_count s = write table i 0 (release frame page_count s)

-- One round of the loop: the address to go on from.
pub free_round : ℕ → Paging → ℕ × Paging
free_round virtual s =
    let next = add64 virtual page_size in
    let i4 = index4 virtual in
    let e4 = s.tables s.pml4 i4 in
    let t3 = bit_and e4 pml_addr_mask in
    let i3 = index3 virtual in
    let e3 = s.tables t3 i3 in
    let t2 = bit_and e3 pml_addr_mask in
    let i2 = index2 virtual in
    let e2 = s.tables t2 i2 in
    let t1 = bit_and e2 pml_addr_mask in
    let i1 = index1 virtual in
    let e1 = s.tables t1 i1 in
    if not (has e4 pml_present)
    then (next, s)
    else if not (has e3 pml_present)
    then (next, s)
    else if has e3 pml_page_size
    then (add64 virtual page_1g_size, unmap t3 i3 (bit_and e3 pml_addr_mask_1g) (512 * 512) s)
    else if not (has e2 pml_present)
    then (next, s)
    else if has e2 pml_page_size
    then (add64 virtual page_2m_size, unmap t2 i2 (bit_and e2 pml_addr_mask_2m) 512 s)
    else if has e1 pml_present
    then (next, unmap t1 i1 (bit_and e1 pml_addr_mask) 1 s)
    else (next, s)

-- The loop, with a bound on its rounds; `none` if it still goes on.
pub free_loop : ℕ → ℕ → ℕ → Paging → Option Paging
free_loop zero virtual end s = if ltb virtual end then none else some s
free_loop (suc rounds) virtual end s =
    let (virtual', s') = free_round virtual s in
    let rest = free_loop rounds virtual' end s' in if ltb virtual end then rest else some s

-- Each round moves on by a page at least.
pub free_allocated : ℕ → ℕ → Paging → Option Paging
free_allocated virtual end s =
    if virtual % page_size == 0
    then free_loop ((end - virtual + (page_size - 1)) / page_size) virtual end s
    else none
