-- ===== src/Memory/PageMap.antt =====
-- memory/paging_map.c: the four levels of tables that map virtual addresses. Physical memory is
-- mapped where it is, so a table is found by its physical address; it holds 512 words, and is a
-- frame of memory/paging_physical.c.
pub mod Entry
pub mod Walk
pub mod Rights
pub mod Take
pub mod Grow
pub mod Put
pub mod MapOne
pub mod Translation
pub mod Allocated
pub mod Free
pub mod Sample
mod Tests
use Prim.Native.Nat.{bit_and, bit_or}
use helos.Prelude.{
  ℕ, zero, suc, ◌+◌, ◌%◌, ◌^◌, Bool, not, ◌&&◌, Option, none, some, List, [], ◌∷◌, ltb, leb, ◌==◌,
  if◌then◌else◌, add64,
}
use helos.Memory.Physical.{
  Frames, page_size, page_2m_size, allocate_frames, allocate_frames_2m, free_frame,
}
use helos.Memory.Rounding.{take_bitfield}

abbrev pub page_1g_size : ℕ
page_1g_size = 1073741824

abbrev pub pml_present : ℕ
pml_present = 2 ^ 0

abbrev pub pml_writeable : ℕ
pml_writeable = 2 ^ 1

abbrev pub pml_page_size : ℕ
pml_page_size = 2 ^ 7

abbrev pub pml_execute_disable : ℕ
pml_execute_disable = 2 ^ 63

abbrev pub pml_addr_mask : ℕ
pml_addr_mask = 0xffffffffff000

abbrev pub pml_addr_mask_2m : ℕ
pml_addr_mask_2m = 0xfffffffe00000

abbrev pub pml_addr_mask_1g : ℕ
pml_addr_mask_1g = 0xfffffc0000000

-- The words of the tables by address and index, the allocator, `paging_PML4Table`,
-- `paging_SupportExecuteDisable`, and the addresses given to `invlpg`, the latest first.
pub record Paging : Type 0 where
  pub tables : ℕ → ℕ → ℕ
  pub frames : Frames
  pub pml4 : ℕ
  pub execute_disable : Bool
  pub flushed : List ℕ

unfoldable pub has : ℕ → ℕ → Bool
has entry flag = not (bit_and entry flag == 0)

-- The indices of an address in the four levels of tables.
pub index4 : ℕ → ℕ
index4 virtual = take_bitfield virtual 47 39

pub index3 : ℕ → ℕ
index3 virtual = take_bitfield virtual 38 30

pub index2 : ℕ → ℕ
index2 virtual = take_bitfield virtual 29 21

pub index1 : ℕ → ℕ
index1 virtual = take_bitfield virtual 20 12

-- `table[i] = v`
pub write : ℕ → ℕ → ℕ → Paging → Paging
write table i v s = record s { tables = λ t j. if t == table && j == i then v else s.tables t j }

-- The `memset` of each frame that the allocator gives out.
pub clear : ℕ → List ℕ → (ℕ → ℕ → ℕ) → ℕ → ℕ → ℕ
clear size [] tables = tables
clear size (a ∷ as') tables =
    clear size as' (λ t i. if leb a t && ltb t (a + size) then 0 else tables t i)

-- The allocator, on the memory that holds the tables too.
pub take_frames : ℕ → Paging → List ℕ × Paging
take_frames n s =
    let (frames, s') = allocate_frames n s.frames in
    (frames, record s { frames = s'; tables = clear page_size frames s.tables })

pub take_frames_2m : ℕ → Paging → List ℕ × Paging
take_frames_2m n s =
    let (frames, s') = allocate_frames_2m n s.frames in
    (frames, record s { frames = s'; tables = clear page_2m_size frames s.tables })

-- `paging_physical_AllocateOneFrame`, which is 0 if there is no frame.
pub take_one_frame : Paging → ℕ × Paging
take_one_frame s = let (frames, s') = take_frames 1 s in (elim frames [ [] ↦ 0 | a ∷ _ ↦ a ], s')

pub release : ℕ → ℕ → Paging → Paging
release frame page_count s = record s { frames = free_frame frame page_count s.frames }

-- `if ((table[i] & PML_PRESENT) == 0) table[i] = ...;`
pub provide : ℕ → ℕ → Paging → Paging
provide table i s =
    if has (s.tables table i) pml_present
    then s
    else (let (a, s') = take_one_frame s in
        write table i (bit_or (bit_or a pml_present) pml_writeable) s')

-- And the table that the entry then stands for.
pub enter : ℕ → ℕ → Paging → ℕ × Paging
enter table i s = let s' = provide table i s in (bit_and (s'.tables table i) pml_addr_mask, s')

-- The words for a page of 4 KiB, and for a larger one.
pub page_entry : Bool → ℕ → ℕ → ℕ
page_entry execute_disable physical flags =
    bit_or (bit_or (bit_or physical pml_present) (if has flags 2 then pml_writeable else 0))
      (if execute_disable && not (has flags 1) then pml_execute_disable else 0)

pub large_entry : Bool → ℕ → ℕ → ℕ
large_entry execute_disable physical flags =
    bit_or
      (bit_or (bit_or (bit_or physical pml_present) pml_page_size)
        (if has flags 2 then pml_writeable else 0))
      (if execute_disable && not (has flags 1) then pml_execute_disable else 0)

pub flush_tlb_single : ℕ → Paging → Paging
flush_tlb_single virtual s = record s { flushed = virtual ∷ s.flushed }

-- One round of each of the three loops.
pub map_one : ℕ → ℕ → ℕ → Paging → Paging
map_one physical virtual flags s =
    let (t3, s3) = enter s.pml4 (index4 virtual) s in
    let (t2, s2) = enter t3 (index3 virtual) s3 in
    let (t1, s1) = enter t2 (index2 virtual) s2 in
    flush_tlb_single virtual
      (write t1 (index1 virtual) (page_entry s1.execute_disable physical flags) s1)

-- The table that the entry stands for, if it is one, is given back.
pub drop_table : ℕ → ℕ → Paging → Paging
drop_table table i s =
    let e = s.tables table i in
    if has e pml_present && not (has e pml_page_size)
    then release (bit_and e pml_addr_mask) 1 s
    else s

pub map_one_2m : ℕ → ℕ → ℕ → Paging → Paging
map_one_2m physical virtual flags s =
    let (t3, s3) = enter s.pml4 (index4 virtual) s in
    let (t2, s2) = enter t3 (index3 virtual) s3 in
    let s1 = drop_table t2 (index2 virtual) s2 in
    flush_tlb_single virtual
      (write t2 (index2 virtual) (large_entry s1.execute_disable physical flags) s1)

pub map_one_1g : ℕ → ℕ → ℕ → Paging → Paging
map_one_1g physical virtual flags s =
    let (t3, s3) = enter s.pml4 (index4 virtual) s in
    let s2 = drop_table t3 (index3 virtual) s3 in
    flush_tlb_single virtual
      (write t3 (index3 virtual) (large_entry s2.execute_disable physical flags) s2)

-- The loops, by the number of pages left.
pub map_pages : ℕ → ℕ → ℕ → ℕ → Paging → Paging
map_pages zero physical virtual flags s = s
map_pages (suc n) physical virtual flags s =
    map_pages n (add64 physical page_size) (add64 virtual page_size) flags
      (map_one physical virtual flags s)

pub map_pages_2m : ℕ → ℕ → ℕ → ℕ → Paging → Paging
map_pages_2m zero physical virtual flags s = s
map_pages_2m (suc n) physical virtual flags s =
    map_pages_2m n (add64 physical page_2m_size) (add64 virtual page_2m_size) flags
      (map_one_2m physical virtual flags s)

pub map_pages_1g : ℕ → ℕ → ℕ → ℕ → Paging → Paging
map_pages_1g zero physical virtual flags s = s
map_pages_1g (suc n) physical virtual flags s =
    map_pages_1g n (add64 physical page_1g_size) (add64 virtual page_1g_size) flags
      (map_one_1g physical virtual flags s)

-- `none` is a failed assertion. A page count is not negative.
pub map_page : ℕ → ℕ → ℕ → ℕ → Paging → Option Paging
map_page physical virtual page_count flags s =
    if physical % page_size == 0 && virtual % page_size == 0
    then some (map_pages page_count physical virtual flags s)
    else none

pub map_page_2m : ℕ → ℕ → ℕ → ℕ → Paging → Option Paging
map_page_2m physical virtual page_count flags s =
    if physical % page_2m_size == 0 && virtual % page_2m_size == 0
    then some (map_pages_2m page_count physical virtual flags s)
    else none

pub map_page_1g : ℕ → ℕ → ℕ → ℕ → Paging → Option Paging
map_page_1g physical virtual page_count flags s =
    if physical % page_1g_size == 0 && virtual % page_1g_size == 0
    then some (map_pages_1g page_count physical virtual flags s)
    else none
