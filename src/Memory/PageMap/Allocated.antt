-- ===== src/Memory/PageMap/Allocated.antt =====
-- `paging_map_PageAllocated` and `paging_map_PageAllocated2M` of memory/paging_map.c: pages on
-- frames that the allocator gives out, as many at a time as fit `Buffer`. Messages are left out.
pub mod Backed
pub mod Pages
pub mod Loop
pub mod Whole
pub mod Pledge
use helos.Prelude.{
  ℕ, zero, suc, ◌+◌, ◌-◌, ◌*◌, ◌%◌, Option, none, some, List, [], ◌∷◌, ◌==◌, if◌then◌else◌, min,
  length, add64, mul64,
}
use helos.Memory.Physical.{page_size, page_2m_size}
use helos.Memory.PageMap.{Paging, take_frames, take_frames_2m, map_page, map_page_2m}

-- HELOS_BUFFER_SIZE / sizeof(uint64_t *)
abbrev pub buf_size : ℕ
buf_size = 2048

-- The `for` loop over the frames in the buffer; the virtual address is that after the last.
pub map_frames : List ℕ → ℕ → ℕ → Paging → Option (ℕ × Paging)
map_frames [] virtual flags s = some (virtual, s)
map_frames (a ∷ as') virtual flags s = elim (map_page a virtual 1 flags s) [
  | none ↦ none
  | some s' ↦ map_frames as' (add64 virtual page_size) flags s'
]

-- The `while` loop, with a bound on its rounds: after `none` an assertion has failed, or it still
-- goes on.
pub allocated_loop : ℕ → ℕ → ℕ → ℕ → Paging → Option Paging
allocated_loop zero virtual page_count flags s = if page_count == 0 then some s else none
allocated_loop (suc rounds) virtual page_count flags s =
    let (frames, s1) = take_frames (min page_count buf_size) s in
    let rest : Option Paging = elim (map_frames frames virtual flags s1) [
      | none ↦ none
      | some (virtual', s2) ↦ allocated_loop rounds virtual' (page_count - length frames) flags s2
    ] in
    if page_count == 0 then some s else rest

-- A round that gets no frame changes nothing, so that none more than `page_count` rounds end.
pub map_page_allocated : ℕ → ℕ → ℕ → Paging → Option Paging
map_page_allocated virtual page_count flags s =
    if virtual % page_size == 0 then allocated_loop page_count virtual page_count flags s else none

-- The same address for each frame in the buffer: the address moves on after the loop only.
pub map_frames_2m : List ℕ → ℕ → ℕ → Paging → Option Paging
map_frames_2m [] virtual flags s = some s
map_frames_2m (a ∷ as') virtual flags s = elim (map_page_2m a virtual 1 flags s) [
  | none ↦ none
  | some s' ↦ map_frames_2m as' virtual flags s'
]

pub allocated_loop_2m : ℕ → ℕ → ℕ → ℕ → Paging → Option Paging
allocated_loop_2m zero virtual page_count flags s = if page_count == 0 then some s else none
allocated_loop_2m (suc rounds) virtual page_count flags s =
    let (frames, s1) = take_frames_2m (min page_count buf_size) s in
    let rest : Option Paging = elim (map_frames_2m frames virtual flags s1) [
      | none ↦ none
      | some s2 ↦
          allocated_loop_2m rounds (add64 virtual (mul64 page_2m_size (length frames)))
            (page_count - length frames) flags s2
    ] in
    if page_count == 0 then some s else rest

pub map_page_allocated_2m : ℕ → ℕ → ℕ → Paging → Option Paging
map_page_allocated_2m virtual page_count flags s =
    if virtual % page_2m_size == 0
    then allocated_loop_2m page_count virtual page_count flags s
    else none
