-- ===== src/Memory/Physical/Tests.antt =====
-- The theorems on memory/paging_physical.c at small bitmaps.
use helos.Prelude.{
  ◌+◌, ◌*◌, ◌/◌, ◌%◌, ◌≡◌, refl, false, not, ◌&&◌, ◌||◌, [], ◌∷◌, arith, ltb, leb, ◌==◌,
  if◌then◌else◌,
}
use helos.Memory.Physical.{
  search_frame, free_bit, first_clear, give, Frames, page_size, bitmap_write_one, allocate_frames,
  free_frame,
}
use helos.Memory.Physical.Bitmap.{used, used-bitmap_write_one}
use helos.Memory.Physical.Lost.{allocates, frees, after, allocate_frames-free_frame}
use helos.Memory.Physical.Allocate.{Allotted, given, allocate_frames-Allotted, used-free_frame}

-- The search is at the second word; frame 64 is in use.
abbrev started : Frames
started = record { bitmap = 0 ∷ 1 ∷ 0 ∷ []; phy_i = 1; phy_i_2m = 8; end_page = 192; cleared = [] }

used-bitmap_write_one_example :
    used (bitmap_write_one 60 130 (0 ∷ 0 ∷ 0 ∷ [])) 129
    ≡ ((leb 60 129 && ltb 129 130) || used (0 ∷ 0 ∷ 0 ∷ []) 129)
used-bitmap_write_one_example =
    used-bitmap_write_one 60 130 (0 ∷ 0 ∷ 0 ∷ []) 129 (omega arith) (omega arith)

allocate_frames-Allotted_example :
    Allotted 3 started (allocate_frames 3 started).0 (allocate_frames 3 started).1
allocate_frames-Allotted_example = allocate_frames-Allotted 3 started (omega arith)

used-free_frame_example : used (free_frame 262144 2 started).bitmap 64 ≡ (
    if 262144 % page_size == 0
    then not (leb (262144 / page_size) 64 && ltb 64 (262144 / page_size + 2))
      && used started.bitmap 64
    else used started.bitmap 64)
used-free_frame_example = used-free_frame 262144 2 started 64 (omega arith) (omega arith)

allocate_frames-free_frame_example :
    let s' = free_frame (5 * page_size) 1 started in
    (used s'.bitmap 5 ≡ false)
    × (given (allocate_frames 2 (after (allocates 200 ∷ frees 266240 1 ∷ []) s')).0 5 ≡ false)
allocate_frames-free_frame_example =
    allocate_frames-free_frame (allocates 200 ∷ frees 266240 1 ∷ []) 2 5 started (omega arith)
      (omega arith) (omega arith)

allocated : (allocate_frames 2 started).0 ≡ 266240 ∷ 270336 ∷ []
unfolding allocate_frames search_frame free_bit first_clear give
allocated = refl
