-- ===== src/Memory/Physical/Lost.antt =====
-- What memory/paging_physical.c frees below the word that its search has reached.
use helos.Prelude.{
  ℕ, zero, suc, ◌+◌, ◌-◌, ◌*◌, ◌/◌, ◌%◌, ◌≤◌, ◌<◌, ◌≡◌, refl, ◌∙◌, inl, inr, true, false, List, [],
  ◌∷◌, arith, ltb, ◌==◌, Bool-cases, Option-cases, length, length-set, get_or,
}
use helos.Memory.Physical.{
  Frames, page_size, free_bit, give, search_frame, allocate_frames, free_frame,
}
use helos.Memory.Physical.Bitmap.{used, length-bitmap_write_zero}
use helos.Memory.Physical.Allocate.{given, given-below, allocate_frames-Allotted, used-free_frame}

-- The search never goes back, and the bitmap keeps its length.
record Onward (s s' : Frames) : Type 0 where
  onward : s.phy_i ≤ s'.phy_i
  same_end : s'.end_page ≡ s.end_page
  same_length : length s'.bitmap ≡ length s.bitmap

Onward-same : (s : Frames) → Onward s s
Onward-same s = record { onward = omega arith; same_end = refl; same_length = refl }

Onward-then : (s s' s'' : Frames) → Onward s s' → Onward s' s'' → Onward s s''
Onward-then s s' s'' f g = record {
  onward = omega (arith, f.onward, g.onward);
  same_end = g.same_end ∙ f.same_end;
  same_length = g.same_length ∙ f.same_length;
}

search_frame-Onward : (n : ℕ) (s : Frames) → Onward s (search_frame n s).1
unfolding search_frame give
search_frame-Onward zero s = Onward-same s
search_frame-Onward (suc n) s = elim (Bool-cases (ltb s.phy_i (s.end_page / 64))) [
  | inr past ↦ rw past (Onward-same s)
  | inl inside ↦ elim (Option-cases (free_bit (get_or s.bitmap s.phy_i 0))) [
    | inl full ↦
        let next : Frames = record s { phy_i = s.phy_i + 1 } in
        let step : Onward s next = record {
          onward = omega arith;
          same_end = refl;
          same_length = refl;
        } in
        rw (inside, full)
          (Onward-then s next (search_frame n next).1 step (search_frame-Onward n next))
    | inr (j, clear) ↦
        rw (inside, clear)
          (record {
            onward = omega arith;
            same_end = refl;
            same_length = length-set s.bitmap s.phy_i _;
          })
  ]
]

allocate_frames-Onward : (n : ℕ) (s : Frames) → Onward s (allocate_frames n s).1
unfolding allocate_frames
allocate_frames-Onward zero s = Onward-same s
allocate_frames-Onward (suc n) s =
    let fuel = s.end_page / 64 - s.phy_i in
    let s' = (search_frame fuel s).1 in
    let first = search_frame-Onward fuel s in
    elim (Option-cases (search_frame fuel s).0) [
      | inl e ↦ rw (allocate_frames, e) first
      | inr (a, e) ↦
          rw (allocate_frames, e)
            (Onward-then s s' (allocate_frames n s').1 first (allocate_frames-Onward n s'))
    ]

free_frame-Onward : (frame page_count : ℕ) (s : Frames) → Onward s (free_frame frame page_count s)
unfolding free_frame
free_frame-Onward frame page_count s = elim (Bool-cases (frame % page_size == 0)) [
  | inl e ↦ rw e (record {
    onward = omega arith;
    same_end = refl;
    same_length = length-bitmap_write_zero (frame / page_size) _ s.bitmap;
  })
  | inr e ↦ rw e (Onward-same s)
]

-- Calls of `paging_physical_AllocateFrames` and `paging_physical_FreeFrame`, and what they leave.
pub data Call : Type 0 where
  allocates : ℕ → Call
  frees : ℕ → ℕ → Call

pub after : List Call → Frames → Frames
after [] s = s
after (allocates n ∷ calls) s = after calls (allocate_frames n s).1
after (frees frame page_count ∷ calls) s = after calls (free_frame frame page_count s)

after-Onward : (calls : List Call) (s : Frames) → Onward s (after calls s)
unfolding after
after-Onward [] s = Onward-same s
after-Onward (allocates n ∷ calls) s =
    let s' = (allocate_frames n s).1 in
    Onward-then s s' (after calls s') (allocate_frames-Onward n s) (after-Onward calls s')
after-Onward (frees frame page_count ∷ calls) s =
    let s' = free_frame frame page_count s in
    Onward-then s s' (after calls s') (free_frame-Onward frame page_count s) (after-Onward calls s')

-- A frame below the word that the search has reached stays lost: after `paging_physical_FreeFrame`
-- has freed it, it is free, but whatever calls of `paging_physical_AllocateFrames` and
-- `paging_physical_FreeFrame` follow, no call of `paging_physical_AllocateFrames` gives it out.
pub allocate_frames-free_frame :
    (calls : List Call) (n page : ℕ) (s : Frames)
    → s.end_page ≤ 64 * length s.bitmap
    → page < s.phy_i * 64
    → page < 64 * length s.bitmap
    → let s' = free_frame (page * page_size) 1 s in
      (used s'.bitmap page ≡ false) × (given (allocate_frames n (after calls s')).0 page ≡ false)
allocate_frames-free_frame calls n page s h below inside =
    let frees' = used-free_frame (page * page_size) 1 s page (omega arith) (omega arith) in
    let aligned : (page * page_size % page_size == 0) ≡ true = ground arith in
    let s' = free_frame (page * page_size) 1 s in
    let s'' = after calls s' in
    let on =
      Onward-then s s' s'' (free_frame-Onward (page * page_size) 1 s) (after-Onward calls s') in
    let allotted = allocate_frames-Allotted n s'' (omega (arith, on.same_end, on.same_length, h)) in
    (
      ground (arith, frees', aligned),
      given-below s'' (allocate_frames n s'').0 page allotted.fresh
          (omega (arith, on.onward, below)),
    )
