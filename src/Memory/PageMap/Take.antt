-- ===== src/Memory/PageMap/Take.antt =====
-- A frame for a new table of memory/paging_map.c.
use helos.Prelude.{
  ℕ, ◌+◌, ◌-◌, ◌*◌, ◌/◌, ◌≤◌, ◌≡◌, refl, ap, ◌∙◌, ◌&&◌, [], ◌∷◌, if◌then◌else◌, ltb, leb, arith,
  length,
}
use helos.Memory.Physical.{Frames, page_size, search_frame, allocate_frames}
use helos.Memory.Physical.Search.{Found, search_frame-Found}
use helos.Memory.Physical.Count.{
  unused, unused-Found, search_frame-unused, allocate_frames-cons, allocate_frames-zero,
}
use helos.Memory.PageMap.{Paging, clear, take_frames, take_one_frame}

-- What the allocator hands out, as the tables see it.
pub record Taken (s : Paging) (a : ℕ) (s' : Paging) : Type 0 where
  pub found : Found s.frames a s'.frames
  pub cleared :
      (t i : ℕ) → s'.tables t i ≡ (if leb a t && ltb t (a + page_size) then 0 else s.tables t i)
  pub same_root : s'.pml4 ≡ s.pml4
  pub same_disable : s'.execute_disable ≡ s.execute_disable
  pub fewer : unused s.frames ≤ unused s'.frames + 1

take_one_frame-eq :
    (s : Paging) (a : ℕ) (f : Frames)
    → allocate_frames 1 s.frames ≡ (a ∷ [], f)
    → take_one_frame s ≡ (
      a,
      record s {
        frames = f;
        tables = λ t i. if leb a t && ltb t (a + page_size) then 0 else s.tables t i;
      },
    )
unfolding take_one_frame take_frames clear
take_one_frame-eq s a f e = rw (e, take_one_frame) refl

pub take_one_frame-Taken :
    (s : Paging)
    → s.frames.end_page ≤ 64 * length s.frames.bitmap
    → 1 ≤ unused s.frames
    → Taken s (take_one_frame s).0 (take_one_frame s).1
take_one_frame-Taken s h k =
    let fuel = s.frames.end_page / 64 - s.frames.phy_i in
    let (a, e) = search_frame-unused fuel s.frames (omega arith) k in
    let found = search_frame-Found fuel s.frames a h e in
    let one =
      allocate_frames-cons 0 s.frames e
      ∙ ap (λ r. (a ∷ r.0, r.1)) (allocate_frames-zero (search_frame fuel s.frames).1) in
    rw (take_one_frame-eq s a (search_frame fuel s.frames).1 one) (record {
      found = found;
      cleared = λ t i. refl;
      same_root = refl;
      same_disable = refl;
      fewer = unused-Found found;
    })
