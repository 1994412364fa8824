-- ===== src/Memory/Physical/Allocate.antt =====
-- `paging_physical_AllocateFrames` of memory/paging_physical.c.
use helos.Prelude.{
  Bool-cases, ltb, ◌&&◌, leb, if◌then◌else◌, ◌%◌, ◌+◌, zero, ◌∙◌, Option-cases, suc, arith, ℕ, ◌-◌,
  ◌*◌, ◌/◌, ◌≤◌, ◌<◌, ◌≡◌, refl, ap, ◌⊎◌, inl, inr, Bool, true, false, not, ◌||◌, List, [], ◌∷◌,
  ◌==◌, length,
}
use helos.Memory.Physical.{Frames, page_size, search_frame, allocate_frames, free_frame}
use helos.Memory.Physical.Bitmap.{used, used-bitmap_write_zero}
use helos.Memory.Physical.Search.{Found, search_frame-Found, search_frame-Exhausted}

-- Whether the frame is one of those given out.
abbrev pub given : List ℕ → ℕ → Bool
given [] page = false
given (a ∷ as') page = (a == page * page_size) || given as' page

-- The addresses are of frames that were free, each within the memory at or above the place where
-- the search began, and no two are the same.
abbrev pub AllFresh : Frames → List ℕ → Type 0
AllFresh s [] = Unit {0}
AllFresh s (a ∷ as') =
    ((page : ℕ) × (a ≡ page * page_size)
      × (used s.bitmap page ≡ false)
      × (s.phy_i * 64 ≤ page)
      × (page < s.end_page / 64 * 64)
      × (given as' page ≡ false))
    × AllFresh s as'

abbrev pub wipe : List ℕ → List (ℕ × ℕ) → List (ℕ × ℕ)
wipe [] log = log
wipe (a ∷ as') log = wipe as' ((a, page_size) ∷ log)

pub record Allotted (n : ℕ) (s : Frames) (frames : List ℕ) (s' : Frames) : Type 0 where
  pub fresh : AllFresh s frames
  pub taken : (p : ℕ) → used s'.bitmap p ≡ (given frames p || used s.bitmap p)
  pub wiped : s'.cleared ≡ wipe frames s.cleared
  pub as_many :
      (length frames ≡ n)
      ⊎ ((p : ℕ) → s.phy_i * 64 ≤ p → p < s.end_page / 64 * 64 → used s'.bitmap p ≡ true)

-- What is fresh after a frame was given out was fresh before, and is another frame.
fresh-before :
    (as' : List ℕ) {s s' : Frames} {a : ℕ} (f : Found s a s')
    → AllFresh s' as'
    → AllFresh s as' × (given as' f.page ≡ false)
fresh-before [] f fresh = (tt, refl)
fresh-before (b ∷ as') {s} {s'} f fresh =
    let (page, at, free, above, below, other) = fresh.0 in
    let rest = fresh-before as' f fresh.1 in
    let apart : ((page == f.page) ≡ false) × (used s.bitmap page ≡ false) =
      ground (arith, f.taken page, free) in
    (
      (
        (
          page,
          at,
          apart.1,
          omega (arith, f.onward, above),
          omega (arith, f.same_end, below),
          other,
        ),
        rest.0,
      ),
      ground (arith, at, apart, rest.1),
    )

more-Allotted :
    {n : ℕ} {s s' s'' : Frames} {a : ℕ} {frames : List ℕ}
    → Found s a s'
    → Allotted n s' frames s''
    → Allotted (suc n) s (a ∷ frames) s''
more-Allotted {n} {s} {s'} {s''} {a} {frames} f rest =
    let before = fresh-before frames f rest.fresh in
    record {
      fresh = ((f.page, f.at, f.was_free, f.above, f.below, before.1), before.0);
      taken = λ p. ground (arith, rest.taken p, f.taken p, f.at);
      wiped = rest.wiped ∙ ap (wipe frames) f.wiped;
      as_many = elim rest.as_many [
        | inl e ↦ inl (ap suc e)
        | inr all ↦ inr (λ p above below.
            ground (arith, f.skipped p, f.taken p, rest.taken p, all p, f.same_end))
      ];
    }

-- `paging_physical_AllocateFrames(n, frames)` on a bitmap that covers the memory: the frames it
-- writes are of the memory, were free, lie at or above the word that the search has reached, and no
-- two are the same; afterwards they are in use and no other frame has changed; each is cleared, in
-- order; and they are `n` unless every frame from that word on, up to the last whole word of 64
-- frames of the memory, is in use afterwards.
pub allocate_frames-Allotted :
    (n : ℕ) (s : Frames)
    → s.end_page ≤ 64 * length s.bitmap
    → Allotted n s (allocate_frames n s).0 (allocate_frames n s).1
unfolding allocate_frames
allocate_frames-Allotted zero s h = record {
  fresh = tt;
  taken = λ p. refl;
  wiped = refl;
  as_many = inl refl;
}
allocate_frames-Allotted (suc n) s h =
    let fuel = s.end_page / 64 - s.phy_i in
    let s' = (search_frame fuel s).1 in
    elim (Option-cases (search_frame fuel s).0) [
      | inl e ↦
          let x = search_frame-Exhausted fuel s (omega arith) e in
          rw (allocate_frames, e)
            (record {
              fresh = tt;
              taken = λ p. ap (λ b. used b p) x.same_bits;
              wiped = x.same_cleared;
              as_many =
                  inr (λ p above below. ap (λ b. used b p) x.same_bits ∙ x.all_used p above below);
            })
      | inr (a, e) ↦
          let f = search_frame-Found fuel s a h e in
          rw (allocate_frames, e)
            (more-Allotted f
              (allocate_frames-Allotted n s' (omega (arith, h, f.same_end, f.same_length))))
    ]

pub given-below :
    (s : Frames) (frames : List ℕ) (page : ℕ)
    → AllFresh s frames
    → page < s.phy_i * 64
    → given frames page ≡ false
given-below s [] page fresh h = refl
given-below s (a ∷ as') page fresh h = ground (arith, fresh.0, given-below s as' page fresh.1 h)

-- `paging_physical_FreeFrame(frame, page_count)` frees the `page_count` frames from an aligned
-- address on, at least one and all of them within the bitmap, and changes no other; at an address
-- that is not aligned it does nothing.
pub used-free_frame :
    (frame page_count : ℕ) (s : Frames) (p : ℕ)
    → 1 ≤ page_count
    → frame / page_size + page_count ≤ 64 * length s.bitmap
    → used (free_frame frame page_count s).bitmap p ≡ (
        if frame % page_size == 0
        then not (leb (frame / page_size) p && ltb p (frame / page_size + page_count))
          && used s.bitmap p
        else used s.bitmap p)
unfolding free_frame
used-free_frame frame page_count s p h k = elim (Bool-cases (frame % page_size == 0)) [
  | inl e ↦ rw e (
      used-bitmap_write_zero (frame / page_size) (frame / page_size + page_count) s.bitmap p
        (omega arith) k)
  | inr e ↦ rw e refl
]
