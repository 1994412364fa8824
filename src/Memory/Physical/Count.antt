-- ===== src/Memory/Physical/Count.antt =====
-- How many frames the search of memory/paging_physical.c can still give out.
use helos.Prelude.{
  ℕ, zero, suc, ◌+◌, ◌-◌, ◌*◌, ◌/◌, ◌≤◌, ◌<◌, min, ◌≡◌, refl, ap, ◌∙◌, inl, inr, true, ◌||◌, some,
  List, [], ◌∷◌, ◌==◌, if◌then◌else◌, leb, arith, length, Bool-cases, Option-cases,
}
use helos.Memory.Physical.{Frames, search_frame, allocate_frames}
use helos.Memory.Physical.Bitmap.{used}
use helos.Memory.Physical.Search.{Found, search_frame-Found, search_frame-Exhausted}

-- The frames not in use among the `n` from `lo` on.
unfoldable pub count_unused : List ℕ → ℕ → ℕ → ℕ
count_unused bits zero lo = 0
count_unused bits (suc n) lo = (if used bits lo then 0 else 1) + count_unused bits n (lo + 1)

abbrev pub unused : Frames → ℕ
unused s = count_unused s.bitmap (s.end_page / 64 * 64 - s.phy_i * 64) (s.phy_i * 64)

all_used-count :
    (bits : List ℕ) (n lo : ℕ)
    → ((p : ℕ) → lo ≤ p → p < lo + n → used bits p ≡ true)
    → count_unused bits n lo ≡ 0
unfolding count_unused
all_used-count bits zero lo h = refl
all_used-count bits (suc n) lo h =
    rw (h lo (omega arith) (omega arith))
      (omega (arith, all_used-count bits n (lo + 1) (λ p k l. h p (omega arith) (omega arith))))

count_unused-add :
    (bits : List ℕ) (m n lo : ℕ)
    → count_unused bits (m + n) lo ≡ count_unused bits m lo + count_unused bits n (lo + m)
unfolding count_unused
count_unused-add bits zero n lo =
    ap (λ k. count_unused bits k lo) (let e : 0 + n ≡ n = omega arith in e)
    ∙ omega (arith, ap (count_unused bits n) (let e : lo + 0 ≡ lo = omega arith in e))
count_unused-add bits (suc m) n lo =
    ap (λ k. count_unused bits k lo) (let e : suc m + n ≡ suc (m + n) = omega arith in e)
    ∙ omega (
      arith,
      count_unused-add bits m n (lo + 1),
      ap (count_unused bits n) (let e : lo + 1 + m ≡ lo + suc m = omega arith in e),
    )

-- One frame taken.
module _ (bits bits' : List ℕ) (page : ℕ)
    (taken : (p : ℕ) → used bits' p ≡ ((p == page) || used bits p)) where
  count_above : (n lo : ℕ) → page < lo → count_unused bits n lo ≡ count_unused bits' n lo
  unfolding count_unused
  count_above zero lo h = refl
  count_above (suc n) lo h = ground (arith, taken lo, count_above n (lo + 1))

  count_taken : (n lo : ℕ) → count_unused bits n lo ≤ count_unused bits' n lo + 1
  unfolding count_unused
  count_taken zero lo = omega arith
  count_taken (suc n) lo = elim (Bool-cases (lo == page)) [
    | inl e ↦ ground (arith, taken lo, count_above n (lo + 1))
    | inr e ↦ ground (arith, taken lo, count_taken n (lo + 1))
  ]

-- The search passes over no unused frame, and takes one.
pub unused-Found : {s s' : Frames} {a : ℕ} → Found s a s' → unused s ≤ unused s' + 1
unfolding count_unused
unused-Found {s} {s'} f =
    let lo = s.phy_i * 64 in
    let lo' = s'.phy_i * 64 in
    let end = s.end_page / 64 * 64 in
    let passed = min (lo' - lo) (end - lo) in
    let none_passed = all_used-count s.bitmap passed lo (λ p k l. f.skipped p k (omega arith)) in
    let parts = count_unused-add s.bitmap passed (end - lo') lo in
    let whole : passed + (end - lo') ≡ end - lo = omega (arith, f.onward) in
    let same_end : s'.end_page / 64 * 64 - lo' ≡ end - lo' =
      ap (λ e. e / 64 * 64 - lo') f.same_end in
    let at : count_unused s.bitmap (end - lo') (lo + passed)
        ≡ count_unused s.bitmap (end - lo') lo' =
      elim (Bool-cases (leb lo' end)) [
        | inl inside ↦ ap (count_unused s.bitmap (end - lo')) (ground (arith, f.onward))
        | inr past ↦ let nothing : end - lo' ≡ 0 = ground arith in rw nothing refl
      ] in
    omega (
      arith,
      none_passed,
      parts,
      ap (λ n. count_unused s.bitmap n lo) whole,
      at,
      ap (λ n. count_unused s'.bitmap n lo') same_end,
      count_taken s.bitmap s'.bitmap f.page f.taken (end - lo') lo',
    )

-- It finds one if there is one.
pub search_frame-unused :
    (n : ℕ) (s : Frames)
    → s.end_page / 64 - s.phy_i ≤ n
    → 1 ≤ unused s
    → (a : ℕ) × ((search_frame n s).0 ≡ some a)
search_frame-unused n s h k = elim (Option-cases (search_frame n s).0) [
  | inr (a, e) ↦ (a, e)
  | inl e ↦
      let x = search_frame-Exhausted n s h e in
      absurd (
        omega (
          arith,
          all_used-count s.bitmap (s.end_page / 64 * 64 - s.phy_i * 64) (s.phy_i * 64)
              (λ p l m. x.all_used p l (omega arith)),
        ))
]

-- The frame found comes first.
pub allocate_frames-cons :
    (n : ℕ) (s : Frames) {a : ℕ}
    → let found = search_frame (s.end_page / 64 - s.phy_i) s in
      found.0 ≡ some a
      → allocate_frames (suc n) s
        ≡ (a ∷ (allocate_frames n found.1).0, (allocate_frames n found.1).1)
unfolding allocate_frames
allocate_frames-cons n s e = rw (e, allocate_frames) refl

pub allocate_frames-zero : (s : Frames) → allocate_frames 0 s ≡ ([], s)
unfolding allocate_frames
allocate_frames-zero s = refl

-- As many frames as asked for, if so many are left.
pub allocate_frames-unused :
    (n : ℕ) (s : Frames)
    → s.end_page ≤ 64 * length s.bitmap
    → n ≤ unused s
    → let (frames, s') = allocate_frames n s in
      (length frames ≡ n)
      × (unused s ≤ unused s' + n)
      × (s'.end_page ≡ s.end_page)
      × (length s'.bitmap ≡ length s.bitmap)
allocate_frames-unused zero s h k = rw (allocate_frames-zero s) (refl, omega arith, refl, refl)
allocate_frames-unused (suc n) s h k =
    let fuel = s.end_page / 64 - s.phy_i in
    let (a, e) = search_frame-unused fuel s (omega arith) (omega arith) in
    let f = search_frame-Found fuel s a h e in
    let one = unused-Found f in
    let rest =
      allocate_frames-unused n (search_frame fuel s).1 (omega (arith, h, f.same_end, f.same_length))
        (omega (arith, one)) in
    rw (allocate_frames-cons n s e)
      (omega (arith, rest), omega (arith, rest, one), rest.2 ∙ f.same_end, rest.3 ∙ f.same_length)
