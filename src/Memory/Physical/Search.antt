-- ===== src/Memory/Physical/Search.antt =====
-- The search for a free frame of memory/paging_physical.c.
use Prim.Native.Nat.{bit_or}
use helos.Prelude.{
  ltb→lt, ◌≢◌, sym, nth_bit-ones, Option-cases, ◌∙◌, ltb, length-set, nth_bit-pow, ◌%◌,
  nth_bit-bit_or, ==_iff, ◌^◌, get_or, Bool-cases, nth_bit-lt, test_bit, ℕ, zero, suc, ◌+◌, ◌-◌,
  ◌*◌, ◌/◌, ◌≤◌, ◌<◌, ◌≡◌, refl, ap, inl, inr, true, false, ◌||◌, none, some, ◌∷◌, arith, ◌==◌,
  length, nth_bit,
}
use helos.Memory.Physical.{Frames, page_size, all_ones, first_clear, free_bit, give, search_frame}
use helos.Memory.Physical.Bitmap.{used, get_or-set}

-- The bit found is clear, and if none is found then none is.
first_clear-some :
    (n j w k : ℕ) → first_clear n j w ≡ some k → (j ≤ k) × (k < j + n) × (nth_bit w k ≡ 0)
unfolding first_clear
first_clear-some zero j w k h = ground arith
first_clear-some (suc n) j w k h =
    ground (arith, test_bit w j, nth_bit-lt j w, first_clear-some n (j + 1) w k)

first_clear-none : (n j w i : ℕ) → first_clear n j w ≡ none → j ≤ i → i < j + n → nth_bit w i ≡ 1
unfolding first_clear
first_clear-none zero j w i h k l = absurd (omega arith)
first_clear-none (suc n) j w i h k l = elim (Bool-cases (j == i)) [
  | inl e ↦ ground (arith, test_bit w j, nth_bit-lt j w, ap (nth_bit w) ((==_iff j i).0 e))
  | inr e ↦ ground (arith, test_bit w j, nth_bit-lt j w, first_clear-none n (j + 1) w i)
]

free_bit-some : (w k : ℕ) → free_bit w ≡ some k → (0 ≤ k) × (k < 64) × (nth_bit w k ≡ 0)
unfolding free_bit
free_bit-some w k h = ground (arith, first_clear-some 64 0 w k)

free_bit-none : (w i : ℕ) → free_bit w ≡ none → i < 64 → nth_bit w i ≡ 1
unfolding free_bit
free_bit-none w i h k = elim (Bool-cases (w == all_ones)) [
  | inl e ↦ ap (λ x. nth_bit x i) ((==_iff w all_ones).0 e) ∙ nth_bit-ones 64 i ∙ ground arith
  | inr e ↦ ground (arith, first_clear-none 64 0 w i)
]

some≢none : {a : ℕ} → some a ≢ none
some≢none h = ground arith

some-inj : {a b : ℕ} → some a ≡ some b → a ≡ b
some-inj h = ground arith

-- What one round of the search finds: a frame that was free, at or above the place where the
-- search began, which is now in use as the others were.
pub record Found (s : Frames) (address : ℕ) (s' : Frames) : Type 0 where
  pub page : ℕ
  pub at : address ≡ page * page_size
  pub above : s.phy_i * 64 ≤ page
  pub below : page < s.end_page / 64 * 64
  pub was_free : used s.bitmap page ≡ false
  pub taken : (p : ℕ) → used s'.bitmap p ≡ ((p == page) || used s.bitmap p)
  pub wiped : s'.cleared ≡ (address, page_size) ∷ s.cleared
  pub onward : s.phy_i ≤ s'.phy_i
  pub skipped : (p : ℕ) → s.phy_i * 64 ≤ p → p < s'.phy_i * 64 → used s.bitmap p ≡ true
  pub same_end : s'.end_page ≡ s.end_page
  pub same_length : length s'.bitmap ≡ length s.bitmap

give-Found :
    (j : ℕ) (s : Frames)
    → s.phy_i < s.end_page / 64
    → s.end_page ≤ 64 * length s.bitmap
    → free_bit (get_or s.bitmap s.phy_i 0) ≡ some j
    → Found s (give j s).0 (give j s).1
unfolding give
give-Found j s h k e =
    let w = get_or s.bitmap s.phy_i 0 in
    let clear = free_bit-some w j e in
    let page = s.phy_i * 64 + j in
    record {
      page = page;
      at = refl;
      above = omega arith;
      below = omega arith;
      was_free = ground (arith, clear);
      taken = λ p. ground (
        arith,
        get_or-set s.bitmap s.phy_i (p / 64) (bit_or w (2 ^ j)),
        nth_bit-bit_or (p % 64) w (2 ^ j),
        nth_bit-pow j (p % 64),
        nth_bit-lt (p % 64) w,
      );
      wiped = refl;
      onward = omega arith;
      skipped = λ p above below. absurd (omega arith);
      same_end = refl;
      same_length = length-set s.bitmap s.phy_i _;
    }

-- A round that only goes on.
next-Found :
    (s : Frames) (a : ℕ) (s' : Frames)
    → free_bit (get_or s.bitmap s.phy_i 0) ≡ none
    → Found (record s { phy_i = s.phy_i + 1 }) a s'
    → Found s a s'
next-Found s a s' k f = record {
  page = f.page;
  at = f.at;
  above = omega (arith, f.above);
  below = f.below;
  was_free = f.was_free;
  taken = f.taken;
  wiped = f.wiped;
  onward = omega (arith, f.onward);
  skipped = λ p above below.
      ground (arith, f.skipped p, free_bit-none (get_or s.bitmap s.phy_i 0) (p % 64) k);
  same_end = f.same_end;
  same_length = f.same_length;
}

search_frame-zero : (s : Frames) → search_frame 0 s ≡ (none, s)
unfolding search_frame
search_frame-zero s = refl

-- The three ways a round of the loop goes.
search_frame-stop :
    (n : ℕ) (s : Frames)
    → ltb s.phy_i (s.end_page / 64) ≡ false
    → search_frame (suc n) s ≡ (none, s)
unfolding search_frame
search_frame-stop n s h = rw h refl

search_frame-skip :
    (n : ℕ) (s : Frames)
    → ltb s.phy_i (s.end_page / 64) ≡ true
    → free_bit (get_or s.bitmap s.phy_i 0) ≡ none
    → search_frame (suc n) s ≡ search_frame n (record s { phy_i = s.phy_i + 1 })
unfolding search_frame
search_frame-skip n s h k = rw (h, k) refl

search_frame-hit :
    (n : ℕ) (s : Frames) (j : ℕ)
    → ltb s.phy_i (s.end_page / 64) ≡ true
    → free_bit (get_or s.bitmap s.phy_i 0) ≡ some j
    → search_frame (suc n) s ≡ (some (give j s).0, (give j s).1)
unfolding search_frame
search_frame-hit n s j h k = rw (h, k) refl

pub search_frame-Found :
    (n : ℕ) (s : Frames) (a : ℕ)
    → s.end_page ≤ 64 * length s.bitmap
    → (search_frame n s).0 ≡ some a
    → Found s a (search_frame n s).1
search_frame-Found zero s a h e = absurd (some≢none (sym e ∙ ap (λ r. r.0) (search_frame-zero s)))
search_frame-Found (suc n) s a h e = elim (Bool-cases (ltb s.phy_i (s.end_page / 64))) [
  | inr x ↦ absurd (some≢none (sym e ∙ ap (λ r. r.0) (search_frame-stop n s x)))
  | inl x ↦ elim (Option-cases (free_bit (get_or s.bitmap s.phy_i 0))) [
    | inl k ↦
        let skip = search_frame-skip n s x k in
        let s' : Frames = record s { phy_i = s.phy_i + 1 } in
        rw skip (next-Found s a _ k (search_frame-Found n s' a h (sym (ap (λ r. r.0) skip) ∙ e)))
    | inr (j, k) ↦
        let hit = search_frame-hit n s j x k in
        let same : (give j s).0 ≡ a = some-inj (sym (ap (λ r. r.0) hit) ∙ e) in
        rw (hit, ← same) (give-Found j s (ltb→lt _ _ x) h k)
  ]
]

-- What a search that finds nothing has seen: no frame is free from where it began.
pub record Exhausted (s s' : Frames) : Type 0 where
  pub all_used : (p : ℕ) → s.phy_i * 64 ≤ p → p < s.end_page / 64 * 64 → used s.bitmap p ≡ true
  pub same_bits : s'.bitmap ≡ s.bitmap
  pub same_cleared : s'.cleared ≡ s.cleared

pub search_frame-Exhausted :
    (n : ℕ) (s : Frames)
    → s.end_page / 64 - s.phy_i ≤ n
    → (search_frame n s).0 ≡ none
    → Exhausted s (search_frame n s).1
search_frame-Exhausted zero s h e =
    rw (search_frame-zero s)
      (record { all_used = λ p k l. absurd (omega arith); same_bits = refl; same_cleared = refl })
search_frame-Exhausted (suc n) s h e = elim (Bool-cases (ltb s.phy_i (s.end_page / 64))) [
  | inr x ↦
      rw (search_frame-stop n s x) (record {
        all_used = λ p k l. absurd (ground arith);
        same_bits = refl;
        same_cleared = refl;
      })
  | inl x ↦ elim (Option-cases (free_bit (get_or s.bitmap s.phy_i 0))) [
    | inl k ↦
        let skip = search_frame-skip n s x k in
        let s' : Frames = record s { phy_i = s.phy_i + 1 } in
        let rest = search_frame-Exhausted n s' (omega arith) (sym (ap (λ r. r.0) skip) ∙ e) in
        rw skip (record {
          all_used = λ p above below.
              ground (arith, rest.all_used p, free_bit-none (get_or s.bitmap s.phy_i 0) (p % 64) k);
          same_bits = rest.same_bits;
          same_cleared = rest.same_cleared;
        })
    | inr (j, k) ↦ absurd (some≢none (sym (ap (λ r. r.0) (search_frame-hit n s j x k)) ∙ e))
  ]
]
