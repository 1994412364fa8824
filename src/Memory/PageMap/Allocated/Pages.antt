-- ===== src/Memory/PageMap/Allocated/Pages.antt =====
-- `paging_map_PageAllocated` of memory/paging_map.c: the pages and the frames behind them, one run
-- of pages after another.
use native.Mathlib.Nat.{mul-add}
use helos.Prelude.{
  ℕ, zero, suc, ◌+◌, ◌-◌, ◌*◌, ◌≤◌, ◌<◌, ◌≡◌, refl, ap, ◌∙◌, ◌⊎◌, inl, inr, true, ◌||◌, some, List,
  [], ◌∷◌, ◌++◌, arith, if◌then◌else◌, Bool-cases, length, length-append, get_or,
}
use helos.Memory.Physical.Bitmap.{used}
use helos.Memory.Physical.Count.{unused}
use helos.Memory.PageMap.{Paging, page_entry}
use helos.Memory.PageMap.Walk.{IsTree, find_page}
use helos.Memory.PageMap.Grow.{Role}
use helos.Memory.PageMap.MapOne.{page}
use helos.Memory.PageMap.Translation.{in_pages}

-- Consecutive pages from `virtual` on stand for the frames, at the cost of `each` frames for a page.
pub record Backed (each : ℕ) (frames : List ℕ) (virtual flags : ℕ) (s s' : Paging) (role' : Role)
    : Type 0 where
  pub tree : IsTree s' role'
  pub same_root : s'.pml4 ≡ s.pml4
  pub same_disable : s'.execute_disable ≡ s.execute_disable
  pub fewer : unused s.frames ≤ unused s'.frames + each * length frames
  pub still_used : (f : ℕ) → used s.frames.bitmap f ≡ true → used s'.frames.bitmap f ≡ true
  pub finds :
      (v : ℕ)
      → find_page s' v ≡ (
          if in_pages (length frames) virtual v
          then some
              (page_entry s.execute_disable (get_or frames (page v - page virtual) 0) flags, [])
          else find_page s v)

get_or-append_left :
    (xs ys : List ℕ) (k d : ℕ) → k < length xs → get_or (xs ++ ys) k d ≡ get_or xs k d
get_or-append_left [] ys k d h = absurd (omega arith)
get_or-append_left (x ∷ xs) ys zero d h = refl
get_or-append_left (x ∷ xs) ys (suc k) d h = get_or-append_left xs ys k d (omega arith)

get_or-append_right :
    (xs ys : List ℕ) (k d : ℕ) → get_or (xs ++ ys) (length xs + k) d ≡ get_or ys k d
get_or-append_right [] ys k d = ap (λ n. get_or ys n d) (omega arith)
get_or-append_right (x ∷ xs) ys k d =
    ap (λ n. get_or (x ∷ (xs ++ ys)) n d)
      (let e : suc (length xs) + k ≡ suc (length xs + k) = omega arith in e)
    ∙ get_or-append_right xs ys k d

-- Two runs of pages, one after the other.
abbrev pub Follows : ℕ → ℕ → ℕ → ℕ → Type 0
Follows m n virtual virtual' = (n ≡ 0) ⊎ (page virtual' ≡ page virtual + m)

pub in_pages-add :
    (m n virtual virtual' v : ℕ)
    → Follows m n virtual virtual'
    → in_pages (m + n) virtual v ≡ (in_pages n virtual' v || in_pages m virtual v)
in_pages-add m n virtual virtual' v (inl last) = rw last (ground arith)
in_pages-add m n virtual virtual' v (inr e) = rw e (ground arith)

module _ (each : ℕ) (xs ys : List ℕ) (virtual virtual' flags : ℕ) {s s1 s2 : Paging}
    {role1 role2 : Role} (first : Backed each xs virtual flags s s1 role1)
    (rest : Backed each ys virtual' flags s1 s2 role2)
    (follows : Follows (length xs) (length ys) virtual virtual') where
  later-frame :
      (v : ℕ)
      → in_pages (length ys) virtual' v ≡ true
      → get_or (xs ++ ys) (page v - page virtual) 0 ≡ get_or ys (page v - page virtual') 0
  later-frame v h = elim follows [
    | inl last ↦ absurd (ground arith)
    | inr e ↦
        let place : page v - page virtual ≡ length xs + (page v - page virtual') =
          ground (arith, e) in
        ap (λ k. get_or (xs ++ ys) k 0) place ∙ get_or-append_right xs ys (page v - page virtual') 0
  ]

  earlier-frame :
      (v : ℕ)
      → in_pages (length xs) virtual v ≡ true
      → get_or (xs ++ ys) (page v - page virtual) 0 ≡ get_or xs (page v - page virtual) 0
  earlier-frame v h = get_or-append_left xs ys (page v - page virtual) 0 (ground arith)

  append-finds :
      (v : ℕ)
      → find_page s2 v ≡ (
          if in_pages (length (xs ++ ys)) virtual v
          then some
              (page_entry s.execute_disable (get_or (xs ++ ys) (page v - page virtual) 0) flags, [])
          else find_page s v)
  append-finds v =
      rw
        (
          length-append xs ys,
          in_pages-add (length xs) (length ys) virtual virtual' v follows,
          rest.finds v,
          first.finds v,
          first.same_disable,
        )
        (elim (Bool-cases (in_pages (length ys) virtual' v)) [
          | inl h ↦ rw (h, later-frame v h) refl
          | inr h ↦ rw h (elim (Bool-cases (in_pages (length xs) virtual v)) [
            | inl k ↦ rw (k, earlier-frame v k) refl
            | inr k ↦ rw k refl
          ])
        ])

  pub Backed-append : Backed each (xs ++ ys) virtual flags s s2 role2
  Backed-append = record {
    tree = rest.tree;
    same_root = rest.same_root ∙ first.same_root;
    same_disable = rest.same_disable ∙ first.same_disable;
    fewer = omega (
      arith,
      first.fewer,
      rest.fewer,
      ap (λ n. each * n) (length-append xs ys),
      mul-add each (length xs) (length ys),
    );
    still_used = λ f h. rest.still_used f (first.still_used f h);
    finds = append-finds;
  }
