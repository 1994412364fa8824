-- ===== src/Memory/PageMap/Grow.antt =====
-- The tables that memory/paging_map.c adds on its way down leave every mapping as it was.
use Prim.Native.Nat.{bit_and, bit_or}
use helos.Prelude.{
  true≢false, none≢some, ℕ, suc, ◌+◌, ◌*◌, ◌≤◌, ◌<◌, ◌≡◌, ◌⊎◌, refl, ap, sym, ◌∙◌, inl, inr, true,
  false, ◌&&◌, Option, none, some, List, [], ◌∷◌, ◌==◌, if◌then◌else◌, arith, length, Bool-cases,
  ==_iff,
}
use helos.Memory.Physical.{page_size}
use helos.Memory.Physical.Bitmap.{used}
use helos.Memory.Physical.Count.{unused}
use helos.Memory.PageMap.{
  Paging, has, take_one_frame, write, provide, pml_addr_mask, pml_present, pml_writeable,
  pml_execute_disable,
}
use helos.Memory.PageMap.Entry.{
  IsFrame, pointer-lem, pointer-writeable, pointer-execute_disable, pointer-present,
  pointer-page_size, pointer-address, zero-present,
}
use helos.Memory.PageMap.Take.{Taken, take_one_frame-Taken}
use helos.Memory.PageMap.Walk.{leaf, walk, IsTree}

abbrev pub Role : Type 0
Role = ℕ → Option (List ℕ)

-- What `provide` makes of the entry `i` of the table `t`, which stands at `p`.
pub record Provided (s : Paging) (role : Role) (t : ℕ) (p : List ℕ) (i : ℕ) (s' : Paging)
    (role' : Role) : Type 0 where
  pub tree : IsTree s' role'
  pub keeps : (u : ℕ) (q : List ℕ) → role u ≡ some q → role' u ≡ some q
  pub there : has (s'.tables t i) pml_present ≡ true
  pub inner : leaf (length p) (s'.tables t i) ≡ false
  pub same_entry :
      (u : ℕ) (q : List ℕ) (j : ℕ)
      → role u ≡ some q
      → has (s.tables u j) pml_present ≡ true
      → s'.tables u j ≡ s.tables u j
  pub same_walk :
      (u : ℕ) (q is : List ℕ)
      → role u ≡ some q
      → walk s'.tables (length q) u is ≡ walk s.tables (length q) u is
  pub same_root : s'.pml4 ≡ s.pml4
  pub same_disable : s'.execute_disable ≡ s.execute_disable
  pub fewer : unused s.frames ≤ unused s'.frames + 1
  pub still_used : (f : ℕ) → used s.frames.bitmap f ≡ true → used s'.frames.bitmap f ≡ true

-- The case of an entry that is not present.
module _ (s s1 : Paging) (role : Role) (tree : IsTree s role) (t : ℕ) (p : List ℕ) (i a : ℕ)
    (at : role t ≡ some p) (short : length p < 3) (absent : has (s.tables t i) pml_present ≡ false)
    (taken : Taken s a s1) where
  abbrev grown : Paging
  grown = write t i (bit_or (bit_or a pml_present) pml_writeable) s1

  abbrev role' : Role
  role' u = if u == a then some (i ∷ p) else role u

  frame : IsFrame a
  frame = let f = taken.found in (omega (arith, f.at), omega (arith, f.at, f.below, tree.fits))

  unclaimed : role a ≡ none
  unclaimed = let f = taken.found in ap role f.at ∙ tree.in_use f.page f.was_free

  other : (u : ℕ) (q : List ℕ) → role u ≡ some q → (u == a) ≡ false
  other u q e = elim (Bool-cases (u == a)) [
    | inl same ↦ absurd (none≢some (sym unclaimed ∙ ap role (sym ((==_iff u a).0 same)) ∙ e))
    | inr different ↦ different
  ]

  entry :
      (u : ℕ) (q : List ℕ) (j : ℕ)
      → role u ≡ some q
      → grown.tables u j ≡ (if u == t && j == i then a + 3 else s.tables u j)
  unfolding write
  entry u q j e =
      ground (arith, other u q e, tree.aligned u q e, frame, taken.cleared u j, pointer-lem a frame)

  new_entry : (j : ℕ) → grown.tables a j ≡ 0
  unfolding write
  new_entry j = ground (arith, other t p at, taken.cleared a j)

  kept : (u : ℕ) (q : List ℕ) → role u ≡ some q → role' u ≡ some q
  kept u q e = rw (other u q e) e

  -- The one entry that changes, or another.
  hit-or-miss :
      (u : ℕ) (q : List ℕ) (j : ℕ)
      → role u ≡ some q
      → ((u ≡ t) × (j ≡ i) × (q ≡ p) × (grown.tables u j ≡ a + 3))
        ⊎ (grown.tables u j ≡ s.tables u j)
  hit-or-miss u q j e = elim (Bool-cases (u == t && j == i)) [
    | inl hit ↦
        let same : (u ≡ t) × (j ≡ i) = ground arith in
        let place : some q ≡ some p = sym e ∙ ap role same.0 ∙ at in
        inl (same.0, same.1, cc, rw hit at (entry u q j e))
    | inr miss ↦ inr (rw miss at (entry u q j e))
  ]

  pointer-leaf : leaf (length p) (a + 3) ≡ false
  unfolding leaf
  pointer-leaf = ground (arith, pointer-page_size a frame)

  grown-points :
      (u : ℕ) (q : List ℕ) (j : ℕ)
      → role' u ≡ some q
      → has (grown.tables u j) pml_present ≡ true
      → leaf (length q) (grown.tables u j) ≡ false
      → role' (bit_and (grown.tables u j) pml_addr_mask) ≡ some (j ∷ q)
  grown-points u q j e there inner = elim (Bool-cases (u == a)) [
    | inl new ↦
        let zeroed : grown.tables u j ≡ 0 =
          ap (λ x. grown.tables x j) ((==_iff u a).0 new) ∙ new_entry j in
        absurd (true≢false (sym there ∙ ap (λ x. has x pml_present) zeroed ∙ zero-present))
    | inr old ↦
        let e' : role u ≡ some q = rw old at e in
        elim (hit-or-miss u q j e') [
          | inl (_, same, place, pointer) ↦
              rw (pointer, pointer-address a frame, (==_iff a a).1 refl) (cc)
          | inr miss ↦
              rw miss (kept _ _ (tree.points u q j e' (rw miss at there) (rw miss at inner)))
        ]
  ]

  grown-opens :
      (u : ℕ) (q : List ℕ) (j : ℕ)
      → role' u ≡ some q
      → has (grown.tables u j) pml_present ≡ true
      → leaf (length q) (grown.tables u j) ≡ false
      → (has (grown.tables u j) pml_writeable ≡ true)
        × (has (grown.tables u j) pml_execute_disable ≡ false)
  grown-opens u q j e there inner = elim (Bool-cases (u == a)) [
    | inl new ↦
        let zeroed : grown.tables u j ≡ 0 =
          ap (λ x. grown.tables x j) ((==_iff u a).0 new) ∙ new_entry j in
        absurd (true≢false (sym there ∙ ap (λ x. has x pml_present) zeroed ∙ zero-present))
    | inr old ↦
        let e' : role u ≡ some q = rw old at e in
        elim (hit-or-miss u q j e') [
          | inl (_, _, _, pointer) ↦
              rw pointer (pointer-writeable a frame, pointer-execute_disable a frame)
          | inr miss ↦ rw miss (tree.opens u q j e' (rw miss at there) (rw miss at inner))
        ]
  ]

  grown-IsTree : IsTree grown role'
  unfolding write
  grown-IsTree =
      let f = taken.found in
      record {
        root = rw taken.same_root (kept s.pml4 [] tree.root);
        aligned = λ u q e. elim (Bool-cases (u == a)) [
          | inl new ↦ omega (arith, (==_iff u a).0 new, frame)
          | inr old ↦ tree.aligned u q (rw old at e)
        ];
        points = grown-points;
        opens = grown-opens;
        in_use = λ page free.
            let apart : ((page * page_size == a) ≡ false) × (used s.frames.bitmap page ≡ false) =
              ground (arith, f.taken page, f.at, free) in
            rw apart.0 (tree.in_use page apart.1);
        covers = omega (arith, tree.covers, f.same_end, f.same_length);
        fits = omega (arith, tree.fits, f.same_end);
      }

  -- The new table maps nothing.
  new-walk : (depth : ℕ) (is : List ℕ) → walk grown.tables depth a is ≡ none
  unfolding walk
  new-walk depth [] = refl
  new-walk depth (j ∷ is) = rw (new_entry j, zero-present) refl

  grown-walk :
      (u : ℕ) (q is : List ℕ)
      → role u ≡ some q
      → walk grown.tables (length q) u is ≡ walk s.tables (length q) u is
  unfolding walk
  grown-walk u q [] e = refl
  grown-walk u q (j ∷ is) e = elim (hit-or-miss u q j e) [
    | inl (here, same, place, pointer) ↦
        rw
          (
            pointer,
            pointer-present a frame,
            place,
            pointer-leaf,
            pointer-address a frame,
            here,
            same,
            absent,
          )
          (new-walk (suc (length p)) is)
    | inr miss ↦ rw miss (elim (Bool-cases (has (s.tables u j) pml_present)) [
      | inr out ↦ rw out refl
      | inl there ↦ elim (Bool-cases (leaf (length q) (s.tables u j))) [
        | inl page ↦ rw (there, page) refl
        | inr inner ↦
            rw (there, inner)
              (grown-walk (bit_and (s.tables u j) pml_addr_mask) (j ∷ q) is
                (tree.points u q j e there inner))
      ]
    ])
  ]

  there-entry : grown.tables t i ≡ a + 3
  there-entry = entry t p i at ∙ ground arith

  grown-Provided : Provided s role t p i grown role'
  unfolding write
  grown-Provided = record {
    tree = grown-IsTree;
    keeps = kept;
    there = rw there-entry (pointer-present a frame);
    inner = rw there-entry pointer-leaf;
    same_entry = λ u q j e there. elim (hit-or-miss u q j e) [
      | inl (here, same, _, _) ↦ absurd (
          true≢false (
            sym there
            ∙ ap (λ x. has (s.tables x j) pml_present) here
            ∙ ap (λ x. has (s.tables t x) pml_present) same
            ∙ absent))
      | inr miss ↦ miss
    ];
    same_walk = grown-walk;
    same_root = taken.same_root;
    same_disable = taken.same_disable;
    fewer = taken.fewer;
    still_used = λ f h. ground (arith, taken.found.taken f, h);
  }

-- The tables that an entry needs are there afterwards, and every mapping is as before, if a frame is
-- left and the entry does not stand for a large page.
pub provide-Provided :
    (s : Paging) (role : Role) (t : ℕ) (p : List ℕ) (i : ℕ)
    → IsTree s role
    → role t ≡ some p
    → length p < 3
    → (has (s.tables t i) pml_present ≡ true → leaf (length p) (s.tables t i) ≡ false)
    → 1 ≤ unused s.frames
    → (role' : Role) × Provided s role t p i (provide t i s) role'
unfolding provide
provide-Provided s role t p i tree at short small some_left =
    elim (Bool-cases (has (s.tables t i) pml_present)) [
      | inl there ↦ rw there (
        role,
        record {
          tree = tree;
          keeps = λ u q e. e;
          there = there;
          inner = small there;
          same_entry = λ u q j e h. refl;
          same_walk = λ u q is e. refl;
          same_root = refl;
          same_disable = refl;
          fewer = omega arith;
          still_used = λ f h. h;
        },
      )
      | inr absent ↦
          let s1 = (take_one_frame s).1 in
          let a = (take_one_frame s).0 in
          let taken = take_one_frame-Taken s tree.covers some_left in
          rw absent (
            role' s s1 role tree t p i a at short absent taken,
            grown-Provided s s1 role tree t p i a at short absent taken,
          )
    ]
