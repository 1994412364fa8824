-- ===== src/Memory/PageMap/Put.antt =====
-- The tables on the way to a page of 4 KiB, and the entry that memory/paging_map.c writes at the end
-- of it.
use Prim.Native.Nat.{bit_and}
use helos.Prelude.{
  ℕ, suc, ◌+◌, ◌≤◌, ◌<◌, ◌≡◌, ◌≢◌, ◌⊎◌, refl, ap, sym, ◌∙◌, inl, inr, true, false, ◌&&◌, some, List,
  [], ◌∷◌, ◌==◌, arith, length, Bool-cases, true≢false,
}
use helos.Memory.Physical.Count.{unused}
use helos.Memory.PageMap.{Paging, has, write, enter, pml_addr_mask, pml_present}
use helos.Memory.PageMap.Walk.{leaf, walk, IsTree, IsSmall}
use helos.Memory.PageMap.Grow.{Role, Provided, provide-Provided}

-- The entry `i` of the table `t` at `p` stands for the table `child`.
pub record Link (s : Paging) (role : Role) (t : ℕ) (p : List ℕ) (i child : ℕ) : Type 0 where
  pub at : role t ≡ some p
  pub there : has (s.tables t i) pml_present ≡ true
  pub inner : leaf (length p) (s.tables t i) ≡ false
  pub address : bit_and (s.tables t i) pml_addr_mask ≡ child
  pub child_at : role child ≡ some (i ∷ p)

pub Link-walk :
    {s : Paging} {role : Role} {t : ℕ} {p : List ℕ} {i child : ℕ} (is : List ℕ)
    → Link s role t p i child
    → walk s.tables (length p) t (i ∷ is) ≡ walk s.tables (suc (length p)) child is
unfolding walk
Link-walk is l = rw (l.there, l.inner, l.address) refl

pub Link-Provided :
    {s s' : Paging} {role role' : Role} {t u : ℕ} {p q : List ℕ} {i j child : ℕ}
    → Link s role t p i child
    → Provided s role u q j s' role'
    → Link s' role' t p i child
Link-Provided {t} {p} {i} {child} l g =
    let same = g.same_entry t p i l.at l.there in
    record {
      at = g.keeps t p l.at;
      there = rw same l.there;
      inner = rw same l.inner;
      address = rw same l.address;
      child_at = g.keeps child (i ∷ p) l.child_at;
    }

small-inner :
    (tables : ℕ → ℕ → ℕ) (depth t i j : ℕ) (is : List ℕ)
    → IsSmall (walk tables depth t (i ∷ j ∷ is))
    → has (tables t i) pml_present ≡ true
    → leaf depth (tables t i) ≡ false
unfolding walk
small-inner tables depth t i j is small there = elim (Bool-cases (leaf depth (tables t i))) [
  | inr inner ↦ inner
  | inl page ↦ absurd (rw (there, page) at small)
]

-- `enter` leads to the table, and there is still no large page on the rest of the way.
pub record Entered (s : Paging) (role : Role) (t : ℕ) (p : List ℕ) (i : ℕ) (r : ℕ × Paging)
    (role' : Role) : Type 0 where
  pub provided : Provided s role t p i r.1 role'
  pub link : Link r.1 role' t p i r.0

pub enter-Entered :
    (s : Paging) (role : Role) (t : ℕ) (p : List ℕ) (i j : ℕ) (is : List ℕ)
    → IsTree s role
    → role t ≡ some p
    → length p < 3
    → IsSmall (walk s.tables (length p) t (i ∷ j ∷ is))
    → 1 ≤ unused s.frames
    → (role' : Role) × Entered s role t p i (enter t i s) role'
unfolding enter
enter-Entered s role t p i j is tree at short small some_left =
    let (role', g) =
      provide-Provided s role t p i tree at short (small-inner s.tables (length p) t i j is small)
        some_left in
    (
      role',
      record {
        provided = g;
        link = record {
          at = g.keeps t p at;
          there = g.there;
          inner = g.inner;
          address = refl;
          child_at = g.tree.points t p i (g.keeps t p at) g.there g.inner;
        };
      },
    )

pub Entered-IsSmall :
    {s : Paging} {role role' : Role} {t : ℕ} {p : List ℕ} {i : ℕ} {r : ℕ × Paging} (is : List ℕ)
    → role t ≡ some p
    → Entered s role t p i r role'
    → IsSmall (walk s.tables (length p) t (i ∷ is))
    → IsSmall (walk r.1.tables (suc (length p)) r.0 is)
Entered-IsSmall {t} {p} {i} is at e small =
    rw (← Link-walk is e.link, e.provided.same_walk t p (i ∷ is) at) small

length-zero : (is : List ℕ) → length is ≡ 0 → is ≡ []
length-zero [] h = refl
length-zero (i ∷ is) h = absurd (omega arith)

itself : (n : ℕ) → (n == n) ≡ true
itself n = ground arith

-- Indices, put before those on the way.
abbrev pub onto : List ℕ → List ℕ → List ℕ
onto [] q = q
onto (i ∷ is) q = onto is (i ∷ q)

-- An entry is written to a table of the last level.
module _ (s : Paging) (role : Role) (tree : IsTree s role) (t : ℕ) (p : List ℕ) (i e : ℕ)
    (at : role t ≡ some p) (last : length p ≡ 3) (present : has e pml_present ≡ true) where
  abbrev put : Paging
  put = write t i e s

  -- Another entry, or the one that is written.
  entry-cases :
      (u : ℕ) (q : List ℕ) (j : ℕ)
      → role u ≡ some q
      → ((u ≡ t) × (j ≡ i) × (q ≡ p) × (put.tables u j ≡ e)) ⊎ (put.tables u j ≡ s.tables u j)
  unfolding write
  entry-cases u q j h = elim (Bool-cases (u == t && j == i)) [
    | inl hit ↦
        let same : (u ≡ t) × (j ≡ i) = ground arith in
        let place : some q ≡ some p = sym h ∙ ap role same.0 ∙ at in
        inl (same.0, same.1, cc, rw hit refl)
    | inr miss ↦ inr (rw miss refl)
  ]

  leaf-last : (f : ℕ) → leaf (length p) f ≡ true
  unfolding leaf
  leaf-last f = rw last refl

  pub put-IsTree : IsTree put role
  unfolding write
  put-IsTree = record {
    root = tree.root;
    aligned = tree.aligned;
    points = λ u q j h there inner. elim (entry-cases u q j h) [
      | inl (_, _, place, is_e) ↦ absurd (
          true≢false (
            sym (leaf-last (put.tables u j))
            ∙ ap (λ x. leaf (length x) (put.tables u j)) (sym place)
            ∙ inner))
      | inr miss ↦ rw miss (tree.points u q j h (rw miss at there) (rw miss at inner))
    ];
    opens = λ u q j h there inner. elim (entry-cases u q j h) [
      | inl (_, _, place, is_e) ↦ absurd (
          true≢false (
            sym (leaf-last (put.tables u j))
            ∙ ap (λ x. leaf (length x) (put.tables u j)) (sym place)
            ∙ inner))
      | inr miss ↦ rw miss (tree.opens u q j h (rw miss at there) (rw miss at inner))
    ];
    in_use = tree.in_use;
    covers = tree.covers;
    fits = tree.fits;
  }

  pub put-Link :
      {u : ℕ} {q : List ℕ} {j child : ℕ}
      → length q < 3
      → Link s role u q j child
      → Link put role u q j child
  put-Link {u} {q} {j} {child} short l = elim (entry-cases u q j l.at) [
    | inl (_, _, place, _) ↦ absurd (omega (arith, ap (λ x. length x) place, last, short))
    | inr miss ↦ record {
      at = l.at;
      there = rw miss l.there;
      inner = rw miss l.inner;
      address = rw miss l.address;
      child_at = l.child_at;
    }
  ]

  pub put-walk_here : walk put.tables 3 t (i ∷ []) ≡ some (e, [])
  unfolding walk leaf write
  put-walk_here = rw (itself t, itself i, present) refl

  pub put-walk_other :
      (u : ℕ) (q is : List ℕ)
      → role u ≡ some q
      → length is + length q ≡ 4
      → onto is q ≢ i ∷ p
      → walk put.tables (length q) u is ≡ walk s.tables (length q) u is
  unfolding walk
  put-walk_other u q [] h four other = refl
  put-walk_other u q (j ∷ is) h four other = elim (entry-cases u q j h) [
    | inl (_, same, place, _) ↦
        let ends : is ≡ [] = length-zero is (omega (arith, ap (λ x. length x) place, last, four)) in
        absurd
          (other (ap (λ x. onto x (j ∷ q)) ends ∙ ap (λ x. x ∷ q) same ∙ ap (λ x. i ∷ x) place))
    | inr miss ↦ rw miss (elim (Bool-cases (has (s.tables u j) pml_present)) [
      | inr out ↦ rw out refl
      | inl there ↦ elim (Bool-cases (leaf (length q) (s.tables u j))) [
        | inl page ↦ rw (there, page) refl
        | inr inner ↦
            rw (there, inner)
              (put-walk_other (bit_and (s.tables u j) pml_addr_mask) (j ∷ q) is
                (tree.points u q j h there inner) (omega arith) other)
      ]
    ])
  ]
