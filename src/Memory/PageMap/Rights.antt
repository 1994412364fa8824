-- ===== src/Memory/PageMap/Rights.antt =====
-- In the tables of memory/paging_map.c the last entry alone decides what may be done to a page.
use Prim.Native.Nat.{bit_and}
use mathlib.Core.Option.{some_inj}
use helos.Prelude.{
  ℕ, ◌≡◌, refl, ap, ◌∙◌, inl, inr, Bool, true, false, not, ◌&&◌, Option, none, some, List, [], ◌∷◌,
  arith, Bool-cases, none≢some, length,
}
use helos.Memory.PageMap.{
  Paging, has, pml_addr_mask, pml_present, pml_writeable, pml_execute_disable,
}
use helos.Memory.PageMap.Walk.{
  Access, IsTree, access, allows, find_page, indices, leaf, lets_write, lets_execute, page_address,
  translate, walk,
}

and-true : (b : Bool) → (b && true) ≡ b
and-true true = refl
and-true false = refl

-- The rights by the last entry.
abbrev pub last_access : Bool → ℕ → Option (ℕ × List ℕ) → Option Access
last_access xd v none = none
last_access xd v (some (e, is)) = some (record {
  address = page_address v e is;
  writable = has e pml_writeable;
  executable = not (xd && has e pml_execute_disable);
})

module _ (s : Paging) (role : ℕ → Option (List ℕ)) (tree : IsTree s role) where
  -- A test that an entry for a table passes depends on the last entry.
  allows-last :
      (test : ℕ → Bool)
      → ((e : ℕ) → has e pml_writeable ≡ true → has e pml_execute_disable ≡ false → test e ≡ true)
      → (u : ℕ) (q is : List ℕ) (e : ℕ) (js : List ℕ) → role u ≡ some q
      → walk s.tables (length q) u is ≡ some (e, js)
      → allows test s.tables (length q) u is ≡ test e
  unfolding allows walk
  allows-last test passes u q [] e js at found = absurd (none≢some found)
  allows-last test passes u q (i ∷ is) e js at found =
      elim (Bool-cases (has (s.tables u i) pml_present)) [
        | inr out ↦ absurd (none≢some (rw out at found))
        | inl there ↦ elim (Bool-cases (leaf (length q) (s.tables u i))) [
          | inl page ↦
              let same : s.tables u i ≡ e =
                ap (λ r. r.0) (some_inj.0 (rw (there, page) at found)) in
              rw page (and-true (test (s.tables u i)) ∙ ap test same)
          | inr inner ↦
              let o = tree.opens u q i at there inner in
              rw (inner, passes (s.tables u i) o.0 o.1)
                (allows-last test passes (bit_and (s.tables u i) pml_addr_mask) (i ∷ q) is e js
                  (tree.points u q i at there inner) (rw (there, inner) at found))
        ]
      ]

  pub translate-last : (v : ℕ) → translate s v ≡ last_access s.execute_disable v (find_page s v)
  unfolding translate find_page
  translate-last v = go (walk s.tables 0 s.pml4 (indices v)) refl
    where
      go :
          (o : Option (ℕ × List ℕ))
          → walk s.tables 0 s.pml4 (indices v) ≡ o
          → access v
              (allows lets_write s.tables 0 s.pml4 (indices v))
              (allows (lets_execute s.execute_disable) s.tables 0 s.pml4 (indices v))
              o
            ≡ last_access s.execute_disable v o
      go none found = refl
      go (some (e, js)) found =
          let w =
            allows-last lets_write (λ f yes' no'. yes') s.pml4 [] (indices v) e js tree.root
              found in
          let x =
            allows-last (lets_execute s.execute_disable) (λ f yes' no'. ground (arith, no')) s.pml4
              [] (indices v) e js tree.root found in
          rw (w, x) refl
