-- ===== src/Util/Tree/Order.antt =====
-- The objects of a tree of util/tree.c in key order, and what rotations, insertion and deletion do
-- to that order.
use helos.Prelude.{
  ltb, Bool-cases, inl, inr, ◌∙◌, ℕ, ◌≡◌, refl, sym, List, [], ◌∷◌, ◌++◌, append-nil, append_assoc,
  arith,
}
use helos.Util.Tree.{
  Nodes, leaf, node, Father, of_left, of_right, NodePointer, plug, nodes_at, root_of, adjust_from,
  adjust, delete_from,
}

module _ {ℓ} {V : Type ℓ} where
  abbrev pub entries : Nodes V → List (ℕ × V)
  entries leaf = []
  entries (node l k p v r) = entries l ++ ((k, v) ∷ entries r)

  -- What the fathers hold before and after all that hangs below.
  abbrev pub before : List (Father V) → List (ℕ × V)
  before [] = []
  before (of_left k p v r ∷ up) = before up
  before (of_right l k p v ∷ up) = before up ++ (entries l ++ ((k, v) ∷ []))

  abbrev pub after : List (Father V) → List (ℕ × V)
  after [] = []
  after (of_left k p v r ∷ up) = ((k, v) ∷ entries r) ++ after up
  after (of_right l k p v ∷ up) = after up

  -- Before and after a node, in the whole tree.
  abbrev pub preceding : NodePointer V → List (ℕ × V)
  preceding n = before n.fathers ++ entries n.left

  abbrev pub following : NodePointer V → List (ℕ × V)
  following n = entries n.right ++ after n.fathers

  pub entries-plug :
      (t : Nodes V) (up : List (Father V))
      → entries (plug t up) ≡ before up ++ (entries t ++ after up)
  entries-plug t [] = sym (append-nil (entries t))
  entries-plug t (of_left k p v r ∷ up) = rw (entries-plug (node t k p v r) up) (simp append_assoc)
  entries-plug t (of_right l k p v ∷ up) = rw (entries-plug (node l k p v t) up) (simp append_assoc)

  pub entries-root_of :
      (n : NodePointer V) → entries (root_of n) ≡ preceding n ++ ((n.key, n.value) ∷ following n)
  entries-root_of n = rw (entries-plug (nodes_at n) n.fathers) (simp append_assoc)

  -- A node that an adjustment has moved up is between the same entries as before.
  adjust_from-entries :
      (l : Nodes V) (k p : ℕ) (v : V) (r : Nodes V) (up : List (Father V))
      → let n = adjust_from l k p v r up in
        (preceding n ≡ before up ++ entries l)
        × (following n ≡ entries r ++ after up)
        × (n.key ≡ k)
        × (n.value ≡ v)
  unfolding adjust_from
  adjust_from-entries l k p v r [] = (refl, refl, refl, refl)
  adjust_from-entries l k p v r (of_left fk fp fv fr ∷ up) = ground (
    arith,
    adjust_from-entries l k p v (node r fk fp fv fr) up,
    append_assoc (entries r) ((fk, fv) ∷ entries fr) (after up),
  )
  adjust_from-entries l k p v r (of_right fl fk fp fv ∷ up) = ground (
    arith,
    adjust_from-entries (node fl fk fp fv l) k p v r up,
    append_assoc (before up) (entries fl ++ ((fk, fv) ∷ [])) (entries l),
    append_assoc (entries fl) ((fk, fv) ∷ []) (entries l),
  )

  pub adjust-entries :
      (n : NodePointer V)
      → (preceding (adjust n) ≡ preceding n)
        × (following (adjust n) ≡ following n)
        × ((adjust n).key ≡ n.key)
        × ((adjust n).value ≡ n.value)
  unfolding adjust
  adjust-entries n = adjust_from-entries n.left n.key n.internal n.value n.right n.fathers

  pub delete_from-entries :
      (l : Nodes V) (k p : ℕ) (v : V) (r : Nodes V) (up : List (Father V))
      → entries (delete_from l k p v r up) ≡ (before up ++ entries l) ++ (entries r ++ after up)
  unfolding delete_from
  delete_from-entries leaf k p v r up = entries-plug r up ∙ simp append_assoc
  delete_from-entries (node ll lk lp lv lr) k p v leaf up =
      entries-plug (node ll lk lp lv lr) up ∙ simp append_assoc
  delete_from-entries (node ll lk lp lv lr) k p v (node rl rk rp rv rr) up =
      let in_left =
        delete_from-entries lr k p v (node rl rk rp rv rr) (of_right ll lk lp lv ∷ up) in
      let in_right =
        delete_from-entries (node ll lk lp lv lr) k p v rl (of_left rk rp rv rr ∷ up) in
      elim (Bool-cases (ltb lp rp)) [
        | inl e ↦ rw e (in_left ∙ simp append_assoc)
        | inr e ↦ rw e (in_right ∙ simp append_assoc)
      ]
