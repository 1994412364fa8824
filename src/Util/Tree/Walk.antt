-- ===== src/Util/Tree/Walk.antt =====
-- `tree_FirstNode`, `tree_LastNode`, `tree_Node_Next` and `tree_Node_Previous` of util/tree.c: a
-- caller's loop over the nodes sees every object, in key order.
use helos.Prelude.{
  ℕ, zero, suc, ◌≤◌, ◌≡◌, refl, sym, ap, ◌∙◌, Option, none, some, List, [], ◌∷◌, ◌++◌, append-nil,
  append_assoc, arith, length, length-append,
}
use mathlib.Core.List.{reverse, reverse-append}
use helos.Util.Tree.{
  Nodes, leaf, node, Father, of_left, of_right, NodePointer, Tree, plug, root_of, leftmost,
  rightmost, first_of_nodes, last_of_nodes, first_node, last_node, climb_right, climb_left, next,
  previous,
}
use helos.Util.Tree.Order.{entries, before, after, preceding, following}

module _ {ℓ} {V : Type ℓ} where
  abbrev pub entry_of : NodePointer V → ℕ × V
  entry_of n = (n.key, n.value)

  -- `n` stands first, or last, among `es`, and belongs to the tree `whole`.
  abbrev pub StartsAt : Nodes V → List (ℕ × V) → Option (NodePointer V) → Type ℓ
  StartsAt whole es none = es ≡ []
  StartsAt whole es (some n) = (es ≡ entry_of n ∷ following n) × (root_of n ≡ whole)

  abbrev EndsAt : Nodes V → List (ℕ × V) → Option (NodePointer V) → Type ℓ
  EndsAt whole es none = es ≡ []
  EndsAt whole es (some n) = (es ≡ preceding n ++ (entry_of n ∷ [])) × (root_of n ≡ whole)

  leftmost-StartsAt :
      (l : Nodes V) (k p : ℕ) (v : V) (r : Nodes V) (up : List (Father V))
      → StartsAt
          (plug (node l k p v r) up)
          (entries (node l k p v r) ++ after up)
          (some (leftmost l k p v r up))
  unfolding leftmost
  leftmost-StartsAt leaf k p v r up = (refl, refl)
  leftmost-StartsAt (node ll lk lp lv lr) k p v r up =
      let ih = leftmost-StartsAt ll lk lp lv lr (of_left k p v r ∷ up) in
      ((simp append_assoc) ∙ ih.0, ih.1)

  rightmost-EndsAt :
      (r : Nodes V) (l : Nodes V) (k p : ℕ) (v : V) (up : List (Father V))
      → EndsAt
          (plug (node l k p v r) up)
          (before up ++ entries (node l k p v r))
          (some (rightmost l k p v r up))
  unfolding rightmost
  rightmost-EndsAt leaf l k p v up =
      (sym (append_assoc (before up) (entries l) ((k, v) ∷ [])), refl)
  rightmost-EndsAt (node rl rk rp rv rr) l k p v up =
      let ih = rightmost-EndsAt rr rl rk rp rv (of_right l k p v ∷ up) in
      ((simp append_assoc) ∙ ih.0, ih.1)

  climb_right-StartsAt :
      (t : Nodes V) (up : List (Father V)) → StartsAt (plug t up) (after up) (climb_right t up)
  unfolding climb_right
  climb_right-StartsAt t [] = refl
  climb_right-StartsAt t (of_left k p v r ∷ up) = (refl, refl)
  climb_right-StartsAt t (of_right l k p v ∷ up) = climb_right-StartsAt (node l k p v t) up

  climb_left-EndsAt :
      (t : Nodes V) (up : List (Father V)) → EndsAt (plug t up) (before up) (climb_left t up)
  unfolding climb_left
  climb_left-EndsAt t [] = refl
  climb_left-EndsAt t (of_left k p v r ∷ up) = climb_left-EndsAt (node t k p v r) up
  climb_left-EndsAt t (of_right l k p v ∷ up) =
      (sym (append_assoc (before up) (entries l) ((k, v) ∷ [])), refl)

  pub next_at :
      (l : Nodes V) (k p : ℕ) (v : V) (r : Nodes V) (up : List (Father V))
      → let n : NodePointer V = record {
        left = l;
        key = k;
        internal = p;
        value = v;
        right = r;
        fathers = up;
      } in
        StartsAt (root_of n) (following n) (next n)
  unfolding next
  next_at l k p v leaf up = climb_right-StartsAt (node l k p v leaf) up
  next_at l k p v (node rl rk rp rv rr) up =
      leftmost-StartsAt rl rk rp rv rr (of_right l k p v ∷ up)

  previous_at :
      (l : Nodes V) (k p : ℕ) (v : V) (r : Nodes V) (up : List (Father V))
      → let n : NodePointer V = record {
        left = l;
        key = k;
        internal = p;
        value = v;
        right = r;
        fathers = up;
      } in
        EndsAt (root_of n) (preceding n) (previous n)
  unfolding previous
  previous_at leaf k p v r up = rw append-nil (climb_left-EndsAt (node leaf k p v r) up)
  previous_at (node ll lk lp lv lr) k p v r up =
      rightmost-EndsAt lr ll lk lp lv (of_left k p v r ∷ up)

  -- The loop `for (n = first; n; n = step(n))` for at most `fuel` rounds, with what it visits.
  unfoldable pub visit :
      (NodePointer V → Option (NodePointer V)) → ℕ → Option (NodePointer V) → List (ℕ × V)
  visit step fuel none = []
  visit step zero (some n) = []
  visit step (suc fuel) (some n) = entry_of n ∷ visit step fuel (step n)

  visit-next :
      (fuel : ℕ) (whole : Nodes V) (es : List (ℕ × V)) (o : Option (NodePointer V))
      → StartsAt whole es o
      → length es ≤ fuel
      → visit next fuel o ≡ es
  unfolding visit
  visit-next fuel whole es none h f = sym h
  visit-next zero whole es (some n) (e, _) f = absurd (omega (arith, ap length e))
  visit-next (suc fuel) whole es (some n) (e, _) f = rw e (
      ap (λ l. entry_of n ∷ l)
        (visit-next fuel (root_of n) (following n) (next n)
          (next_at n.left n.key n.internal n.value n.right n.fathers) (omega (arith, ap length e))))

  visit-previous :
      (fuel : ℕ) (whole : Nodes V) (es : List (ℕ × V)) (o : Option (NodePointer V))
      → EndsAt whole es o
      → length es ≤ fuel
      → visit previous fuel o ≡ reverse es
  unfolding visit
  visit-previous fuel whole es none h f = rw h
  visit-previous zero whole es (some n) (e, _) f =
      absurd (omega (arith, ap length e, length-append (preceding n) (entry_of n ∷ [])))
  visit-previous (suc fuel) whole es (some n) (e, _) f =
      rw (e, reverse-append (preceding n) (entry_of n ∷ []))
        (ap (λ l. entry_of n ∷ l)
          (visit-previous fuel (root_of n) (preceding n) (previous n)
            (previous_at n.left n.key n.internal n.value n.right n.fathers)
            (omega (arith, ap length e, length-append (preceding n) (entry_of n ∷ [])))))

  first_of_nodes-StartsAt : (t : Nodes V) → StartsAt t (entries t) (first_of_nodes t [])
  unfolding first_of_nodes
  first_of_nodes-StartsAt leaf = refl
  first_of_nodes-StartsAt (node l k p v r) = rw append-nil at (leftmost-StartsAt l k p v r [])

  pub first_node-StartsAt : (t : Tree V) → StartsAt t.root (entries t.root) (first_node t)
  unfolding first_node
  first_node-StartsAt t = first_of_nodes-StartsAt t.root

  last_of_nodes-EndsAt : (t : Nodes V) → EndsAt t (entries t) (last_of_nodes t [])
  unfolding last_of_nodes
  last_of_nodes-EndsAt leaf = refl
  last_of_nodes-EndsAt (node l k p v r) = rightmost-EndsAt r l k p v []

  -- With rounds enough for the objects of the tree, the loop from `tree_FirstNode` by
  -- `tree_Node_Next` ends and visits every key and object once, in key order; the one from
  -- `tree_LastNode` by `tree_Node_Previous` visits the same in the opposite order.
  pub visit-entries :
      (t : Tree V) (fuel : ℕ)
      → length (entries t.root) ≤ fuel
      → (visit next fuel (first_node t) ≡ entries t.root)
        × (visit previous fuel (last_node t) ≡ reverse (entries t.root))
  unfolding first_node last_node
  visit-entries t fuel h = (
    visit-next fuel t.root (entries t.root) (first_node t) (first_of_nodes-StartsAt t.root) h,
    visit-previous fuel t.root (entries t.root) (last_node t) (last_of_nodes-EndsAt t.root) h,
  )
