-- ===== src/Util/Tree/Find.antt =====
-- `tree_FindNode`, `tree_Find` and `tree_Delete` of util/tree.c against a map in key order.
use helos.Prelude.{
  subst, append-nil, ℕ, ◌+◌, ◌≡◌, refl, sym, ap, ◌∙◌, inl, inr, Option, none, some, List, [], ◌∷◌,
  ◌++◌, append_assoc, arith, Order-cases, length, length-append,
}
use helos.Util.Tree.{
  Nodes, leaf, node, Father, of_left, of_right, NodePointer, Tree, object, plug, root_of,
  find_nodes, find_node, find, delete,
}
use helos.Util.Tree.Order.{
  entries, before, after, preceding, following, entries-root_of, delete_from-entries,
}
use helos.Util.Tree.Sorted.{
  IsSorted, Splits, IsSorted-split, IsSorted-append, lookup_entry-absent, lookup_entry-present,
  remove_entry-present, lookup_entry, remove_entry,
}
use helos.Util.Tree.Search.{Open, Open-left, Open-right, IsPlace, IsPlace-here}

module _ {ℓ} {V : Type ℓ} where
  abbrev Finds : ℕ → Nodes V → List (Father V) → Option (NodePointer V) → Type ℓ
  Finds key t up none = lookup_entry key (before up ++ (entries t ++ after up)) ≡ none
  Finds key t up (some n) = IsPlace key n × (root_of n ≡ plug t up)

  Finds-left :
      (o : Option (NodePointer V)) (key : ℕ) (l : Nodes V) (k p : ℕ) (v : V) (r : Nodes V)
      (up : List (Father V))
      → Finds key l (of_left k p v r ∷ up) o
      → Finds key (node l k p v r) up o
  Finds-left none key l k p v r up h = ap (lookup_entry key) (simp append_assoc) ∙ h
  Finds-left (some n) key l k p v r up h = h

  Finds-right :
      (o : Option (NodePointer V)) (key : ℕ) (l : Nodes V) (k p : ℕ) (v : V) (r : Nodes V)
      (up : List (Father V))
      → Finds key r (of_right l k p v ∷ up) o
      → Finds key (node l k p v r) up o
  Finds-right none key l k p v r up h = ap (lookup_entry key) (simp append_assoc) ∙ h
  Finds-right (some n) key l k p v r up h = h

  find_nodes-Finds :
      (key : ℕ) (t : Nodes V) (up : List (Father V))
      → Open key t up
      → Finds key t up (find_nodes key t up)
  unfolding find_nodes
  find_nodes-Finds key leaf up o = lookup_entry-absent key (before up) (after up) o.low o.high
  find_nodes-Finds key (node l k p v r) up o = elim (Order-cases key k) [
    | inl (h, e) ↦
        let up' = of_left k p v r ∷ up in
        let ih = find_nodes-Finds key l up' (Open-left key l k p v r up h o) in
        rw e (Finds-left (find_nodes key l up') key l k p v r up ih)
    | inr (inl (h, e, e')) ↦
        let up' = of_right l k p v ∷ up in
        let ih = find_nodes-Finds key r up' (Open-right key l k p v r up h o) in
        rw (e, e') (Finds-right (find_nodes key r up') key l k p v r up ih)
    | inr (inr (h, e, e')) ↦ rw (e, e') (IsPlace-here key l k p v r up h o, refl)
  ]

  find_node-Finds :
      (t : Tree V) (key : ℕ) → IsSorted (entries t.root) → Finds key t.root [] (find_node t key)
  unfolding find_node
  find_node-Finds t key s =
      find_nodes-Finds key t.root [] (record { low = tt; high = tt; sorted = s })

  -- A node's own entry, in the list of all.
  pub entries-split :
      (t : Tree V) (n : NodePointer V)
      → root_of n ≡ t.root
      → entries t.root ≡ preceding n ++ ((n.key, n.value) ∷ following n)
  entries-split t n e = ap entries (sym e) ∙ entries-root_of n

  -- In a tree whose keys ascend in order, `tree_Find` finds the object that stands under the key,
  -- and NULL exactly if there is none.
  pub find-lookup :
      (t : Tree V) (key : ℕ)
      → IsSorted (entries t.root)
      → find t key ≡ lookup_entry key (entries t.root)
  unfolding find
  find-lookup t key s = go (find_node t key) (find_node-Finds t key s)
    where
      go :
          (o : Option (NodePointer V))
          → Finds key t.root [] o
          → object o ≡ lookup_entry key (entries t.root)
      go none h = sym (rw append-nil at h)
      go (some n) (pl, e) = sym (
          rw (entries-split t n e, pl.key_is)
            (lookup_entry-present key n.value (preceding n) (following n) pl.low))

  -- What `tree_Delete` owes its caller.
  pub record Deleted (t : Tree V) (n : NodePointer V) (t' : Tree V) : Type ℓ where
    pub entries_are : entries t'.root ≡ remove_entry n.key (entries t.root)
    pub sorted : IsSorted (entries t'.root)
    pub gone : lookup_entry n.key (entries t'.root) ≡ none

  -- In a tree whose keys ascend in order, `tree_Delete` of one of its nodes takes that key out of
  -- the map and nothing else, the keys still ascend, and the key is no longer found.
  pub delete-Deleted :
      (t : Tree V) (n : NodePointer V)
      → IsSorted (entries t.root)
      → root_of n ≡ t.root
      → Deleted t n (delete t n)
  unfolding delete
  delete-Deleted t n s e = record {
    entries_are =
        left_over
        ∙ rw (entries-split t n e)
            (sym (remove_entry-present n.key n.value (preceding n) (following n) split.low));
    sorted = rw left_over (IsSorted-append n.key (preceding n) (following n) split);
    gone =
        rw left_over (lookup_entry-absent n.key (preceding n) (following n) split.low split.high);
  }
    where
      split : Splits n.key (preceding n) (following n)
      split =
          IsSorted-split (preceding n) n.key n.value (following n) (rw (entries-split t n e) at s)

      left_over : entries (delete t n).root ≡ preceding n ++ following n
      left_over = delete_from-entries n.left n.key n.internal n.value n.right n.fathers

  -- `tree_Delete` takes one entry away and leaves `size` alone: where `size` was the number of
  -- objects, it is one too many afterwards.
  pub delete-size :
      (t : Tree V) (n : NodePointer V)
      → root_of n ≡ t.root
      → t.size ≡ length (entries t.root)
      → (delete t n).size ≡ length (entries (delete t n).root) + 1
  unfolding delete
  delete-size t n e h = omega (
    arith,
    ap length (entries-split t n e),
    ap length (delete_from-entries n.left n.key n.internal n.value n.right n.fathers),
    length-append (preceding n) (following n),
    length-append (preceding n) ((n.key, n.value) ∷ following n),
  )

  -- A node that is found is one of the tree, under the key sought.
  pub find_node-here :
      (t : Tree V) (key : ℕ) (n : NodePointer V)
      → IsSorted (entries t.root)
      → find_node t key ≡ some n
      → (root_of n ≡ t.root) × (n.key ≡ key)
  find_node-here t key n s e =
      let f = subst (Finds key t.root []) e (find_node-Finds t key s) in (f.1, f.0.key_is)
