-- ===== src/Util/Tree/Client.antt =====
-- A client of util/tree.c that inserts keys and deletes the nodes it finds.
use helos.Prelude.{sym, ◌∙◌, ℕ, ◌≡◌, refl, ap, subst, Option, none, some, List, [], ◌∷◌}
use helos.Util.Tree.{NodePointer, Tree, object, create, insert_node, find_node, find, delete}
use helos.Util.Tree.Order.{entries}
use helos.Util.Tree.Sorted.{
  IsSorted, insert_entry, remove_entry, lookup_entry, remove_entry-missing,
}
use helos.Util.Tree.Balance.{IsHeap, insert_node-IsHeap, delete-IsHeap}
use helos.Util.Tree.Search.{insert_node-Inserted}
use helos.Util.Tree.Find.{find-lookup, find_node-here, delete-Deleted}

-- `insert` with what the new object and `random_Rand()` happen to be; `remove` is
-- `tree_Delete(t, tree_FindNode(t, key))` where the node is there.
pub data Op {ℓ} (V : Type ℓ) : Type ℓ where
  insert : V → ℕ → ℕ → Op V
  remove : ℕ → Op V

module _ {ℓ} {V : Type ℓ} where
  delete_found : Tree V → Option (NodePointer V) → Tree V
  delete_found t none = t
  delete_found t (some n) = delete t n

  unfoldable pub step : Tree V → Op V → Tree V
  unfolding delete_found
  step t (insert fresh random key) = (insert_node fresh random t key).0
  step t (remove key) = delete_found t (find_node t key)

  unfoldable pub run : Tree V → List (Op V) → Tree V
  run t [] = t
  run t (op ∷ ops) = run (step t op) ops

  -- The same on a list of keys with their objects.
  pub map_step : List (ℕ × V) → Op V → List (ℕ × V)
  map_step es (insert fresh random key) = insert_entry key fresh es
  map_step es (remove key) = remove_entry key es

  pub map_run : List (ℕ × V) → List (Op V) → List (ℕ × V)
  map_run es [] = es
  map_run es (op ∷ ops) = map_run (map_step es op) ops

  pub record IsTreap (t : Tree V) : Type ℓ where
    pub sorted : IsSorted (entries t.root)
    pub heap : IsHeap t.root

  -- What a call leaves behind.
  record Steps (es : List (ℕ × V)) (t : Tree V) : Type ℓ where
    treap : IsTreap t
    holds : entries t.root ≡ es

  step-Steps :
      (t : Tree V) (op : Op V) → IsTreap t → Steps (map_step (entries t.root) op) (step t op)
  unfolding step map_step find
  step-Steps t (insert fresh random key) v =
      let i = insert_node-Inserted fresh random key t v.sorted in
      record {
        treap = record { sorted = i.sorted; heap = insert_node-IsHeap fresh random key t v.heap };
        holds = i.entries_are;
      }
  step-Steps t (remove key) v = go (find_node t key) refl
    where
      go :
          (o : Option (NodePointer V))
          → find_node t key ≡ o
          → Steps (remove_entry key (entries t.root)) (delete_found t o)
      go none e =
          let absent : lookup_entry key (entries t.root) ≡ none =
            sym (find-lookup t key v.sorted) ∙ ap object e in
          record { treap = v; holds = sym (remove_entry-missing key (entries t.root) absent) }
      go (some n) e =
          let (here, key_is) = find_node-here t key n v.sorted e in
          let d = delete-Deleted t n v.sorted here in
          record {
            treap = record { sorted = d.sorted; heap = delete-IsHeap t n here v.heap };
            holds = d.entries_are ∙ ap (λ k. remove_entry k (entries t.root)) key_is;
          }

  run-Steps :
      (ops : List (Op V)) (t : Tree V)
      → IsTreap t
      → Steps (map_run (entries t.root) ops) (run t ops)
  unfolding run map_run
  run-Steps [] t v = record { treap = v; holds = refl }
  run-Steps (op ∷ ops) t v =
      let s = step-Steps t op v in
      subst (λ es. Steps (map_run es ops) (run (step t op) ops)) s.holds
        (run-Steps ops (step t op) s.treap)

  -- Whatever keys a client inserts and deletes in a tree from `tree_Create`, and whatever the random
  -- numbers are: keys ascend in order, no node has a smaller `internal` than its father, and
  -- `tree_Find` finds what a map would hold after the same insertions and deletions, each insertion
  -- leaving an object that is there in place.
  pub tree-run_refines :
      (ops : List (Op V)) (key : ℕ)
      → IsTreap (run create ops) × (find (run create ops) key ≡ lookup_entry key (map_run [] ops))
  unfolding create
  tree-run_refines ops key =
      let s = run-Steps ops create (record { sorted = tt; heap = tt }) in
      (s.treap, find-lookup (run create ops) key s.treap.sorted ∙ ap (lookup_entry key) s.holds)
