-- ===== src/Util/Tree/Tests.antt =====
-- Runs of util/tree.c on a small tree, and the theorems at it.
use helos.Prelude.{ℕ, ◌+◌, ◌≡◌, refl, some, List, [], ◌∷◌, arith, length}
use mathlib.Core.List.{reverse}
use helos.Util.Tree.{
  leaf, node, NodePointer, Tree, create, insert_nodes, adjust_from, adjust, insert_node, find_nodes,
  find_node, find, delete_from, delete, leftmost, first_node, last_node, climb_right, next,
  previous,
}
use helos.Util.Tree.Order.{entries}
use helos.Util.Tree.Sorted.{IsSorted, lookup_entry}
use helos.Util.Tree.Search.{Inserted, insert_node-Inserted}
use helos.Util.Tree.Find.{Deleted, delete-Deleted, delete-size}
use helos.Util.Tree.Walk.{visit, visit-entries}
use helos.Util.Tree.Client.{Op, insert, remove, IsTreap, step, run, map_run, tree-run_refines}

-- 1 and 3 under 2.
abbrev three : Tree ℕ
three = record { root = node (node leaf 1 7 10 leaf) 2 5 20 (node leaf 3 9 30 leaf); size = 3 }

abbrev middle : NodePointer ℕ
middle = record {
  left = node leaf 1 7 10 leaf;
  key = 2;
  internal = 5;
  value = 20;
  right = node leaf 3 9 30 leaf;
  fathers = [];
}

three-IsSorted : IsSorted (entries three.root)
three-IsSorted = omega arith

-- The new node has the smallest `internal`, 2 xor 0, and is rotated to the root.
insert_rotates :
    (insert_node {V = ℕ} 0 2 (record { root = node leaf 5 9 50 leaf; size = 1 }) 0).0.root
    ≡ node leaf 0 2 0 (node leaf 5 9 50 leaf)
unfolding insert_node insert_nodes adjust adjust_from
insert_rotates = refl

delete-middle : (delete three middle).root ≡ node leaf 1 7 10 (node leaf 3 9 30 leaf)
unfolding delete delete_from
delete-middle = refl

visit-three : visit next 3 (first_node three) ≡ (1, 10) ∷ (2, 20) ∷ (3, 30) ∷ []
unfolding visit next first_node leftmost climb_right
visit-three = refl

run_two :
    find {V = ℕ} (run create (insert 10 6 1 ∷ insert 20 1 2 ∷ remove 1 ∷ insert 30 0 2 ∷ [])) 2
    ≡ some 20
unfolding run step create insert_node insert_nodes adjust adjust_from find find_node find_nodes
    delete delete_from
run_two = refl

insert_node-Inserted_example : Inserted 0 4 three (insert_node 0 8 three 4)
insert_node-Inserted_example = insert_node-Inserted 0 8 4 three three-IsSorted

delete-Deleted_example : Deleted three middle (delete three middle)
delete-Deleted_example = delete-Deleted three middle three-IsSorted refl

delete-size_example : (delete three middle).size ≡ length (entries (delete three middle).root) + 1
delete-size_example = delete-size three middle refl refl

visit-entries_example :
    (visit next 3 (first_node three) ≡ (1, 10) ∷ (2, 20) ∷ (3, 30) ∷ [])
    × (visit previous 3 (last_node three) ≡ reverse ((1, 10) ∷ (2, 20) ∷ (3, 30) ∷ []))
visit-entries_example = visit-entries three 3 (omega arith)

abbrev script : List (Op ℕ)
script = insert 10 6 1 ∷ insert 20 1 2 ∷ remove 1 ∷ []

tree-run_refines_example :
    IsTreap (run create script) × (find (run create script) 2 ≡ lookup_entry 2 (map_run [] script))
tree-run_refines_example = tree-run_refines script 2
