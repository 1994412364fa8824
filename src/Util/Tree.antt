-- ===== src/Util/Tree.antt =====
-- util/tree.c, util/tree.h and util/tree_internal.h: a search tree that is kept balanced as a treap
-- (`HELOS_UTIL_TREE_TYPE_TREAP` of config.h). Keys are `uintptr_t`. A `tree_Node *` is a node with
-- its way to the root: the chain of its `father` pointers, each with the fields of that father.
pub mod Sorted
pub mod Order
pub mod Balance
pub mod Search
pub mod NullAdded
pub mod Find
pub mod Walk
pub mod Client
mod Tests
use Prim.Native.Nat.{bit_xor}
use helos.Prelude.{
  add64, ℕ, ◌+◌, ◌-◌, ◌*◌, ◌/◌, ap, Bool, true, false, not, ◌&&◌, Option, none, some, List, [], ◌∷◌,
  ltb, ◌==◌, if◌then◌else◌, take,
}

-- The nodes below a pointer: `left`, `key`, `internal`, `data`, `right`; a leaf is NULL.
pub data Nodes {ℓ} (V : Type ℓ) : Type ℓ where
  leaf : Nodes V
  node : Nodes V → ℕ → ℕ → V → Nodes V → Nodes V

-- A father seen from a son: from its left son it has the right one left to tell, and so on.
pub data Father {ℓ} (V : Type ℓ) : Type ℓ where
  of_left : ℕ → ℕ → V → Nodes V → Father V
  of_right : Nodes V → ℕ → ℕ → V → Father V

-- `tree_Node *`, not NULL. `fathers` begins with the nearest one and ends with the root.
pub record NodePointer {ℓ} (V : Type ℓ) : Type ℓ where
  pub left : Nodes V
  pub key : ℕ
  pub internal : ℕ
  pub value : V
  pub right : Nodes V
  pub fathers : List (Father V)

-- `tree_Tree`, but for `objectSize`: a V is an object.
pub record Tree {ℓ} (V : Type ℓ) : Type ℓ where
  pub root : Nodes V
  pub size : ℕ

unfoldable pub create {ℓ} : {V : Type ℓ} → Tree V
create = record { root = leaf; size = 0 }

module _ {ℓ} {V : Type ℓ} where
  abbrev pub priority : Father V → ℕ
  priority (of_left k p v r) = p
  priority (of_right l k p v) = p

  -- The nodes of a father once `son` hangs where the son that looked up at it did.
  abbrev pub hang : Nodes V → Father V → Nodes V
  hang son (of_left k p v r) = node son k p v r
  hang son (of_right l k p v) = node l k p v son

  -- The whole tree, found by going up.
  abbrev pub plug : Nodes V → List (Father V) → Nodes V
  plug t [] = t
  plug t (f ∷ up) = plug (hang t f) up

  abbrev pub nodes_at : NodePointer V → Nodes V
  nodes_at n = node n.left n.key n.internal n.value n.right

  abbrev pub root_of : NodePointer V → Nodes V
  root_of n = plug (nodes_at n) n.fathers

  -- `__tree_InsertNodes`: the node found or made, and `*added`. `fresh` is what the new node's
  -- `data` happens to hold.
  pub insert_nodes : V → ℕ → ℕ → Nodes V → List (Father V) → NodePointer V × Bool
  insert_nodes fresh priority key leaf up = (
    record {
      left = leaf;
      key = key;
      internal = priority;
      value = fresh;
      right = leaf;
      fathers = up;
    },
    true,
  )
  insert_nodes fresh priority key (node l k p v r) up =
      let in_left = insert_nodes fresh priority key l (of_left k p v r ∷ up) in
      let in_right = insert_nodes fresh priority key r (of_right l k p v ∷ up) in
      if ltb key k
      then in_left
      else if ltb k key
      then in_right
      else (record { left = l; key = k; internal = p; value = v; right = r; fathers = up }, false)

  -- `__tree_Rotate`: the node goes up, and its father becomes a son. At the root nothing happens.
  unfoldable pub rotate : NodePointer V → NodePointer V
  rotate n = elim n.fathers [
    | [] ↦ n
    | of_left k p v r ∷ up ↦ record n { right = node n.right k p v r; fathers = up }
    | of_right l k p v ∷ up ↦ record n { left = node l k p v n.left; fathers = up }
  ]

  -- `__tree_treap_Adjust`, a loop over the fathers; one is used up by each rotation.
  pub adjust_from : Nodes V → ℕ → ℕ → V → Nodes V → List (Father V) → NodePointer V
  adjust_from l k p v r [] = record {
    left = l;
    key = k;
    internal = p;
    value = v;
    right = r;
    fathers = [];
  }
  adjust_from l k p v r (of_left fk fp fv fr ∷ up) =
      let rest = adjust_from l k p v (node r fk fp fv fr) up in
      if ltb p fp then rest else record {
        left = l;
        key = k;
        internal = p;
        value = v;
        right = r;
        fathers = of_left fk fp fv fr ∷ up;
      }
  adjust_from l k p v r (of_right fl fk fp fv ∷ up) =
      let rest = adjust_from (node fl fk fp fv l) k p v r up in
      if ltb p fp then rest else record {
        left = l;
        key = k;
        internal = p;
        value = v;
        right = r;
        fathers = of_right fl fk fp fv ∷ up;
      }

  pub adjust : NodePointer V → NodePointer V
  adjust n = adjust_from n.left n.key n.internal n.value n.right n.fathers

  -- `tree_InsertNode` with a pointer for `added`; `random` is the value of `random_Rand()`.
  pub insert_node : V → ℕ → Tree V → ℕ → Tree V × NodePointer V × Bool
  insert_node fresh random t key =
      let (n, added) = insert_nodes fresh (bit_xor random key) key t.root [] in
      let n' = if added then adjust n else n in
      (record { root = root_of n'; size = if added then add64 t.size 1 else t.size }, n', added)

  -- `tree_InsertNode` with NULL for `added`. Its `if (*added)` then reads the byte at address 0,
  -- which is not written: whether that is set is an argument.
  pub insert_node_null : V → ℕ → Bool → Tree V → ℕ → Tree V × NodePointer V
  insert_node_null fresh random at_null t key =
      let (n, added) = insert_nodes fresh (bit_xor random key) key t.root [] in
      let n' = if at_null then adjust n else n in
      (record { root = root_of n'; size = if added then add64 t.size 1 else t.size }, n')

  -- `__tree_FindNode`.
  unfoldable pub find_nodes : ℕ → Nodes V → List (Father V) → Option (NodePointer V)
  find_nodes key leaf up = none
  find_nodes key (node l k p v r) up =
      let in_left = find_nodes key l (of_left k p v r ∷ up) in
      let in_right = find_nodes key r (of_right l k p v ∷ up) in
      if ltb key k
      then in_left
      else if ltb k key
      then in_right
      else some (record { left = l; key = k; internal = p; value = v; right = r; fathers = up })

  unfoldable pub find_node : Tree V → ℕ → Option (NodePointer V)
  find_node t key = find_nodes key t.root []

  -- `tree_Find`: the object, or NULL without a node.
  abbrev pub object : Option (NodePointer V) → Option V
  object none = none
  object (some n) = some n.value

  unfoldable pub find : Tree V → ℕ → Option V
  find t key = object (find_node t key)

  -- `tree_Delete`. While both sons are there the one with the smaller `internal` is rotated above
  -- the node; then the one son left, or NULL, takes the node's place. `size` stays as it is.
  pub delete_from : Nodes V → ℕ → ℕ → V → Nodes V → List (Father V) → Nodes V
  delete_from leaf k p v r up = plug r up
  delete_from (node ll lk lp lv lr) k p v leaf up = plug (node ll lk lp lv lr) up
  delete_from (node ll lk lp lv lr) k p v (node rl rk rp rv rr) up =
      let left_up = delete_from lr k p v (node rl rk rp rv rr) (of_right ll lk lp lv ∷ up) in
      let right_up = delete_from (node ll lk lp lv lr) k p v rl (of_left rk rp rv rr ∷ up) in
      if ltb lp rp then left_up else right_up

  pub delete : Tree V → NodePointer V → Tree V
  delete t n = record t { root = delete_from n.left n.key n.internal n.value n.right n.fathers }

  -- The loops of `tree_FirstNode` and `tree_LastNode`, from the node given.
  pub leftmost : Nodes V → ℕ → ℕ → V → Nodes V → List (Father V) → NodePointer V
  leftmost leaf k p v r up = record {
    left = leaf;
    key = k;
    internal = p;
    value = v;
    right = r;
    fathers = up;
  }
  leftmost (node ll lk lp lv lr) k p v r up = leftmost ll lk lp lv lr (of_left k p v r ∷ up)

  pub rightmost : Nodes V → ℕ → ℕ → V → Nodes V → List (Father V) → NodePointer V
  rightmost l k p v leaf up = record {
    left = l;
    key = k;
    internal = p;
    value = v;
    right = leaf;
    fathers = up;
  }
  rightmost l k p v (node rl rk rp rv rr) up = rightmost rl rk rp rv rr (of_right l k p v ∷ up)

  first_of_nodes : Nodes V → List (Father V) → Option (NodePointer V)
  first_of_nodes leaf up = none
  first_of_nodes (node l k p v r) up = some (leftmost l k p v r up)

  last_of_nodes : Nodes V → List (Father V) → Option (NodePointer V)
  last_of_nodes leaf up = none
  last_of_nodes (node l k p v r) up = some (rightmost l k p v r up)

  pub first_node : Tree V → Option (NodePointer V)
  unfolding first_of_nodes
  first_node t = first_of_nodes t.root []

  pub last_node : Tree V → Option (NodePointer V)
  unfolding last_of_nodes
  last_node t = last_of_nodes t.root []

  -- `while (result->father && __tree_Tell(result) == __tree_Right) result = result->father;`, then
  -- `result->father`.
  pub climb_right : Nodes V → List (Father V) → Option (NodePointer V)
  climb_right t [] = none
  climb_right t (of_left k p v r ∷ up) =
      some (record { left = t; key = k; internal = p; value = v; right = r; fathers = up })
  climb_right t (of_right l k p v ∷ up) = climb_right (node l k p v t) up

  -- The same with `__tree_Left`.
  pub climb_left : Nodes V → List (Father V) → Option (NodePointer V)
  climb_left t [] = none
  climb_left t (of_left k p v r ∷ up) = climb_left (node t k p v r) up
  climb_left t (of_right l k p v ∷ up) =
      some (record { left = l; key = k; internal = p; value = v; right = t; fathers = up })

  pub next : NodePointer V → Option (NodePointer V)
  next n = elim n.right [
    | leaf ↦ climb_right (nodes_at n) n.fathers
    | node l k p v r ↦
        some (leftmost l k p v r (of_right n.left n.key n.internal n.value ∷ n.fathers))
  ]

  pub previous : NodePointer V → Option (NodePointer V)
  previous n = elim n.left [
    | leaf ↦ climb_left (nodes_at n) n.fathers
    | node l k p v r ↦
        some (rightmost l k p v r (of_left n.key n.internal n.value n.right ∷ n.fathers))
  ]
