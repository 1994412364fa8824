-- ===== src/Util/Tree/Balance.antt =====
-- The heap order that makes a tree of util/tree.c a treap: no node has a smaller `internal` than its
-- father. Insertion and deletion keep it.
use Prim.Native.Nat.{bit_xor}
use helos.Prelude.{
  sym, subst, ◌≡◌, ℕ, ◌≤◌, inl, inr, Bool, true, false, List, [], ◌∷◌, arith, ltb, if◌then◌else◌,
  Bool-cases, Order-cases,
}
use helos.Util.Tree.{
  Nodes, leaf, node, Father, of_left, of_right, NodePointer, Tree, priority, plug, nodes_at,
  root_of, adjust_from, adjust, insert_nodes, insert_node, delete_from, delete,
}

module _ {ℓ} {V : Type ℓ} where
  abbrev AtLeast : ℕ → Nodes V → Type 0
  AtLeast q leaf = Unit
  AtLeast q (node l k p v r) = q ≤ p

  abbrev pub IsHeap : Nodes V → Type 0
  IsHeap leaf = Unit
  IsHeap (node l k p v r) = AtLeast p l × AtLeast p r × IsHeap l × IsHeap r

  -- `t` may hang below its next father; a node with `internal` p may.
  abbrev Fits : Nodes V → List (Father V) → Type 0
  Fits t [] = Unit
  Fits t (f ∷ up) = AtLeast (priority f) t

  abbrev Under : List (Father V) → ℕ → Type 0
  Under [] p = Unit
  Under (f ∷ up) p = priority f ≤ p

  abbrev IsHeapPath : List (Father V) → Type 0
  IsHeapPath [] = Unit
  IsHeapPath (of_left k p v r ∷ up) = AtLeast p r × IsHeap r × Under up p × IsHeapPath up
  IsHeapPath (of_right l k p v ∷ up) = AtLeast p l × IsHeap l × Under up p × IsHeapPath up

  Fits-mono : (q : ℕ) (t : Nodes V) (up : List (Father V)) → AtLeast q t → Under up q → Fits t up
  Fits-mono q leaf [] a u = tt
  Fits-mono q leaf (f ∷ up) a u = tt
  Fits-mono q (node l k p v r) [] a u = tt
  Fits-mono q (node l k p v r) (f ∷ up) a u = omega arith

  Fits-node :
      (l : Nodes V) (k p : ℕ) (v : V) (r : Nodes V) (up : List (Father V))
      → Under up p
      → Fits (node l k p v r) up
  Fits-node l k p v r [] u = tt
  Fits-node l k p v r (f ∷ up) u = u

  Under-node :
      (l : Nodes V) (k p : ℕ) (v : V) (r : Nodes V) (up : List (Father V))
      → Fits (node l k p v r) up
      → Under up p
  Under-node l k p v r [] u = tt
  Under-node l k p v r (f ∷ up) u = u

  plug-IsHeap :
      (t : Nodes V) (up : List (Father V))
      → IsHeap t
      → Fits t up
      → IsHeapPath up
      → IsHeap (plug t up)
  plug-IsHeap t [] h f u = h
  plug-IsHeap t (of_left k p v r ∷ up) h f u =
      plug-IsHeap (node t k p v r) up (f, u.0, h, u.1) (Fits-node t k p v r up u.2) u.3
  plug-IsHeap t (of_right l k p v ∷ up) h f u =
      plug-IsHeap (node l k p v t) up (u.0, f, u.1, h) (Fits-node l k p v t up u.2) u.3

  -- All is in order but, maybe, between a node and its father.
  record Adjustable (l : Nodes V) (p : ℕ) (r : Nodes V) (up : List (Father V)) : Type 0 where
    at_left : AtLeast p l
    at_right : AtLeast p r
    heap_left : IsHeap l
    heap_right : IsHeap r
    fits_left : Fits l up
    fits_right : Fits r up
    path : IsHeapPath up

  adjust_from-IsHeap :
      (l : Nodes V) (k p : ℕ) (v : V) (r : Nodes V) (up : List (Father V))
      → Adjustable l p r up
      → IsHeap (root_of (adjust_from l k p v r up))
  unfolding adjust_from
  adjust_from-IsHeap l k p v r [] a = (a.at_left, a.at_right, a.heap_left, a.heap_right)
  adjust_from-IsHeap l k p v r (of_left fk fp fv fr ∷ up) a = elim (Bool-cases (ltb p fp)) [
    | inl e ↦ rw e (
        adjust_from-IsHeap l k p v (node r fk fp fv fr) up (record {
          at_left = a.at_left;
          at_right = ground arith;
          heap_left = a.heap_left;
          heap_right = (a.fits_right, a.path.0, a.heap_right, a.path.1);
          fits_left = Fits-mono fp l up a.fits_left a.path.2;
          fits_right = Fits-node r fk fp fv fr up a.path.2;
          path = a.path.3;
        }))
    | inr e ↦ rw e (
        plug-IsHeap (node l k p v r) (of_left fk fp fv fr ∷ up)
          (a.at_left, a.at_right, a.heap_left, a.heap_right) (ground arith) a.path)
  ]
  adjust_from-IsHeap l k p v r (of_right fl fk fp fv ∷ up) a = elim (Bool-cases (ltb p fp)) [
    | inl e ↦ rw e (
        adjust_from-IsHeap (node fl fk fp fv l) k p v r up (record {
          at_left = ground arith;
          at_right = a.at_right;
          heap_left = (a.path.0, a.fits_left, a.path.1, a.heap_left);
          heap_right = a.heap_right;
          fits_left = Fits-node fl fk fp fv l up a.path.2;
          fits_right = Fits-mono fp r up a.fits_right a.path.2;
          path = a.path.3;
        }))
    | inr e ↦ rw e (
        plug-IsHeap (node l k p v r) (of_right fl fk fp fv ∷ up)
          (a.at_left, a.at_right, a.heap_left, a.heap_right) (ground arith) a.path)
  ]

  -- What a search for the place hands to the adjustment.
  abbrev Placed : NodePointer V → Bool → Type 0
  Placed n true = Adjustable n.left n.internal n.right n.fathers
  Placed n false = IsHeap (root_of n)

  Fits-leaf : (up : List (Father V)) → Fits leaf up
  Fits-leaf [] = tt
  Fits-leaf (f ∷ up) = tt

  insert_nodes-Placed :
      (fresh : V) (prio key : ℕ) (t : Nodes V) (up : List (Father V))
      → IsHeap t
      → Fits t up
      → IsHeapPath up
      → let (n, added) = insert_nodes fresh prio key t up in Placed n added
  unfolding insert_nodes
  insert_nodes-Placed fresh prio key leaf up h f u = record {
    at_left = tt;
    at_right = tt;
    heap_left = tt;
    heap_right = tt;
    fits_left = Fits-leaf up;
    fits_right = Fits-leaf up;
    path = u;
  }
  insert_nodes-Placed fresh prio key (node l k p v r) up h f u = elim (Order-cases key k) [
    | inl (_, e) ↦ rw e (
        insert_nodes-Placed fresh prio key l (of_left k p v r ∷ up) h.2 h.0
          (h.1, h.3, Under-node l k p v r up f, u))
    | inr (inl (_, e, e')) ↦
        rw (e, e')
          (insert_nodes-Placed fresh prio key r (of_right l k p v ∷ up) h.3 h.1
            (h.0, h.2, Under-node l k p v r up f, u))
    | inr (inr (_, e, e')) ↦ rw (e, e') (plug-IsHeap (node l k p v r) up h f u)
  ]

  adjusted-IsHeap :
      (n : NodePointer V) (added : Bool)
      → Placed n added
      → IsHeap (root_of (if added then adjust n else n))
  unfolding adjust
  adjusted-IsHeap n true h = adjust_from-IsHeap n.left n.key n.internal n.value n.right n.fathers h
  adjusted-IsHeap n false h = h

  pub insert_node-IsHeap :
      (fresh : V) (random key : ℕ) (t : Tree V)
      → IsHeap t.root
      → IsHeap (insert_node fresh random t key).0.root
  unfolding insert_node
  insert_node-IsHeap fresh random key t h =
      adjusted-IsHeap (insert_nodes fresh (bit_xor random key) key t.root []).0
        (insert_nodes fresh (bit_xor random key) key t.root []).1
        (insert_nodes-Placed fresh (bit_xor random key) key t.root [] h tt tt)

  delete_from-IsHeap :
      (l : Nodes V) (k p : ℕ) (v : V) (r : Nodes V) (up : List (Father V))
      → IsHeap l
      → IsHeap r
      → Fits l up
      → Fits r up
      → IsHeapPath up
      → IsHeap (delete_from l k p v r up)
  unfolding delete_from
  delete_from-IsHeap leaf k p v r up hl hr fl fr u = plug-IsHeap r up hr fr u
  delete_from-IsHeap (node ll lk lp lv lr) k p v leaf up hl hr fl fr u =
      plug-IsHeap (node ll lk lp lv lr) up hl fl u
  delete_from-IsHeap (node ll lk lp lv lr) k p v (node rl rk rp rv rr) up hl hr fl fr u =
      elim (Bool-cases (ltb lp rp)) [
        | inl e ↦ rw e (
            delete_from-IsHeap lr k p v (node rl rk rp rv rr) (of_right ll lk lp lv ∷ up) hl.3 hr
              hl.1 (ground arith) (hl.0, hl.2, Under-node ll lk lp lv lr up fl, u))
        | inr e ↦ rw e (
            delete_from-IsHeap (node ll lk lp lv lr) k p v rl (of_left rk rp rv rr ∷ up) hl hr.2
              (ground arith) hr.0 (hr.1, hr.3, Under-node rl rk rp rv rr up fr, u))
      ]

  record Unplugged (t : Nodes V) (up : List (Father V)) : Type 0 where
    heap : IsHeap t
    fits : Fits t up
    path : IsHeapPath up

  Unplugged-plug : (t : Nodes V) (up : List (Father V)) → IsHeap (plug t up) → Unplugged t up
  Unplugged-plug t [] h = record { heap = h; fits = tt; path = tt }
  Unplugged-plug t (of_left k p v r ∷ up) h =
      let u = Unplugged-plug (node t k p v r) up h in
      record {
        heap = u.heap.2;
        fits = u.heap.0;
        path = (u.heap.1, u.heap.3, Under-node t k p v r up u.fits, u.path);
      }
  Unplugged-plug t (of_right l k p v ∷ up) h =
      let u = Unplugged-plug (node l k p v t) up h in
      record {
        heap = u.heap.3;
        fits = u.heap.1;
        path = (u.heap.0, u.heap.2, Under-node l k p v t up u.fits, u.path);
      }

  pub delete-IsHeap :
      (t : Tree V) (n : NodePointer V)
      → root_of n ≡ t.root
      → IsHeap t.root
      → IsHeap (delete t n).root
  unfolding delete
  delete-IsHeap t n e h =
      let u = Unplugged-plug (nodes_at n) n.fathers (subst IsHeap (sym e) h) in
      let under = Under-node n.left n.key n.internal n.value n.right n.fathers u.fits in
      delete_from-IsHeap n.left n.key n.internal n.value n.right n.fathers u.heap.2 u.heap.3
        (Fits-mono n.internal n.left n.fathers u.heap.0 under)
        (Fits-mono n.internal n.right n.fathers u.heap.1 under) u.path
