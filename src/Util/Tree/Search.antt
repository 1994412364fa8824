-- ===== src/Util/Tree/Search.antt =====
-- `tree_InsertNode`, `tree_Find` and `tree_Delete` of util/tree.c against a map in key order.
use helos.Prelude.{
  add64, subst, if◌then◌else◌, none, ◌↔◌, some, refl, inr, inr, ◌∙◌, inl, Order-cases, append-nil,
  append_assoc, ℕ, ◌<◌, ◌≡◌, sym, ap, Bool, true, false, List, [], ◌∷◌, ◌++◌,
}
use Prim.Native.Nat.{bit_xor}
use helos.Util.Tree.{
  Nodes, leaf, node, Father, of_left, of_right, NodePointer, Tree, plug, root_of, adjust,
  insert_nodes, insert_node,
}
use helos.Util.Tree.Order.{
  entries, before, after, preceding, following, entries-root_of, adjust-entries,
}
use helos.Util.Tree.Sorted.{
  AllBelow, AllAbove, IsSorted, AllBelow-append, AllAbove-append, AllBelow-mono, AllAbove-mono,
  IsSorted-split, insert_entry-IsSorted, insert_entry-new, insert_entry-old, lookup_entry-absent,
  lookup_entry-present, insert_entry, lookup_entry,
}

module _ {ℓ} {V : Type ℓ} where
  -- A search for `key` from nodes whose fathers leave only that key's place open.
  pub record Open (key : ℕ) (t : Nodes V) (up : List (Father V)) : Type ℓ where
    pub low : AllBelow key (before up)
    pub high : AllAbove key (after up)
    pub sorted : IsSorted (entries t)

  pub Open-left :
      (key : ℕ) (l : Nodes V) (k p : ℕ) (v : V) (r : Nodes V) (up : List (Father V))
      → key < k
      → Open key (node l k p v r) up
      → Open key l (of_left k p v r ∷ up)
  Open-left key l k p v r up h o =
      let s = IsSorted-split (entries l) k v (entries r) o.sorted in
      record {
        low = o.low;
        high =
            AllAbove-append key ((k, v) ∷ entries r) (after up)
              (h, AllAbove-mono key k (entries r) h s.high) o.high;
        sorted = s.sorted_low;
      }

  pub Open-right :
      (key : ℕ) (l : Nodes V) (k p : ℕ) (v : V) (r : Nodes V) (up : List (Father V))
      → k < key
      → Open key (node l k p v r) up
      → Open key r (of_right l k p v ∷ up)
  Open-right key l k p v r up h o =
      let s = IsSorted-split (entries l) k v (entries r) o.sorted in
      record {
        low = AllBelow-append key (before up) (entries l ++ ((k, v) ∷ [])) o.low (
            AllBelow-append key (entries l) ((k, v) ∷ []) (AllBelow-mono k key (entries l) h s.low)
              (h, tt));
        high = o.high;
        sorted = s.sorted_high;
      }

  -- The place of `key` in the tree that `t` and `up` make: between smaller and greater keys.
  pub record IsPlace (key : ℕ) (n : NodePointer V) : Type ℓ where
    pub key_is : n.key ≡ key
    pub low : AllBelow key (preceding n)
    pub high : AllAbove key (following n)

  -- What the place is for: a node that was there, with the whole tree as it is, or a new one.
  abbrev pub Holds : V → NodePointer V → Bool → Nodes V → List (Father V) → Type ℓ
  Holds fresh n true t up =
      (n.value ≡ fresh)
      × (n.left ≡ leaf)
      × (n.right ≡ leaf)
      × (before up ++ (entries t ++ after up) ≡ preceding n ++ following n)
  Holds fresh n false t up = root_of n ≡ plug t up

  pub IsPlace-here :
      (key : ℕ) (l : Nodes V) (k p : ℕ) (v : V) (r : Nodes V) (up : List (Father V))
      → key ≡ k
      → Open key (node l k p v r) up
      → IsPlace key (record { left = l; key = k; internal = p; value = v; right = r; fathers = up })
  IsPlace-here key l k p v r up e o =
      let s = IsSorted-split (entries l) k v (entries r) o.sorted in
      record {
        key_is = sym e;
        low = AllBelow-append key (before up) (entries l) o.low (rw e s.low);
        high = AllAbove-append key (entries r) (after up) (rw e s.high) o.high;
      }

  Holds-left :
      (fresh : V) (n : NodePointer V) (added : Bool) (l : Nodes V) (k p : ℕ) (v : V) (r : Nodes V)
      (up : List (Father V))
      → Holds fresh n added l (of_left k p v r ∷ up)
      → Holds fresh n added (node l k p v r) up
  Holds-left fresh n true l k p v r up h = (h.0, h.1, h.2, (simp append_assoc) ∙ h.3)
  Holds-left fresh n false l k p v r up h = h

  Holds-right :
      (fresh : V) (n : NodePointer V) (added : Bool) (l : Nodes V) (k p : ℕ) (v : V) (r : Nodes V)
      (up : List (Father V))
      → Holds fresh n added r (of_right l k p v ∷ up)
      → Holds fresh n added (node l k p v r) up
  Holds-right fresh n true l k p v r up h = (h.0, h.1, h.2, (simp append_assoc) ∙ h.3)
  Holds-right fresh n false l k p v r up h = h

  pub insert_nodes-IsPlace :
      (fresh : V) (prio key : ℕ) (t : Nodes V) (up : List (Father V))
      → Open key t up
      → let (n, added) = insert_nodes fresh prio key t up in
        IsPlace key n × Holds fresh n added t up
  unfolding insert_nodes
  insert_nodes-IsPlace fresh prio key leaf up o = (
    record { key_is = refl; low = rw append-nil o.low; high = o.high },
    (refl, refl, refl, simp append-nil),
  )
  insert_nodes-IsPlace fresh prio key (node l k p v r) up o = elim (Order-cases key k) [
    | inl (h, e) ↦
        let ih =
          insert_nodes-IsPlace fresh prio key l (of_left k p v r ∷ up)
            (Open-left key l k p v r up h o) in
        rw e (
          ih.0,
          Holds-left fresh (insert_nodes fresh prio key l (of_left k p v r ∷ up)).0 _ l k p v r up
              ih.1,
        )
    | inr (inl (h, e, e')) ↦
        let ih =
          insert_nodes-IsPlace fresh prio key r (of_right l k p v ∷ up)
            (Open-right key l k p v r up h o) in
        rw (e, e')
          (
            ih.0,
            Holds-right fresh (insert_nodes fresh prio key r (of_right l k p v ∷ up)).0 _ l k p v r
                up ih.1,
          )
    | inr (inr (h, e, e')) ↦ rw (e, e') (IsPlace-here key l k p v r up h o, refl)
  ]

  -- What `tree_InsertNode` owes its caller, of the entries before and after.
  pub record Inserted (fresh : V) (key : ℕ) (t : Tree V) (out : Tree V × NodePointer V × Bool)
      : Type ℓ where
    pub entries_are : entries out.0.root ≡ insert_entry key fresh (entries t.root)
    pub sorted : IsSorted (entries out.0.root)
    pub in_tree : root_of out.1 ≡ out.0.root
    pub key_is : out.1.key ≡ key
    pub object_is : lookup_entry key (entries out.0.root) ≡ some out.1.value
    pub added_iff : (out.2 ≡ true) ↔ (lookup_entry key (entries t.root) ≡ none)
    pub counted : out.0.size ≡ (if out.2 then add64 t.size 1 else t.size)

  Inserted-new :
      (fresh : V) (key : ℕ) (t : Tree V) (n : NodePointer V)
      → IsSorted (entries t.root)
      → IsPlace key n
      → Holds fresh n true t.root []
      → Inserted fresh key t
          (record { root = root_of (adjust n); size = add64 t.size 1 }, adjust n, true)
  Inserted-new fresh key t n s pl h = record {
    entries_are = at_place;
    sorted = subst IsSorted (sym at_place) (insert_entry-IsSorted key fresh (entries t.root) s);
    in_tree = refl;
    key_is = moved.2 ∙ pl.key_is;
    object_is =
        rw (shape, moved.3, h.0)
          (lookup_entry-present key fresh (preceding n) (following n) pl.low);
    added_iff = (
      (λ _. rw old (lookup_entry-absent key (preceding n) (following n) pl.low pl.high)),
      λ _. refl,
    );
    counted = refl;
  }
    where
      moved :
          (preceding (adjust n) ≡ preceding n)
          × (following (adjust n) ≡ following n)
          × ((adjust n).key ≡ n.key)
          × ((adjust n).value ≡ n.value)
      moved = adjust-entries n

      old : entries t.root ≡ preceding n ++ following n
      old = sym (append-nil (entries t.root)) ∙ h.3

      shape : entries (root_of (adjust n)) ≡ preceding n ++ ((key, fresh) ∷ following n)
      shape =
          entries-root_of (adjust n) ∙ rw (moved.0, moved.1, moved.2, moved.3, pl.key_is, h.0) refl

      at_place : entries (root_of (adjust n)) ≡ insert_entry key fresh (entries t.root)
      at_place =
          shape
          ∙ rw old (sym (insert_entry-new key fresh (preceding n) (following n) pl.low pl.high))

  pub Inserted-old :
      (fresh : V) (key : ℕ) (t : Tree V) (n : NodePointer V)
      → IsSorted (entries t.root)
      → IsPlace key n
      → root_of n ≡ t.root
      → Inserted fresh key t (record { root = root_of n; size = t.size }, n, false)
  Inserted-old fresh key t n s pl h = record {
    entries_are = at_place;
    sorted = subst IsSorted (sym (ap entries h)) s;
    in_tree = refl;
    key_is = pl.key_is;
    object_is = rw h present;
    added_iff = ((λ e. cc), λ e. cc (present, e));
    counted = refl;
  }
    where
      shape : entries t.root ≡ preceding n ++ ((key, n.value) ∷ following n)
      shape = ap entries (sym h) ∙ entries-root_of n ∙ rw pl.key_is refl

      present : lookup_entry key (entries t.root) ≡ some n.value
      present = rw shape (lookup_entry-present key n.value (preceding n) (following n) pl.low)

      at_place : entries (root_of n) ≡ insert_entry key fresh (entries t.root)
      at_place =
          ap entries h
          ∙ rw shape (sym (insert_entry-old key fresh n.value (preceding n) (following n) pl.low))

  -- In a tree whose keys ascend in order, `tree_InsertNode` inserts into the map: an object that
  -- was there stays, `*added` tells whether the key was missing, the node returned stands in the
  -- new tree under that key with the object that a lookup finds, the keys still ascend, and `size`
  -- grows by one exactly when a node was added.
  pub insert_node-Inserted :
      (fresh : V) (random key : ℕ) (t : Tree V)
      → IsSorted (entries t.root)
      → Inserted fresh key t (insert_node fresh random t key)
  unfolding insert_node
  insert_node-Inserted fresh random key t s =
      go (insert_nodes fresh (bit_xor random key) key t.root []) (
        insert_nodes-IsPlace fresh (bit_xor random key) key t.root []
          (record { low = tt; high = tt; sorted = s }))
    where
      go :
          (out : NodePointer V × Bool)
          → IsPlace key out.0 × Holds fresh out.0 out.1 t.root []
          → let n' = if out.1 then adjust out.0 else out.0 in
            Inserted fresh key t (
              record { root = root_of n'; size = if out.1 then add64 t.size 1 else t.size },
              n',
              out.1,
            )
      go (n, true) (pl, h) = Inserted-new fresh key t n s pl h
      go (n, false) (pl, h) = Inserted-old fresh key t n s pl h
