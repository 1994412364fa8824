-- ===== src/Util/Tree/NullAdded.antt =====
-- `tree_InsertNode` of util/tree.c where `added` is NULL, as smp/kthread.c calls it.
use Prim.Native.Nat.{bit_xor}
use helos.Prelude.{
  ℕ, ◌≡◌, refl, sym, subst, ◌∙◌, Bool, true, false, some, [], ◌∷◌, ◌++◌, append-nil, if◌then◌else◌,
}
use helos.Util.Tree.{NodePointer, Tree, root_of, adjust, insert_nodes, insert_node_null}
use helos.Util.Tree.Order.{entries, preceding, following, entries-root_of, adjust-entries}
use helos.Util.Tree.Sorted.{
  IsSorted, insert_entry, lookup_entry, insert_entry-IsSorted, insert_entry-new,
  lookup_entry-present,
}
use helos.Util.Tree.Search.{IsPlace, Holds, insert_nodes-IsPlace, Inserted-old}

module _ {ℓ} {V : Type ℓ} where
  -- A node in its tree, which holds the map of `t` with `key` inserted.
  pub record Placed (fresh : V) (key : ℕ) (t : Tree V) (n : NodePointer V) : Type ℓ where
    pub entries_are : entries (root_of n) ≡ insert_entry key fresh (entries t.root)
    pub sorted : IsSorted (entries (root_of n))
    pub object_is : lookup_entry key (entries (root_of n)) ≡ some n.value

  -- Rotations do no harm, whether they are called for or not.
  Placed-adjust :
      (fresh : V) (key : ℕ) (t : Tree V) (n : NodePointer V)
      → Placed fresh key t n
      → Placed fresh key t (adjust n)
  Placed-adjust fresh key t n p = record {
    entries_are = same ∙ p.entries_are;
    sorted = subst IsSorted (sym same) p.sorted;
    object_is = rw (same, moved.3) p.object_is;
  }
    where
      moved :
          (preceding (adjust n) ≡ preceding n)
          × (following (adjust n) ≡ following n)
          × ((adjust n).key ≡ n.key)
          × ((adjust n).value ≡ n.value)
      moved = adjust-entries n

      same : entries (root_of (adjust n)) ≡ entries (root_of n)
      same =
          entries-root_of (adjust n)
          ∙ rw (moved.0, moved.1, moved.2, moved.3) (sym (entries-root_of n))

  Placed-either :
      (fresh : V) (key : ℕ) (t : Tree V) (n : NodePointer V)
      → Placed fresh key t n
      → (b : Bool) → Placed fresh key t (if b then adjust n else n)
  Placed-either fresh key t n p true = Placed-adjust fresh key t n p
  Placed-either fresh key t n p false = p

  Placed-nodes :
      (fresh : V) (key : ℕ) (t : Tree V) (out : NodePointer V × Bool)
      → IsSorted (entries t.root)
      → IsPlace key out.0 × Holds fresh out.0 out.1 t.root []
      → Placed fresh key t out.0
  Placed-nodes fresh key t (n, false) s (pl, h) =
      let i = Inserted-old fresh key t n s pl h in
      record { entries_are = i.entries_are; sorted = i.sorted; object_is = i.object_is }
  Placed-nodes fresh key t (n, true) s (pl, h) = record {
    entries_are = at_place;
    sorted = subst IsSorted (sym at_place) (insert_entry-IsSorted key fresh (entries t.root) s);
    object_is = rw (shape, h.0) (lookup_entry-present key fresh (preceding n) (following n) pl.low);
  }
    where
      old : entries t.root ≡ preceding n ++ following n
      old = sym (append-nil (entries t.root)) ∙ h.3

      shape : entries (root_of n) ≡ preceding n ++ ((key, fresh) ∷ following n)
      shape = entries-root_of n ∙ rw (pl.key_is, h.0) refl

      at_place : entries (root_of n) ≡ insert_entry key fresh (entries t.root)
      at_place =
          shape
          ∙ rw old (sym (insert_entry-new key fresh (preceding n) (following n) pl.low pl.high))

  -- Whatever the byte is, the map gets the key, the keys still ascend, and the node stands in the
  -- tree.
  pub insert_node_null-Placed :
      (fresh : V) (random : ℕ) (at_null : Bool) (t : Tree V) (key : ℕ)
      → IsSorted (entries t.root)
      → let (t', n) = insert_node_null fresh random at_null t key in
        (t'.root ≡ root_of n) × Placed fresh key t n
  unfolding insert_node_null
  insert_node_null-Placed fresh random at_null t key s =
      let out = insert_nodes fresh (bit_xor random key) key t.root [] in
      let p = Placed-nodes fresh key t out s (
        insert_nodes-IsPlace fresh (bit_xor random key) key t.root []
          (record { low = tt; high = tt; sorted = s })) in
      (refl, Placed-either fresh key t out.0 p at_null)
