-- ===== src/Smp/Runs/Start.antt =====
-- What the pointer write of `smp_thread_Start` in smp/kthread.c does to the waiting threads.
use helos.Prelude.{
  Bool, ℕ, ◌+◌, ◌≤◌, ◌≡◌, sym, ap, subst, ◌∙◌, inl, inr, Bool, none, some, List, [], ◌∷◌, ◌++◌,
  arith, ◌==◌, if◌then◌else◌, Option-cases,
}
use mathlib.Core.Option.{some_inj}
use helos.Util.Tree.{insert_node_null, NodePointer, Tree, root_of}
use helos.Util.Tree.Order.{entries, preceding, following, entries-root_of}
use helos.Util.Tree.Sorted.{IsSorted, lookup_entry, insert_entry, IsSorted-split, IsSorted-join}
use helos.Util.Tree.NullAdded.{Placed, insert_node_null-Placed}
use helos.Smp.Thread.{put_pointer}
use helos.Smp.Switch.Insert.{count, count-insert_entry, insert_entry-taken}

count-append :
    (a k t : ℕ) (xs ys : List (ℕ × ℕ))
    → count a (xs ++ ((k, t) ∷ ys)) ≡ count a xs + ((if a == t then 1 else 0) + count a ys)
unfolding count
count-append a k t [] ys = omega arith
count-append a k t ((j, u) ∷ xs) ys = omega (arith, count-append a k t xs ys)

lookup-insert_entry_own :
    (key t : ℕ) (es : List (ℕ × ℕ))
    → lookup_entry key es ≡ none
    → lookup_entry key (insert_entry key t es) ≡ some t
unfolding lookup_entry insert_entry
lookup-insert_entry_own key t [] free = ground arith
lookup-insert_entry_own key t ((k, u) ∷ es) free = ground (arith, lookup-insert_entry_own key t es)

-- The thread waits, perhaps in the place of another, and no thread waits more often otherwise.
pub record Enters (t : ℕ) (tree tree' : Tree ℕ) : Type 0 where
  pub sorted : IsSorted (entries tree'.root)
  pub bounded :
      (a : ℕ)
      → count a (entries tree'.root) ≤ (if a == t then 1 else 0) + count a (entries tree.root)

module _ (t key : ℕ) (tree : Tree ℕ) (s : IsSorted (entries tree.root)) (n : NodePointer ℕ)
    (i : Placed t key tree n) where
  shape : entries (root_of n) ≡ preceding n ++ ((n.key, n.value) ∷ following n)
  shape = entries-root_of n

  written : entries (root_of (record n { value = t })) ≡ preceding n ++ ((n.key, t) ∷ following n)
  written = entries-root_of (record n { value = t })

  written-bounded :
      (a : ℕ)
      → count a (entries (root_of (record n { value = t })))
        ≤ (if a == t then 1 else 0) + count a (entries tree.root)
  written-bounded a =
      let before_it = count-append a n.key n.value (preceding n) (following n) in
      let after_it = count-append a n.key t (preceding n) (following n) in
      let all : count a (entries (root_of n)) ≡ count a (insert_entry key t (entries tree.root)) =
        ap (count a) i.entries_are in
      elim (Option-cases (lookup_entry key (entries tree.root))) [
        | inl free ↦
            let value : n.value ≡ t = some_inj.0 (
              sym i.object_is
              ∙ ap (lookup_entry key) i.entries_are
              ∙ lookup-insert_entry_own key t (entries tree.root) free) in
            rw written (
              omega (
                arith,
                before_it,
                after_it,
                all,
                ap (count a) shape,
                count-insert_entry a key t (entries tree.root) free,
                ap (λ u. count a (preceding n ++ ((n.key, u) ∷ following n))) value,
              ))
        | inr (u, taken) ↦ rw written (
            omega (
              arith,
              before_it,
              after_it,
              all,
              ap (count a) shape,
              ap (count a) (insert_entry-taken key t u (entries tree.root) s taken),
            ))
      ]

  written-Enters :
      (size : ℕ) → Enters t tree (record { root = root_of (record n { value = t }); size = size })
  written-Enters size = record {
    sorted = subst IsSorted (sym written) (
        IsSorted-join (preceding n) n.key t (following n) (
          IsSorted-split (preceding n) n.key n.value (following n)
            (subst IsSorted shape i.sorted)));
    bounded = written-bounded;
  }

pub put_pointer-Enters :
    (random : ℕ) (at_null : Bool) (key t : ℕ) (tree : Tree ℕ)
    → IsSorted (entries tree.root)
    → Enters t tree (put_pointer random at_null key t tree)
unfolding put_pointer
put_pointer-Enters random at_null key t tree s =
    let out = insert_node_null t random at_null tree key in
    written-Enters t key tree s out.1 (insert_node_null-Placed t random at_null tree key s).1
      out.0.size
