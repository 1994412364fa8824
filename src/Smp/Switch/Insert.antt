-- ===== src/Smp/Switch/Insert.antt =====
-- The current thread finds a free priority among those that wait, in smp/kthread_switch.c.
use helos.Prelude.{
  zero, subst, Bool-cases, Option-cases, ◌⊎◌, Bool, add64, ◌∙◌, sym, word, ℕ, suc, ◌+◌, ◌≤◌, ◌<◌,
  ◌≡◌, refl, inl, inr, true, false, Option, none, some, List, [], ◌∷◌, arith, leb, ◌==◌,
  if◌then◌else◌, none≢some, length,
}
use helos.Util.Tree.{NodePointer, Tree, insert_node}
use helos.Util.Tree.Order.{entries}
use helos.Util.Tree.Sorted.{
  AllAbove-mono, IsSorted, AllAbove, lookup_entry, insert_entry, remove_entry,
}
use helos.Util.Tree.Search.{Inserted, insert_node-Inserted}
use helos.Smp.Switch.{insert_free}

-- How often a thread waits.
unfoldable pub count : ℕ → List (ℕ × ℕ) → ℕ
count a [] = 0
count a ((k, t) ∷ es) = (if a == t then 1 else 0) + count a es

-- How many keys are not below `key`.
keys_from : ℕ → List (ℕ × ℕ) → ℕ
keys_from key [] = 0
keys_from key ((k, t) ∷ es) = (if leb key k then 1 else 0) + keys_from key es

keys_from-le : (key : ℕ) (es : List (ℕ × ℕ)) → keys_from key es ≤ length es
unfolding keys_from
keys_from-le key [] = omega arith
keys_from-le key ((k, t) ∷ es) = ground (arith, keys_from-le key es)

keys_from-suc : (key : ℕ) (es : List (ℕ × ℕ)) → keys_from (key + 1) es ≤ keys_from key es
unfolding keys_from
keys_from-suc key [] = omega arith
keys_from-suc key ((k, t) ∷ es) = ground (arith, keys_from-suc key es)

-- A key that is taken is one fewer to pass.
keys_from-taken :
    (key t : ℕ) (es : List (ℕ × ℕ))
    → lookup_entry key es ≡ some t
    → keys_from (key + 1) es < keys_from key es
unfolding keys_from lookup_entry
keys_from-taken key t [] h = absurd (none≢some h)
keys_from-taken key t ((k, u) ∷ es) h =
    ground (arith, keys_from-taken key t es, keys_from-suc key es)

pub count-insert_entry :
    (a key t : ℕ) (es : List (ℕ × ℕ))
    → lookup_entry key es ≡ none
    → count a (insert_entry key t es) ≡ (if a == t then 1 else 0) + count a es
unfolding count insert_entry lookup_entry
count-insert_entry a key t [] h = refl
count-insert_entry a key t ((k, u) ∷ es) h = ground (arith, count-insert_entry a key t es)

pub count-remove_entry :
    (a key t : ℕ) (es : List (ℕ × ℕ))
    → lookup_entry key es ≡ some t
    → (if a == t then 1 else 0) + count a (remove_entry key es) ≡ count a es
unfolding count remove_entry lookup_entry
count-remove_entry a key t [] h = absurd (none≢some h)
count-remove_entry a key t ((k, u) ∷ es) h = ground (arith, count-remove_entry a key t es)

pub lookup-insert_entry :
    (other key t u : ℕ) (es : List (ℕ × ℕ))
    → lookup_entry key es ≡ none
    → lookup_entry other es ≡ some u
    → lookup_entry other (insert_entry key t es) ≡ some u
unfolding lookup_entry insert_entry
lookup-insert_entry other key t u [] free h = absurd (none≢some h)
lookup-insert_entry other key t u ((k, v) ∷ es) free h =
    ground (arith, lookup-insert_entry other key t u es)

-- The thread waits once more, at a priority not below its own, and all others as before.
pub record Waits (priority t : ℕ) (tree : Tree ℕ) (result : Option (Tree ℕ)) : Type 0 where
  pub tree' : Tree ℕ
  pub key : ℕ
  pub done : result ≡ some tree'
  pub late : priority ≤ key
  pub free : lookup_entry key (entries tree.root) ≡ none
  pub entries_are : entries tree'.root ≡ insert_entry key t (entries tree.root)
  pub sorted : IsSorted (entries tree'.root)

AllAbove-lookup_entry :
    (key t : ℕ) (es : List (ℕ × ℕ)) → AllAbove key es → ¬ (lookup_entry key es ≡ some t)
unfolding lookup_entry
AllAbove-lookup_entry key t [] a h = absurd (none≢some h)
AllAbove-lookup_entry key t ((k, u) ∷ es) a h = ground (arith, AllAbove-lookup_entry key t es)

-- A key that is taken stays as it is.
pub insert_entry-taken :
    (key fresh t : ℕ) (es : List (ℕ × ℕ))
    → IsSorted es
    → lookup_entry key es ≡ some t
    → insert_entry key fresh es ≡ es
unfolding insert_entry lookup_entry
insert_entry-taken key fresh t [] s h = absurd (none≢some h)
insert_entry-taken key fresh t ((k, u) ∷ es) s h = ground (
  arith,
  insert_entry-taken key fresh t es s.1,
  AllAbove-mono key k es,
  AllAbove-lookup_entry key t es,
)

-- One round, whose key may be taken.
taken_or_free :
    (priority t : ℕ) (tree : Tree ℕ) (out : Tree ℕ × NodePointer ℕ × Bool)
    → Inserted t priority tree out
    → IsSorted (entries tree.root)
    → ((out.2 ≡ true) × Waits priority t tree (some out.0))
      ⊎ ((out.2 ≡ false)
          × (entries out.0.root ≡ entries tree.root)
          × (keys_from (priority + 1) (entries tree.root) < keys_from priority (entries tree.root)))
taken_or_free priority t tree out i s =
    elim (Option-cases (lookup_entry priority (entries tree.root))) [
      | inl free ↦ inl (
        i.added_iff.1 free,
        record {
          tree' = out.0;
          key = priority;
          done = refl;
          late = omega arith;
          free = free;
          entries_are = i.entries_are;
          sorted = i.sorted;
        },
      )
      | inr (u, taken) ↦ inr (elim (Bool-cases out.2) [
        | inl fresh_key ↦ absurd (none≢some (sym (i.added_iff.0 fresh_key) ∙ taken))
        | inr old_key ↦ (
          old_key,
          i.entries_are ∙ insert_entry-taken priority t u (entries tree.root) s taken,
          keys_from-taken priority u (entries tree.root) taken,
        )
      ])
    ]

Waits-later :
    (priority t : ℕ) (tree tree' : Tree ℕ) (result : Option (Tree ℕ))
    → entries tree'.root ≡ entries tree.root
    → Waits (priority + 1) t tree' result
    → Waits priority t tree result
Waits-later priority t tree tree' result e w = record {
  tree' = w.tree';
  key = w.key;
  done = w.done;
  late = omega (arith, w.late);
  free = rw (sym e) w.free;
  entries_are = w.entries_are ∙ rw e refl;
  sorted = w.sorted;
}

insert_free-found :
    (fuel : ℕ) (random : ℕ → ℕ) (priority t : ℕ) (tree : Tree ℕ)
    → IsSorted (entries tree.root)
    → priority + keys_from priority (entries tree.root) < word
    → keys_from priority (entries tree.root) < fuel
    → Waits priority t tree (insert_free fuel random priority t tree)
unfolding insert_free
insert_free-found zero random priority t tree s fits enough = absurd (omega arith)
insert_free-found (suc fuel) random priority t tree s fits enough =
    let out = insert_node t (random fuel) tree priority in
    elim (taken_or_free priority t tree out (insert_node-Inserted t (random fuel) priority tree s)
      s) [
        | inl (fresh_key, w) ↦ rw fresh_key w
        | inr (old_key, same, fewer) ↦
            let step : add64 priority 1 ≡ priority + 1 = omega (arith, fits) in
            let ih =
              insert_free-found fuel random (priority + 1) t out.0 (subst IsSorted (sym same) s)
                (rw same (omega arith)) (rw same (omega arith)) in
            rw (old_key, step) (Waits-later priority t tree out.0 _ same ih)
      ]

-- One round more than threads wait is enough.
pub insert_free-Waits :
    (rounds : ℕ) (random : ℕ → ℕ) (priority t : ℕ) (tree : Tree ℕ)
    → IsSorted (entries tree.root)
    → rounds ≡ length (entries tree.root)
    → priority + length (entries tree.root) < word
    → Waits priority t tree (insert_free (suc rounds) random priority t tree)
insert_free-Waits rounds random priority t tree s e fits =
    let le = keys_from-le priority (entries tree.root) in
    insert_free-found (suc rounds) random priority t tree s (omega arith) (omega (arith, e))
