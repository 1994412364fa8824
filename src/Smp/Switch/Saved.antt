-- ===== src/Smp/Switch/Saved.antt =====
-- What saving the current thread does to the waiting threads, in smp/kthread_switch.c.
use helos.Prelude.{
  arith, ℕ, suc, ◌+◌, ◌<◌, ◌≡◌, refl, Option, none, some, List, ◌==◌, if◌then◌else◌, length, set,
  word,
}
use helos.Util.Tree.{Tree}
use helos.Util.Tree.Order.{entries}
use helos.Util.Tree.Sorted.{IsSorted, lookup_entry, insert_entry}
use helos.Smp.Thread.{Thread, Scheduler, thread_of}
use helos.Smp.Switch.{node_count, priority_of, insert_free, save_current}
use helos.Smp.Switch.Choice.{rounds-length}
use helos.Smp.Switch.Insert.{count, count-insert_entry, lookup-insert_entry, insert_free-Waits}

-- Whether a thread runs, as a number.
unfoldable pub running : ℕ → Option ℕ → ℕ
running a none = 0
running a (some t) = if a == t then 1 else 0

-- The threads, with what the current one did last.
unfoldable pub saved_threads : Scheduler → Option ℕ → List Thread
saved_threads s none = s.threads
saved_threads s (some t) =
    set s.threads t (record (thread_of s t) { last_tick = s.now; state = s.last_state })

-- The current thread waits with the others.
pub record Saves (s s' : Scheduler) : Type 0 where
  pub sorted : IsSorted (entries s'.waiting.root)
  pub counted :
      (a : ℕ)
      → count a (entries s'.waiting.root) ≡ running a s.current + count a (entries s.waiting.root)
  pub still :
      (key u : ℕ)
      → lookup_entry key (entries s.waiting.root) ≡ some u
      → lookup_entry key (entries s'.waiting.root) ≡ some u
  pub threads_are : s'.threads ≡ saved_threads s s.current
  pub last_state_is : s'.last_state ≡ s.last_state

pub data Saved (s : Scheduler) : Option Scheduler → Type 0 where
  saved : (s' : Scheduler) → Saves s s' → Saved s (some s')

-- Every priority that the search may try is a machine word.
abbrev pub Fits : Scheduler → Type 0
Fits s = (t : ℕ) → s.current ≡ some t → priority_of s + length (entries s.waiting.root) < word

module _ (s : Scheduler) (s_sorted : IsSorted (entries s.waiting.root)) where
  waits-Saves :
      (priority t : ℕ) (tree : Tree ℕ) (key : ℕ) (threads : List Thread)
      → s.current ≡ some t
      → lookup_entry key (entries s.waiting.root) ≡ none
      → entries tree.root ≡ insert_entry key t (entries s.waiting.root)
      → IsSorted (entries tree.root)
      → threads ≡ saved_threads s s.current
      → Saves s (record s { threads = threads; waiting = tree })
  unfolding running
  waits-Saves priority t tree key threads c free e sorted h = record {
    sorted = sorted;
    counted = λ a. rw (c, e) (count-insert_entry a key t (entries s.waiting.root) free);
    still = λ other u found.
        rw e (lookup-insert_entry other key t u (entries s.waiting.root) free found);
    threads_are = h;
    last_state_is = refl;
  }

  pub save_current-Saved :
      (random : ℕ → ℕ) → Fits s → Saved s (save_current random (priority_of s) s)
  unfolding save_current running saved_threads
  save_current-Saved random fits = go s.current refl
    where
      go :
          (o : Option ℕ)
          → s.current ≡ o
          → Saved s (elim o [
            | none ↦ some s
            | some t ↦
                elim (insert_free
                  (suc (node_count s.waiting.root))
                  random
                  (priority_of s)
                  t
                  s.waiting) [
                    | none ↦ none
                    | some tree ↦ some (record s {
                      threads =
                          set s.threads t
                            (record (thread_of s t) { last_tick = s.now; state = s.last_state });
                      waiting = tree;
                    })
                  ]
          ])
      go none c = saved s (record {
        sorted = s_sorted;
        counted = λ a. rw c (omega arith);
        still = λ key u found. found;
        threads_are = rw c refl;
        last_state_is = refl;
      })
      go (some t) c =
          let w =
            insert_free-Waits (node_count s.waiting.root) random (priority_of s) t s.waiting
              s_sorted (rounds-length s.waiting) (fits t c) in
          rw w.done (
            saved _ (
              waits-Saves (priority_of s) t w.tree' w.key _ c w.free w.entries_are w.sorted
                (rw c refl)))
