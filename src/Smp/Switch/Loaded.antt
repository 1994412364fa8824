-- ===== src/Smp/Switch/Loaded.antt =====
-- What loading the next thread does to the waiting threads, in smp/kthread_switch.c.
use Prim.Native.Nat.{bit_or}
use helos.Prelude.{
  ℕ, ◌+◌, ◌^◌, ◌≡◌, refl, sym, ap, subst, ◌∙◌, Option, none, some, arith, ◌==◌, if◌then◌else◌,
  none≢some, get_or,
}
use helos.Util.Tree.{NodePointer, Tree, root_of, object, find_node, find, delete}
use helos.Util.Tree.Order.{entries, preceding, following}
use helos.Util.Tree.Sorted.{IsSorted, lookup_entry, lookup_entry-present, IsSorted-split}
use helos.Util.Tree.Find.{entries-split, find-lookup, find_node-here, delete-Deleted}
use helos.Smp.Thread.{Context, no_thread, Scheduler}
use helos.Smp.Switch.{load}
use helos.Smp.Switch.Insert.{count, count-remove_entry}
use helos.Smp.Switch.Saved.{running, saved_threads, Saves}

-- How often a thread stands in the scheduler: running or waiting.
unfoldable pub occurrences : ℕ → Scheduler → ℕ
occurrences a s = running a s.current + count a (entries s.waiting.root)

-- What the processor goes on with: the state that was saved, or the idle loop.
unfoldable pub resumed : ℕ → Scheduler → Option ℕ → Context
resumed idle s none = record s.last_state {
  rip = idle;
  rflags = bit_or s.last_state.rflags (2 ^ 9);
}
resumed idle s (some t) = (get_or (saved_threads s s.current) t no_thread).state

-- The current thread waits, and `chosen` runs.
pub record Switches (idle : ℕ) (s : Scheduler) (chosen : Option ℕ) (s' : Scheduler) : Type 0 where
  pub current_is : s'.current ≡ chosen
  pub threads_are : s'.threads ≡ saved_threads s s.current
  pub resumes : s'.last_state ≡ resumed idle s chosen
  pub sorted : IsSorted (entries s'.waiting.root)
  pub kept : (a : ℕ) → occurrences a s' ≡ occurrences a s

node-lookup_entry :
    (t : Tree ℕ) (n : NodePointer ℕ)
    → IsSorted (entries t.root)
    → root_of n ≡ t.root
    → lookup_entry n.key (entries t.root) ≡ some n.value
node-lookup_entry t n s e =
    let es = entries-split t n e in
    rw es (
      lookup_entry-present n.key n.value (preceding n) (following n)
        (IsSorted-split (preceding n) n.key n.value (following n) (rw es at s)).low)

-- A tree without the node under a key that is there.
record Taken (key u : ℕ) (t t' : Tree ℕ) : Type 0 where
  sorted : IsSorted (entries t'.root)
  counted :
      (a : ℕ) → (if a == u then 1 else 0) + count a (entries t'.root) ≡ count a (entries t.root)

take_out : Tree ℕ → Option (NodePointer ℕ) → Tree ℕ
take_out t none = t
take_out t (some n) = delete t n

take_out-Taken :
    (key u : ℕ) (t : Tree ℕ)
    → IsSorted (entries t.root)
    → lookup_entry key (entries t.root) ≡ some u
    → Taken key u t (take_out t (find_node t key))
unfolding find take_out
take_out-Taken key u t s h = go (find_node t key) refl
  where
    go : (o : Option (NodePointer ℕ)) → find_node t key ≡ o → Taken key u t (take_out t o)
    go none e = absurd (none≢some (sym (ap object e) ∙ find-lookup t key s ∙ h))
    go (some n) e =
        let here = find_node-here t key n s e in
        let d = delete-Deleted t n s here.0 in
        record {
          sorted = d.sorted;
          counted = λ a. rw (d.entries_are, here.1) (count-remove_entry a key u (entries t.root) h);
        }

load-waiting :
    (idle : ℕ) (n : NodePointer ℕ) (s : Scheduler)
    → (load idle (some n) s).waiting ≡ take_out s.waiting (find_node s.waiting n.key)
unfolding load take_out
load-waiting idle n s = go (find_node s.waiting n.key)
  where
    go :
        (o : Option (NodePointer ℕ))
        → elim o [ none ↦ s.waiting | some m ↦ delete s.waiting m ] ≡ take_out s.waiting o
    go none = refl
    go (some m) = refl

pub idle-Switches :
    (idle : ℕ) (s s' : Scheduler) → Saves s s' → Switches idle s none (load idle none s')
unfolding load resumed occurrences running
idle-Switches idle s s' v = record {
  current_is = refl;
  threads_are = v.threads_are;
  resumes = rw v.last_state_is refl;
  sorted = v.sorted;
  kept = λ a. rw (v.counted a) (omega arith);
}

pub load-Switches :
    (idle : ℕ) (s s' : Scheduler) (n : NodePointer ℕ)
    → IsSorted (entries s.waiting.root)
    → root_of n ≡ s.waiting.root
    → Saves s s'
    → Switches idle s (some n.value) (load idle (some n) s')
unfolding load resumed occurrences running
load-Switches idle s s' n sorted e v =
    let there = v.still n.key n.value (node-lookup_entry s.waiting n sorted e) in
    let taken = take_out-Taken n.key n.value s'.waiting v.sorted there in
    let w = load-waiting idle n s' in
    record {
      current_is = refl;
      threads_are = v.threads_are;
      resumes = rw v.threads_are refl;
      sorted = subst (λ t. IsSorted (entries t.root)) (sym w) taken.sorted;
      kept = λ a. rw w (taken.counted a ∙ v.counted a);
    }
