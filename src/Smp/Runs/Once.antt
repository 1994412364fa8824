-- ===== src/Smp/Runs/Once.antt =====
-- No thread stands in the scheduler twice, in smp/kthread.c and smp/kthread_switch.c.
use helos.Prelude.{
  Bool, sym, ◌+◌, chain-some, chain-some, length-append, [], ◌∷◌, ◌++◌, ℕ, ◌≤◌, ◌≡◌, refl, ap,
  subst, ◌∙◌, Option, none, some, arith, length, length-set, add64,
}
use mathlib.Core.Option.{some_inj}
use helos.Prelude.Int.{ℤ, pos, negsuc}
use helos.Memory.PageMap.{Paging}
use helos.Memory.PageMap.Allocated.{map_page_allocated}
use helos.Memory.Rounding.{allocate_kernel_mapping}
use helos.Memory.HeapBreak.{read_write}
use helos.Util.Tree.{NodePointer, first_node, create, find, find_node}
use helos.Util.Tree.Order.{entries}
use helos.Util.Tree.Sorted.{IsSorted}
use helos.Smp.Thread.{
  Fresh, Context, Arguments, Scheduler, Thread, take_stack, new_stack, new_thread, set_nice, start,
  nice, sleep, thread_of, cleanup, init,
}
use helos.Smp.Switch.Insert.{count}
use helos.Smp.Switch.Saved.{running, saved_threads}
use helos.Smp.Switch.Loaded.{occurrences, Switches}
use helos.Smp.Switch.Fair.{Continues, Outcome, continues, runs_next, idles, switch-Outcome}
use helos.Smp.Runs.{
  Step, starts, renices, sleeps, ends, switches, ticks, others, Reached, begins, goes_on,
}
use helos.Smp.Runs.Start.{Enters, put_pointer-Enters}

-- The keys of the waiting threads ascend, no thread runs or waits in two places, and those that do
-- were started.
pub record IsSchedule (s : Scheduler) : Type 0 where
  pub sorted : IsSorted (entries s.waiting.root)
  pub once : (a : ℕ) → occurrences a s ≤ 1
  pub started : (a : ℕ) → length s.threads ≤ a → occurrences a s ≡ 0

-- A change that starts no thread and puts none in a second place.
IsSchedule-fewer :
    (s s' : Scheduler)
    → IsSorted (entries s'.waiting.root)
    → length s'.threads ≡ length s.threads
    → ((a : ℕ) → occurrences a s' ≤ occurrences a s)
    → IsSchedule s
    → IsSchedule s'
IsSchedule-fewer s s' sorted same fewer i = record {
  sorted = sorted;
  once = λ a. omega (arith, fewer a, i.once a);
  started = λ a h. omega (arith, fewer a, i.started a (omega (arith, same)));
}

saved_threads-length :
    (s : Scheduler) (o : Option ℕ) → length (saved_threads s o) ≡ length s.threads
unfolding saved_threads
saved_threads-length s none = refl
saved_threads-length s (some t) = length-set s.threads t _

Switches-IsSchedule :
    (idle : ℕ) (s : Scheduler) (o : Option ℕ) (s' : Scheduler)
    → Switches idle s o s'
    → IsSchedule s
    → IsSchedule s'
Switches-IsSchedule idle s o s' w =
    IsSchedule-fewer s s' w.sorted (ap length w.threads_are ∙ saved_threads-length s s.current)
      (λ a. omega (arith, w.kept a))

Continues-IsSchedule : (s s' : Scheduler) → Continues s s' → IsSchedule s → IsSchedule s'
unfolding occurrences
Continues-IsSchedule s s' c i =
    IsSchedule-fewer s s' (rw c.waiting_is i.sorted) (ap length c.threads_are)
      (λ a. rw (c.current_is, c.waiting_is) (omega arith)) i

Outcome-IsSchedule :
    (idle : ℕ) (s : Scheduler) (r : ℕ) (s' : Scheduler) (o : Option (ℕ × Scheduler))
    → o ≡ some (r, s')
    → Outcome idle s o
    → IsSchedule s
    → IsSchedule s'
Outcome-IsSchedule idle s r s' none e x i = elim x [ ]
Outcome-IsSchedule idle s r s' (some _) e (continues key u t ready less c) i =
    subst IsSchedule (ap (λ p. p.1) (some_inj.0 e)) (Continues-IsSchedule s t c i)
Outcome-IsSchedule idle s r s' (some _) e (runs_next key u t ready le w) i =
    subst IsSchedule (ap (λ p. p.1) (some_inj.0 e)) (Switches-IsSchedule idle s (some u) t w i)
Outcome-IsSchedule idle s r s' (some _) e (idles t ready w) i =
    subst IsSchedule (ap (λ p. p.1) (some_inj.0 e)) (Switches-IsSchedule idle s none t w i)

set_nice-IsSchedule :
    (o : Option ℕ) (n : ℤ) (s : Scheduler) → IsSchedule s → IsSchedule (set_nice o n s).1
unfolding set_nice occurrences
set_nice-IsSchedule none n s i = i
set_nice-IsSchedule (some t) (negsuc k) s i = i
set_nice-IsSchedule (some t) (pos k) s i =
    IsSchedule-fewer s _ i.sorted (length-set s.threads t _) (λ a. omega arith) i

sleep-IsSchedule : (n : ℤ) (s s' : Scheduler) → sleep n s ≡ some s' → IsSchedule s → IsSchedule s'
unfolding sleep occurrences
sleep-IsSchedule n s s' e i =
    let (t, _, done) = chain-some s.current _ e in
    subst IsSchedule (some_inj.0 done)
      (IsSchedule-fewer s _ i.sorted (length-set s.threads t _) (λ a. omega arith) i)

cleanup-IsSchedule :
    (random : ℕ) (at_null : Bool) (after_free : ℕ) (s s' : Scheduler)
    → cleanup random at_null after_free s ≡ some s'
    → IsSchedule s
    → IsSchedule s'
unfolding cleanup occurrences running
cleanup-IsSchedule random at_null after_free s s' e i =
    let (t, _, rest) = chain-some s.current _ e in
    let (n, _, done) = chain-some (find_node s.by_id (thread_of s t).id) _ rest in
    subst IsSchedule (some_inj.0 done) (IsSchedule-fewer s _ i.sorted refl (λ a. omega arith) i)

take_stack-current :
    (o : Option (NodePointer (Unit {0}))) (s : Scheduler) (r : ℕ × Scheduler)
    → take_stack o s ≡ some r
    → r.1.current ≡ s.current
unfolding take_stack new_stack
take_stack-current none s r e =
    let (paging, _, done) =
      chain-some
        (map_page_allocated (allocate_kernel_mapping 4096 4096 s.mapping_bottom) 1 read_write
          s.paging)
        _ e in
    sym (ap (λ p. p.1.current) (some_inj.0 done))
take_stack-current (some spare) s r e = sym (ap (λ p. p.1.current) (some_inj.0 e))

-- The scheduler with one more thread, which waits.
Enters-IsSchedule :
    (s s' : Scheduler) (t : Thread)
    → s'.current ≡ s.current
    → s'.threads ≡ s.threads ++ (t ∷ [])
    → Enters (length s.threads) s.waiting s'.waiting
    → IsSchedule s
    → IsSchedule s'
unfolding occurrences
Enters-IsSchedule s s' t c threads enters i = record {
  sorted = enters.sorted;
  once = λ a. rw c (
      let b = enters.bounded a in
      let o = i.once a in let n = i.started a in ground (arith, b, o, n));
  started = λ a h. rw c (
      let b = enters.bounded a in
      let l = ap length threads ∙ length-append s.threads (t ∷ []) in
      let n = i.started a in ground (arith, b, l, n, h));
}

start-IsSchedule :
    (fresh : Fresh) (entry : ℕ) (args : Option Arguments) (n id : ℕ) (s s' : Scheduler)
    → start fresh entry args n s ≡ some (id, s')
    → IsSchedule s
    → IsSchedule s'
unfolding start
start-IsSchedule fresh entry args n id s s' e i =
    let ((stack, s1), taken, done) = chain-some (take_stack (first_node s.stack_pool) s) _ e in
    subst IsSchedule (ap (λ p. p.1) (some_inj.0 done)) (
      Enters-IsSchedule s _ (new_thread fresh entry args n (s.last_id + 1) s.now stack)
        (take_stack-current (first_node s.stack_pool) s (stack, s1) taken) refl
        (put_pointer-Enters fresh.waiting_random fresh.at_null_later (add64 s.now n)
          (length s.threads) s.waiting i.sorted)
        i)

Step-IsSchedule : (s s' : Scheduler) → Step s s' → IsSchedule s → IsSchedule s'
unfolding nice occurrences
Step-IsSchedule s s' (starts fresh entry n id args e) i =
    start-IsSchedule fresh entry args n id s s' e i
Step-IsSchedule s _ (renices id n) i = set_nice-IsSchedule (find s.by_id id) n s i
Step-IsSchedule s s' (sleeps n e) i = sleep-IsSchedule n s s' e i
Step-IsSchedule s s' (ends random at_null after_free e) i =
    cleanup-IsSchedule random at_null after_free s s' e i
Step-IsSchedule s s' (switches random idle r fits e) i =
    Outcome-IsSchedule idle s r s' _ e (switch-Outcome random idle s i.sorted fits) i
Step-IsSchedule s _ (ticks now state) i = IsSchedule-fewer s _ i.sorted refl (λ a. omega arith) i
Step-IsSchedule s _ (others waits bottom paging) i =
    IsSchedule-fewer s _ i.sorted refl (λ a. omega arith) i

-- Whatever threads are started, end, sleep or change their niceness after `smp_thread_Init`, and
-- whenever the clock ticks and a switch is made while the priorities are machine words, whatever the
-- byte at address 0 is each time that it is read for a NULL `added`, and whatever stands in freed
-- memory: the keys of the waiting threads ascend, and no thread runs and waits at once or waits
-- twice.
pub Reached-IsSchedule :
    (fresh : Fresh) (state : Context) (bottom : ℕ) (paging : Paging) (s : Scheduler)
    → Reached fresh state bottom paging s
    → IsSchedule s
unfolding init occurrences running count create
Reached-IsSchedule fresh state bottom paging _ begins = record {
  sorted = tt;
  once = λ a. ground arith;
  started = λ a h. ground arith;
}
Reached-IsSchedule fresh state bottom paging s' (goes_on r step) =
    Step-IsSchedule _ s' step (Reached-IsSchedule fresh state bottom paging _ r)
