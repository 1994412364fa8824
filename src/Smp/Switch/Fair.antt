-- ===== src/Smp/Switch/Fair.antt =====
-- Which thread runs after a timer interrupt, and that none is lost: smp/kthread_switch.c.
use helos.Prelude.{
  ◌∷◌, [], ◌==◌, add64, get_or, ap, List, ◌∙◌, sub64, ℕ, suc, ◌≤◌, ◌<◌, ◌≡◌, refl, sym, subst, inl,
  inr, ◌&&◌, Option, none, some, arith, ltb, if◌then◌else◌, Bool-cases,
}
use helos.Util.Tree.{NodePointer, root_of, first_node}
use helos.Util.Tree.Order.{entries}
use helos.Util.Tree.Sorted.{IsSorted}
use helos.Util.Tree.Walk.{entry_of}
use helos.Smp.Thread.{Scheduler, thread_of, no_thread}
use helos.Smp.Switch.{
  exec_ring3_selector, node_count, is_ready, skip, account, priority_of, save_current, load,
  switch_to, decide, switch,
}
use helos.Smp.Switch.Choice.{first_ready, Chosen, nobody, chosen, choose-Chosen}
use helos.Smp.Switch.Saved.{saved_threads, Saved, saved, Fits, save_current-Saved}
use helos.Smp.Switch.Loaded.{occurrences, resumed, Switches, idle-Switches, load-Switches}

-- The interrupted thread goes on.
pub record Continues (s s' : Scheduler) : Type 0 where
  pub current_is : s'.current ≡ s.current
  pub threads_are : s'.threads ≡ s.threads
  pub waiting_is : s'.waiting ≡ s.waiting
  pub last_state_is : s'.last_state ≡ s.last_state

abbrev ready_entry : Scheduler → Option (ℕ × ℕ)
ready_entry s = first_ready s (entries s.waiting.root)

-- What `__smp_Switch` returns and leaves: the first of the ready threads decides.
pub data Outcome (idle : ℕ) (s : Scheduler) : Option (ℕ × Scheduler) → Type 0 where
  continues :
      (key u : ℕ) (s' : Scheduler)
      → ready_entry s ≡ some (key, u)
      → priority_of s < key
      → Continues s s'
      → Outcome idle s (some (0, s'))
  runs_next :
      (key u : ℕ) (s' : Scheduler)
      → ready_entry s ≡ some (key, u)
      → key ≤ priority_of s
      → Switches idle s (some u) s'
      → Outcome idle s (some (1, s'))
  idles :
      (s' : Scheduler)
      → ready_entry s ≡ none
      → Switches idle s none s'
      → Outcome idle s (some (1, s'))

switch_to-idles :
    (idle : ℕ) (s : Scheduler) (o : Option Scheduler)
    → ready_entry s ≡ none
    → Saved s o
    → Outcome idle s (switch_to idle none o)
unfolding switch_to
switch_to-idles idle s none e v = elim v [ ]
switch_to-idles idle s (some s') e (saved _ v) =
    idles (load idle none s') e (idle-Switches idle s s' v)

switch_to-runs :
    (idle : ℕ) (s : Scheduler) (n : NodePointer ℕ) (o : Option Scheduler)
    → IsSorted (entries s.waiting.root)
    → ready_entry s ≡ some (entry_of n)
    → n.key ≤ priority_of s
    → root_of n ≡ s.waiting.root
    → Saved s o
    → Outcome idle s (switch_to idle (some n) o)
unfolding switch_to
switch_to-runs idle s n none sorted e le r v = elim v [ ]
switch_to-runs idle s n (some s') sorted e le r (saved _ v) =
    runs_next n.key n.value (load idle (some n) s') e le (load-Switches idle s s' n sorted r v)

-- The same decision, with the thread to be saved and the node found as arguments.
decide_by : ℕ → Scheduler → Option Scheduler → Option (NodePointer ℕ) → Option (ℕ × Scheduler)
decide_by idle s o none = switch_to idle none o
decide_by idle s o (some n) =
    if is_ready s n.value && ltb (priority_of s) n.key
    then some (0, s)
    else switch_to idle (some n) o

decide_by-Outcome :
    (idle : ℕ) (s : Scheduler) (o : Option Scheduler) (first : Option (NodePointer ℕ))
    → IsSorted (entries s.waiting.root)
    → Chosen s s.waiting.root (entries s.waiting.root) first
    → Saved s o
    → Outcome idle s (decide_by idle s o first)
unfolding decide_by
decide_by-Outcome idle s o none sorted (nobody e) v = switch_to-idles idle s o e v
decide_by-Outcome idle s o (some n) sorted (chosen _ e ready r) v =
    elim (Bool-cases (ltb (priority_of s) n.key)) [
      | inl less ↦
          rw (ready, less)
            (continues n.key n.value s e (ground (arith, less)) (record {
              current_is = refl;
              threads_are = refl;
              waiting_is = refl;
              last_state_is = refl;
            }))
      | inr not_less ↦
          rw (ready, not_less) (switch_to-runs idle s n o sorted e (ground (arith, not_less)) r v)
    ]

decide-decide_by :
    (random : ℕ → ℕ) (idle : ℕ) (s : Scheduler)
    → decide random idle s
      ≡ decide_by idle s
          (save_current random (priority_of s) s)
          (skip (suc (node_count s.waiting.root)) s (first_node s.waiting))
unfolding decide decide_by
decide-decide_by random idle s =
    go (save_current random (priority_of s) s)
      (skip (suc (node_count s.waiting.root)) s (first_node s.waiting))
  where
    go :
        (o : Option Scheduler) (first : Option (NodePointer ℕ))
        → elim first [
          | none ↦ switch_to idle none o
          | some n ↦
              if is_ready s n.value && ltb (priority_of s) n.key
              then some (0, s)
              else switch_to idle (some n) o
        ]
          ≡ decide_by idle s o first
    go o none = refl
    go o (some n) = refl

decide-Outcome :
    (random : ℕ → ℕ) (idle : ℕ) (s : Scheduler)
    → IsSorted (entries s.waiting.root)
    → Fits s
    → Outcome idle s (decide random idle s)
decide-Outcome random idle s sorted fits =
    subst (Outcome idle s) (sym (decide-decide_by random idle s)) (
      decide_by-Outcome idle s _ _ sorted (choose-Chosen s)
        (save_current-Saved s sorted random fits))

-- What the accounting does not touch.
metered : ℕ → ℕ → ℕ → Scheduler → Scheduler
metered idling kernel userspace s = record s {
  previous_time = s.now;
  idling = idling;
  kernel = kernel;
  userspace = userspace;
}

record Accounted (s s' : Scheduler) : Type 0 where
  idling : ℕ
  kernel : ℕ
  userspace : ℕ
  is : s' ≡ metered idling kernel userspace s

account-Accounted : (s : Scheduler) → Accounted s (account s)
unfolding account metered
account-Accounted s = go s.current
  where
    delta : ℕ
    delta = sub64 s.now s.previous_time

    go :
        (o : Option ℕ)
        → Accounted s (elim o [
          | none ↦ record s { previous_time = s.now; idling = add64 s.idling delta }
          | some t ↦
              if (thread_of s t).state.cs == exec_ring3_selector
              then record s { previous_time = s.now; userspace = add64 s.userspace delta }
              else record s { previous_time = s.now; kernel = add64 s.kernel delta }
        ])
    go none = record {
      idling = add64 s.idling delta;
      kernel = s.kernel;
      userspace = s.userspace;
      is = refl;
    }
    go (some t) = elim (Bool-cases ((thread_of s t).state.cs == exec_ring3_selector)) [
      | inl user ↦ rw user (record {
        idling = s.idling;
        kernel = s.kernel;
        userspace = add64 s.userspace delta;
        is = refl;
      })
      | inr other ↦ rw other (record {
        idling = s.idling;
        kernel = add64 s.kernel delta;
        userspace = s.userspace;
        is = refl;
      })
    ]

module _ (i k u : ℕ) (s : Scheduler) where
  first_ready-metered : (es : List (ℕ × ℕ)) → first_ready (metered i k u s) es ≡ first_ready s es
  unfolding first_ready metered is_ready
  first_ready-metered [] = refl
  first_ready-metered ((key, t) ∷ es) = rw (first_ready-metered es) refl

  Fits-metered : Fits s → Fits (metered i k u s)
  unfolding metered priority_of
  Fits-metered fits = fits

  Switches-metered :
      (idle : ℕ) (c : Option ℕ) (s' : Scheduler)
      → Switches idle (metered i k u s) c s'
      → Switches idle s c s'
  unfolding metered resumed saved_threads occurrences
  Switches-metered idle c s' w = record {
    current_is = w.current_is;
    threads_are = w.threads_are ∙ threads s.current;
    resumes = w.resumes ∙ state c;
    sorted = w.sorted;
    kept = w.kept;
  }
    where
      threads : (o : Option ℕ) → saved_threads (metered i k u s) o ≡ saved_threads s o
      threads none = refl
      threads (some t) = refl

      state : (o : Option ℕ) → resumed idle (metered i k u s) o ≡ resumed idle s o
      state none = refl
      state (some t) = ap (λ l. (get_or l t no_thread).state) (threads s.current)

  Outcome-metered :
      (idle : ℕ) (r : Option (ℕ × Scheduler)) → Outcome idle (metered i k u s) r → Outcome idle s r
  unfolding metered priority_of resumed saved_threads occurrences
  Outcome-metered idle _ (continues key t s' e less c) =
      continues key t s' (sym (first_ready-metered (entries s.waiting.root)) ∙ e) less (record {
        current_is = c.current_is;
        threads_are = c.threads_are;
        waiting_is = c.waiting_is;
        last_state_is = c.last_state_is;
      })
  Outcome-metered idle _ (runs_next key t s' e le c) =
      runs_next key t s' (sym (first_ready-metered (entries s.waiting.root)) ∙ e) le
        (Switches-metered idle (some t) s' c)
  Outcome-metered idle _ (idles s' e c) =
      idles s' (sym (first_ready-metered (entries s.waiting.root)) ∙ e)
        (Switches-metered idle none s' c)

-- Where the keys of the waiting threads ascend, and the current thread's new priority with one for
-- each thread that waits is a 64-bit word: `__smp_Switch` ends. If no waiting thread is ready, it
-- returns 1 and leaves the idle loop to run. If the first ready one in the order of the keys has a
-- key above the new priority, it returns 0, and the current thread, all threads' data, the waiting
-- threads and the interrupted state are as before. Otherwise it returns 1, and that first ready
-- thread is current and its saved state is loaded. Where 1 is returned, the current thread's state
-- and time are saved, the keys still ascend, and every thread runs or waits as often as before.
pub switch-Outcome :
    (random : ℕ → ℕ) (idle : ℕ) (s : Scheduler)
    → IsSorted (entries s.waiting.root)
    → Fits s
    → Outcome idle s (switch random idle s)
unfolding switch metered
switch-Outcome random idle s sorted fits =
    let a = account-Accounted s in
    rw a.is (
      Outcome-metered a.idling a.kernel a.userspace s idle _ (
        decide-Outcome random idle (metered a.idling a.kernel a.userspace s) sorted
          (Fits-metered a.idling a.kernel a.userspace s fits)))
