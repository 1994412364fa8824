-- ===== src/Smp/Switch.antt =====
-- smp/kthread_switch.c: which thread runs next.
pub mod Choice
pub mod Insert
pub mod Saved
pub mod Loaded
pub mod Fair
pub mod Tests
use Prim.Native.Nat.{bit_or}
use helos.Prelude.{
  ℕ, zero, suc, ◌+◌, ◌-◌, ◌/◌, ◌^◌, ◌<◌, refl, inl, inr, Bool, true, false, not, ◌&&◌, Option, none,
  some, ◌++◌, ltb, ◌==◌, if◌then◌else◌, set, word, add64, sub64,
}
use helos.Util.Tree.{
  Nodes, leaf, node, Tree, NodePointer, insert_node, find_node, first_node, next, delete,
}
use helos.Smp.Waiting.{is_waiting, wait_of}
use helos.Smp.Thread.{Context, Thread, Scheduler, thread_of}

-- GDT_EXEC_RING3_SELECTOR
abbrev pub exec_ring3_selector : ℕ
exec_ring3_selector = 0x23

-- The address of `__smp_Switch_Idle`, which is assembly code, is an argument.
pub node_count : Nodes ℕ → ℕ
node_count leaf = 0
node_count (node l k p v r) = node_count l + suc (node_count r)

-- `sleepUntil <= __smp_Now && !__smp_Thread_Waiting_IsWaiting(wait)`
pub is_ready : Scheduler → ℕ → Bool
is_ready s t =
    not (ltb s.now (thread_of s t).sleep_until) && not (is_waiting s.now (wait_of s.waits t))

-- The loop over the waiting threads, with a bound on its rounds.
pub skip : ℕ → Scheduler → Option (NodePointer ℕ) → Option (NodePointer ℕ)
skip zero s first = none
skip (suc n) s none = none
skip (suc n) s (some first) =
    let rest = skip n s (next first) in if is_ready s first.value then some first else rest

-- `while (!ok) node = tree_InsertNode(__smp_ThreadsWaiting, priority++, &ok);` and the write of the
-- thread, with a bound on the rounds. What `random_Rand()` returns depends on the rounds left.
pub insert_free : ℕ → (ℕ → ℕ) → ℕ → ℕ → Tree ℕ → Option (Tree ℕ)
insert_free zero random priority t tree = none
insert_free (suc n) random priority t tree =
    let (tree', added_node, ok) = insert_node t (random n) tree priority in
    let rest = insert_free n random (add64 priority 1) t tree' in if ok then some tree' else rest

-- The time since the last switch goes to one of the metrics.
pub account : Scheduler → Scheduler
account s =
    let delta = sub64 s.now s.previous_time in
    let s' : Scheduler = record s { previous_time = s.now } in
    elim s.current [
      | none ↦ record s' { idling = add64 s.idling delta }
      | some t ↦
          if (thread_of s t).state.cs == exec_ring3_selector
          then record s' { userspace = add64 s.userspace delta }
          else record s' { kernel = add64 s.kernel delta }
    ]

-- The priority of the current thread if it has to wait.
pub priority_of : Scheduler → ℕ
priority_of s = elim s.current [
  | none ↦ word - 1
  | some t ↦
      let thread = thread_of s t in
      add64 thread.nice (if ltb s.now thread.last_tick then thread.last_tick else s.now)
]

-- The current thread is saved and waits. `none` if its insertion still goes on.
pub save_current : (ℕ → ℕ) → ℕ → Scheduler → Option Scheduler
save_current random priority s = elim s.current [
  | none ↦ some s
  | some t ↦ elim (insert_free (suc (node_count s.waiting.root)) random priority t s.waiting) [
    | none ↦ none
    | some tree ↦ some (record s {
      threads =
          set s.threads t (record (thread_of s t) { last_tick = s.now; state = s.last_state });
      waiting = tree;
    })
  ]
]

-- The next thread is loaded. Its node, which the insertion may have moved, is found by its key.
pub load : ℕ → Option (NodePointer ℕ) → Scheduler → Scheduler
load idle none s = record s {
  last_state = record s.last_state { rip = idle; rflags = bit_or s.last_state.rflags (2 ^ 9) };
  current = none;
}
load idle (some first) s = record s {
  last_state = (thread_of s first.value).state;
  current = some first.value;
  waiting = elim (find_node s.waiting first.key) [ none ↦ s.waiting | some n ↦ delete s.waiting n ];
}

-- The two steps of a context switch: none if the first does not end.
unfoldable pub switch_to : ℕ → Option (NodePointer ℕ) → Option Scheduler → Option (ℕ × Scheduler)
switch_to idle first none = none
switch_to idle first (some s) = some (1, load idle first s)

-- `__smp_Switch` once the time is accounted for.
pub decide : (ℕ → ℕ) → ℕ → Scheduler → Option (ℕ × Scheduler)
decide random idle s =
    let priority = priority_of s in
    let first = skip (suc (node_count s.waiting.root)) s (first_node s.waiting) in
    let saved = save_current random priority s in
    elim first [
      | none ↦ switch_to idle none saved
      | some n ↦
          if is_ready s n.value && ltb priority n.key
          then some (0, s)
          else switch_to idle (some n) saved
    ]

-- `__smp_Switch`
pub switch : (ℕ → ℕ) → ℕ → Scheduler → Option (ℕ × Scheduler)
switch random idle s = decide random idle (account s)
