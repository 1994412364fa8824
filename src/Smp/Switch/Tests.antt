-- ===== src/Smp/Switch/Tests.antt =====
-- The theorem on smp/kthread_switch.c for two threads.
use helos.Prelude.{ℕ, some, [], ◌∷◌, arith}
use helos.Util.Tree.{leaf, node, create}
use helos.Util.Tree.Order.{entries}
use helos.Util.Tree.Sorted.{IsSorted}
use helos.Memory.PageMap.Sample.{empty}
use helos.Smp.Waiting.{not_waiting}
use helos.Smp.Thread.{Scheduler, Thread, blank_context}
use helos.Smp.Switch.{priority_of, switch}
use helos.Smp.Switch.Saved.{Fits}
use helos.Smp.Switch.Fair.{Outcome, switch-Outcome}

abbrev thread : ℕ → Thread
thread id = record {
  id = id;
  nice = 80;
  last_tick = 10;
  sleep_until = 0;
  state = blank_context;
  stackframe = 0;
}

-- One thread runs, and the other waits since tick 10.
abbrev two_threads : Scheduler
two_threads = record {
  now = 20;
  previous_time = 19;
  idling = 0;
  kernel = 0;
  userspace = 0;
  current = some 0;
  last_id = 2;
  threads = thread 1 ∷ thread 2 ∷ [];
  waits = not_waiting ∷ not_waiting ∷ [];
  by_id = record { root = node leaf 1 3 0 (node leaf 2 4 1 leaf); size = 2 };
  waiting = record { root = node leaf 90 5 1 leaf; size = 1 };
  stack_pool = create;
  last_state = blank_context;
  mapping_bottom = 0;
  paging = empty;
}

two_threads-IsSorted : IsSorted (entries two_threads.waiting.root)
two_threads-IsSorted = (tt, tt)

two_threads-Fits : Fits two_threads
unfolding priority_of
two_threads-Fits t e = omega arith

switch-Outcome_example : Outcome 4096 two_threads (switch (λ n. n) 4096 two_threads)
switch-Outcome_example =
    switch-Outcome (λ n. n) 4096 two_threads two_threads-IsSorted two_threads-Fits
