-- ===== src/Smp/Thread/Tests.antt =====
-- The theorem on stacks for the first thread, which ends.
use helos.Prelude.{true, false, ℕ, none, some, [], ◌∷◌}
use helos.Memory.PageMap.Sample.{empty}
use helos.Util.Tree.{leaf, node, NodePointer, create, insert_node_null, delete}
use helos.Smp.Waiting.{not_waiting}
use helos.Smp.Thread.{Fresh, Scheduler, blank_context}

abbrev new_object : Fresh
new_object = record {
  state = blank_context;
  stackframe = 0;
  wait = not_waiting;
  entry_point = 8192;
  at_null = false;
  at_null_later = false;
  by_id_random = 1;
  waiting_random = 2;
}

-- Its stack is the page that ends at 12288, which still stands in its memory when that is freed.
abbrev one_thread : Scheduler
one_thread = record {
  now = 20;
  previous_time = 19;
  idling = 0;
  kernel = 0;
  userspace = 0;
  current = some 0;
  last_id = 1;
  threads =
      record {
        id = 1;
        nice = 80;
        last_tick = 10;
        sleep_until = 0;
        state = blank_context;
        stackframe = 12288;
      }
      ∷ [];
  waits = not_waiting ∷ [];
  by_id = record { root = node leaf 1 3 0 leaf; size = 1 };
  waiting = create;
  stack_pool = create;
  last_state = blank_context;
  mapping_bottom = 0;
  paging = empty;
}

abbrev its_node : NodePointer ℕ
its_node = record { left = leaf; key = 1; internal = 3; value = 0; right = leaf; fathers = [] }

abbrev ended : Scheduler
ended = record one_thread {
  current = none;
  by_id = delete one_thread.by_id its_node;
  stack_pool = (insert_node_null tt 5 true create 12288).0;
}
