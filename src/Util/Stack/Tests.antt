-- ===== src/Util/Stack/Tests.antt =====
-- Runs of util/stack.c at a small buffer, and the theorem at a concrete stack.
use helos.Prelude.{◌≡◌, refl, true, List, [], ◌∷◌, arith}
use helos.Util.Stack.Lifo.{Op, Reply, lifo_run}
use helos.Util.Stack.{Stack, run, step, init_buffered}
use helos.Util.Stack.Laws.{IsValid, stack-run_refines}

abbrev two_bytes : Stack
two_bytes = record { buf = 0 ∷ 0 ∷ 7 ∷ 8 ∷ []; size = 4; top = 2 }

two_bytes-IsValid : IsValid two_bytes
two_bytes-IsValid = omega arith

abbrev script : List Op
script =
    Op.push (1 ∷ 2 ∷ [])
    ∷ Op.push_byte 3
    ∷ Op.top 2
    ∷ Op.pop 3
    ∷ Op.size
    ∷ Op.pop 2
    ∷ Op.clear
    ∷ Op.pop_byte
    ∷ []

run-two_bytes :
    run two_bytes script
    ≡ Reply.done
      ∷ Reply.done
      ∷ Reply.bytes 2 (1 ∷ 2 ∷ [])
      ∷ Reply.bytes 3 (1 ∷ 2 ∷ 7 ∷ [])
      ∷ Reply.amount 1
      ∷ Reply.bytes 0 []
      ∷ Reply.done
      ∷ Reply.byte 0
      ∷ []
unfolding run step
run-two_bytes = refl

init_buffered_empty : run (init_buffered (5 ∷ 6 ∷ []) 2) (Op.is_empty ∷ []) ≡ Reply.flag true ∷ []
unfolding run step init_buffered
init_buffered_empty = refl

stack-run_refines_example : run two_bytes script ≡ lifo_run 4 (7 ∷ 8 ∷ []) script
stack-run_refines_example = stack-run_refines script two_bytes-IsValid
