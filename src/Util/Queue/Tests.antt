-- ===== src/Util/Queue/Tests.antt =====
-- Runs of util/queue.c at small buffers, and the theorems at concrete queues.
use helos.Prelude.{ℕ, ◌≡◌, refl, true, List, [], ◌∷◌, arith}
use helos.Util.Queue.Fifo.{Op, Reply, fifo_run}
use helos.Util.Queue.{Queue, init_buffered, push_byte, pop_byte, push, pop, run}
use helos.Util.Queue.{push_all, pop_all, step, size, space, is_empty, front_byte}
use helos.Util.Queue.Inv.{IsValid}
use helos.Util.Queue.Refine.{queue-run_refines, pop-push}

abbrev buffer : List ℕ
buffer = 0 ∷ 0 ∷ 0 ∷ 0 ∷ []

-- 7 and 8 at the end of the buffer, 9 at its start.
abbrev wrapped : Queue
wrapped = record { buf = 9 ∷ 0 ∷ 7 ∷ 8 ∷ []; size = 4; begin = 2; end = 1; count = 3 }

wrapped-IsValid : IsValid wrapped
wrapped-IsValid = omega arith

abbrev script : List Op
script =
    Op.push_byte 1 ∷ Op.push (2 ∷ 3 ∷ []) ∷ Op.pop 3 ∷ Op.space ∷ Op.pop_byte ∷ Op.pop_byte ∷ []

run-wrapped :
    run wrapped script
    ≡ Reply.done
      ∷ Reply.done
      ∷ Reply.bytes 3 (7 ∷ 8 ∷ 9 ∷ [])
      ∷ Reply.amount 3
      ∷ Reply.byte 1
      ∷ Reply.byte 0
      ∷ []
unfolding run step push_byte push push_all pop pop_all pop_byte size space
run-wrapped = refl

init_buffered_start :
    run (init_buffered buffer 4) (Op.is_empty ∷ Op.front_byte ∷ [])
    ≡ Reply.flag true ∷ Reply.byte 0 ∷ []
unfolding run step init_buffered is_empty front_byte
init_buffered_start = refl

queue-run_refines_example : run wrapped script ≡ fifo_run 4 (7 ∷ 8 ∷ 9 ∷ []) script
queue-run_refines_example = queue-run_refines script wrapped-IsValid

pop-push_example : (pop (push wrapped (5 ∷ [])) 4).1 ≡ 7 ∷ 8 ∷ 9 ∷ 5 ∷ []
pop-push_example = (pop-push (5 ∷ []) wrapped-IsValid (omega arith)).1
