-- ===== src/Smp/Channel/Tests.antt =====
-- The theorem on smp/channel.c for a channel of objects of two bytes.
use helos.Prelude.{ℕ, ◌≡◌, refl, some, List, [], ◌∷◌, arith, if◌then◌else◌}
use helos.Util.Queue.{Queue}
use helos.Util.Queue.Inv.{IsValid}
use helos.Smp.Waiting.{Waiting, not_waiting, wait_of}
use helos.Smp.Condition.Wakes.{listed, woken}
use helos.Smp.Channel.{Channel, send_buffered}
use helos.Smp.Channel.Fill.{Filled, send_buffered-Filled}

abbrev no_bytes : List ℕ
no_bytes = 0 ∷ 0 ∷ 0 ∷ 0 ∷ []

abbrev two_objects : Queue
two_objects = record { buf = no_bytes; size = 4; begin = 0; end = 0; count = 0 }

two_objects-IsValid : IsValid two_objects
two_objects-IsValid = record {
  storage = omega arith;
  small = omega arith;
  count_in = omega arith;
  begin_in = omega arith;
  end_at = refl;
}

-- Room for two objects, and one thread that waits to receive.
abbrev channel : Channel
channel = record {
  queue = some two_objects;
  buffer = 0 ∷ 0 ∷ [];
  send = record { address = 4096; threads = [] };
  recv = record { address = 8192; threads = 1 ∷ [] };
  obj_size = 2;
}

abbrev three_objects : List ℕ
three_objects = 1 ∷ 2 ∷ 3 ∷ 4 ∷ 5 ∷ 6 ∷ []

abbrev receiving : List Waiting
receiving = not_waiting ∷ not_waiting ∷ []

send_buffered-Filled_example :
    let (sent, c', waits') = send_buffered channel three_objects 3 receiving in
    ((q' : Queue) × (c'.queue ≡ some q') × Filled 3 2 2 three_objects two_objects (sent, q'))
    × (wait_of waits' 1 ≡ (
        if listed channel.recv.threads 1
        then woken 0 (wait_of receiving 1)
        else wait_of receiving 1))
    × (c'.recv.threads ≡ [])
send_buffered-Filled_example =
    send_buffered-Filled channel three_objects 3 2 1 receiving two_objects refl (omega arith)
      two_objects-IsValid (omega arith) (omega arith) (omega arith, tt)
