-- ===== src/Smp/Channel.antt =====
-- smp/channel.c: a channel of objects of one size, with a buffer of util/queue.c. Only its creation,
-- its destruction and `smp_Channel_Send` have code.
pub mod Fill
pub mod Tests
use helos.Prelude.{
  ℕ, zero, suc, ◌+◌, ◌-◌, ◌*◌, ◌/◌, ◌<◌, refl, inl, inr, true, false, not, ◌&&◌, Option, none, some,
  List, ◌==◌, if◌then◌else◌, take, drop, mul64,
}
use helos.Util.Queue.{Queue, init_buffered, push, space}
use helos.Smp.Waiting.{Waiting}
use helos.Smp.Condition
use helos.Smp.Condition.{Condition, wait, notify_one, notify_all}

-- `smp_Channel`; `send` and `recv` are the conditions that `smp_Channel_Create` stores in them.
pub record Channel : Type 0 where
  pub queue : Option Queue
  pub buffer : List ℕ
  pub send : Condition
  pub recv : Condition
  pub obj_size : ℕ

-- `smp_Channel_Create`, with the memory and the addresses that kMalloc hands out.
pub create : ℕ → ℕ → List ℕ → List ℕ → ℕ → ℕ → Channel
create object_size buffer_size buffer queue_data send recv = record {
  queue =
      if buffer_size == 0
      then none
      else some (init_buffered queue_data (mul64 object_size buffer_size));
  buffer = buffer;
  send = Condition.create send;
  recv = Condition.create recv;
  obj_size = object_size;
}

-- `smp_Channel_Destroy`: the waits left. `none` without a queue, where a NULL pointer is read.
pub destroy : Channel → List Waiting → Option (List Waiting)
destroy c waits =
    let (sent, send', waits') = notify_all c.send 0 waits in
    let (received, recv', waits'') = notify_all c.recv 0 waits' in
    elim c.queue [ none ↦ none | some q ↦ some waits'' ]

-- `while (i < count && queue_Space(c->queue)) queue_Push(...)`, for the objects left: how many are
-- pushed.
pub fill : ℕ → ℕ → List ℕ → Queue → ℕ × Queue
fill zero obj_size bytes q = (0, q)
fill (suc n) obj_size bytes q =
    let rest = fill n obj_size (drop obj_size bytes) (push q (take obj_size bytes)) in
    if space q == 0 then (0, q) else (rest.0 + 1, rest.1)

-- `smp_Channel_Send` up to its first `smp_thread_Yield`, or to the loop if there is no queue: `i`,
-- which is also what is returned in the end.
pub send_buffered : Channel → List ℕ → ℕ → List Waiting → ℕ × Channel × List Waiting
send_buffered c bytes count waits = elim c.queue [
  | none ↦ (0, c, waits)
  | some q ↦
      let (i, q') = fill count c.obj_size bytes q in
      let (n, recv', waits') = notify_all c.recv 0 waits in
      (i, record c { queue = some q'; recv = recv' }, waits')
]

-- A round of the loop over the objects left, of thread `t`: up to the wait, and from there to
-- `smp_thread_Yield`.
pub send_wait : ℕ → Channel → List Waiting → Channel × List Waiting
send_wait t c waits =
    let (send', waits') = wait t c.send waits in (record c { send = send' }, waits')

pub send_object : Channel → List ℕ → ℕ → List Waiting → Channel × List Waiting
send_object c bytes i waits =
    let (found, recv', waits') = notify_one c.recv 1 waits in
    (record c { buffer = take c.obj_size (drop (i * c.obj_size) bytes); recv = recv' }, waits')
