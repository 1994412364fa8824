-- ===== src/Util/Queue.antt =====
-- util/queue.c and util/queue.h: a queue of bytes in a caller's buffer, used round and round.
-- Pointers into the buffer are offsets from `data`. Messages printed on a refused call are left out.
pub mod Fifo
pub mod Inv
pub mod Refine
mod Tests
use helos.Prelude.{
  ℕ, zero, suc, ◌+◌, ◌-◌, Bool, List, [], ◌∷◌, get_or, set, length, ltb, sub64, ◌==◌, if◌then◌else◌,
}
use Fifo.{Op, Reply}

-- `queue_Queue`; `buf` is what `data` points at.
pub record Queue : Type 0 where
  pub buf : List ℕ
  pub size : ℕ
  pub begin : ℕ
  pub end : ℕ
  pub count : ℕ

pub init_buffered : List ℕ → ℕ → Queue
init_buffered buffer size = record { buf = buffer; size = size; begin = 0; end = 0; count = 0 }

-- `p++; if (p == data + size) p = data;`
abbrev pub advance : ℕ → ℕ → ℕ
advance size p = if p + 1 == size then 0 else p + 1

pub push_byte : Queue → ℕ → Queue
push_byte q b =
    if q.count == q.size
    then q
    else record q { buf = set q.buf q.end b; end = advance q.size q.end; count = q.count + 1 }

-- An empty queue yields 0.
pub pop_byte : Queue → ℕ × Queue
pop_byte q =
    if q.count == 0
    then (0, q)
    else (get_or q.buf q.begin 0, record q { begin = advance q.size q.begin; count = q.count - 1 })

pub front_byte : Queue → ℕ
front_byte q = if q.count == 0 then 0 else get_or q.buf q.begin 0

pub is_empty : Queue → Bool
is_empty q = q.count == 0

pub size : Queue → ℕ
size q = q.count

pub space : Queue → ℕ
space q = sub64 q.size q.count

-- The loop of `queue_Push` over the caller's bytes.
pub push_all : Queue → List ℕ → Queue
push_all q [] = q
push_all q (b ∷ bs) = push_all (push_byte q b) bs

pub push : Queue → List ℕ → Queue
push q bytes = if ltb (space q) (length bytes) then q else push_all q bytes

-- The loop of `queue_Pop`: the bytes in the order in which they are written out.
pub pop_all : ℕ → Queue → List ℕ × Queue
pop_all zero q = ([], q)
pop_all (suc n) q = let (b, q') = pop_byte q in let (bs, q'') = pop_all n q' in (b ∷ bs, q'')

-- The number returned, the bytes written to `buffer`, and the queue.
pub pop : Queue → ℕ → ℕ × List ℕ × Queue
pop q n = if ltb (size q) n then (0, [], q) else let (bs, q') = pop_all n q in (n, bs, q')

pub step : Queue → Op → Reply × Queue
step q (Op.push_byte b) = (Reply.done, push_byte q b)
step q Op.pop_byte = let (b, q') = pop_byte q in (Reply.byte b, q')
step q (Op.push bs) = (Reply.done, push q bs)
step q (Op.pop n) = let (k, bs, q') = pop q n in (Reply.bytes k bs, q')
step q Op.front_byte = (Reply.byte (front_byte q), q)
step q Op.is_empty = (Reply.flag (is_empty q), q)
step q Op.size = (Reply.amount (size q), q)
step q Op.space = (Reply.amount (space q), q)

-- A client's calls in order, with what each returns.
pub run : Queue → List Op → List Reply
run q [] = []
run q (op ∷ ops) = let (r, q') = step q op in r ∷ run q' ops
