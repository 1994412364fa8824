-- ===== src/Util/Queue/Fifo.antt =====
-- What util/queue.h promises: a first-in first-out queue of at most `cap` bytes, oldest first.
use helos.Prelude.{ℕ, ◌-◌, Bool, List, [], ◌∷◌, ◌++◌, length, take, drop, ltb, ◌==◌, if◌then◌else◌}

-- The calls of a client, and what it sees of each.
pub data Op : Type 0 where
  push_byte : ℕ → Op
  pop_byte : Op
  push : List ℕ → Op
  pop : ℕ → Op
  front_byte : Op
  is_empty : Op
  size : Op
  space : Op

pub data Reply : Type 0 where
  done : Reply
  byte : ℕ → Reply
  bytes : ℕ → List ℕ → Reply
  flag : Bool → Reply
  amount : ℕ → Reply

-- The oldest byte, or 0.
abbrev pub front : List ℕ → ℕ
front [] = 0
front (b ∷ _) = b

-- All or nothing.
abbrev pub push_bytes : ℕ → List ℕ → List ℕ → List ℕ
push_bytes cap fifo bs = if ltb (cap - length fifo) (length bs) then fifo else fifo ++ bs

abbrev pub pop_bytes : ℕ → List ℕ → ℕ × List ℕ × List ℕ
pop_bytes n fifo = if ltb (length fifo) n then (0, [], fifo) else (n, take n fifo, drop n fifo)

unfoldable pub fifo_step : ℕ → List ℕ → Op → Reply × List ℕ
fifo_step cap fifo (Op.push_byte b) = (Reply.done, push_bytes cap fifo (b ∷ []))
fifo_step cap fifo Op.pop_byte = (Reply.byte (front fifo), drop 1 fifo)
fifo_step cap fifo (Op.push bs) = (Reply.done, push_bytes cap fifo bs)
fifo_step cap fifo (Op.pop n) = let (k, bs, rest) = pop_bytes n fifo in (Reply.bytes k bs, rest)
fifo_step cap fifo Op.front_byte = (Reply.byte (front fifo), fifo)
fifo_step cap fifo Op.is_empty = (Reply.flag (length fifo == 0), fifo)
fifo_step cap fifo Op.size = (Reply.amount (length fifo), fifo)
fifo_step cap fifo Op.space = (Reply.amount (cap - length fifo), fifo)

unfoldable pub fifo_run : ℕ → List ℕ → List Op → List Reply
fifo_run cap fifo [] = []
fifo_run cap fifo (op ∷ ops) = let (r, fifo') = fifo_step cap fifo op in r ∷ fifo_run cap fifo' ops
