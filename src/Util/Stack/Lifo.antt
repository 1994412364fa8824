-- ===== src/Util/Stack/Lifo.antt =====
-- What util/stack.h promises: a last-in first-out store of at most `cap` bytes, newest first.
use helos.Prelude.{ℕ, ◌-◌, Bool, List, [], ◌∷◌, ◌++◌, ltb, ◌==◌, if◌then◌else◌, length, take, drop}

-- The calls of a client, and what it sees of each.
pub data Op : Type 0 where
  push_byte : ℕ → Op
  pop_byte : Op
  push : List ℕ → Op
  pop : ℕ → Op
  top_byte : Op
  top : ℕ → Op
  is_empty : Op
  size : Op
  space : Op
  clear : Op

pub data Reply : Type 0 where
  done : Reply
  byte : ℕ → Reply
  bytes : ℕ → List ℕ → Reply
  flag : Bool → Reply
  amount : ℕ → Reply

-- The newest byte, or 0.
abbrev pub newest : List ℕ → ℕ
newest [] = 0
newest (b ∷ _) = b

-- A block goes on top as it stands, or not at all.
abbrev pub push_bytes : ℕ → List ℕ → List ℕ → List ℕ
push_bytes cap lifo bs = if ltb (cap - length lifo) (length bs) then lifo else bs ++ lifo

abbrev pub top_bytes : ℕ → List ℕ → ℕ × List ℕ
top_bytes n lifo = if ltb (length lifo) n then (0, []) else (n, take n lifo)

abbrev pub rest : ℕ → List ℕ → List ℕ
rest n lifo = if ltb (length lifo) n then lifo else drop n lifo

unfoldable pub lifo_step : ℕ → List ℕ → Op → Reply × List ℕ
lifo_step cap lifo (Op.push_byte b) = (Reply.done, push_bytes cap lifo (b ∷ []))
lifo_step cap lifo Op.pop_byte = (Reply.byte (newest lifo), drop 1 lifo)
lifo_step cap lifo (Op.push bs) = (Reply.done, push_bytes cap lifo bs)
lifo_step cap lifo (Op.pop n) = let (k, bs) = top_bytes n lifo in (Reply.bytes k bs, rest n lifo)
lifo_step cap lifo Op.top_byte = (Reply.byte (newest lifo), lifo)
lifo_step cap lifo (Op.top n) = let (k, bs) = top_bytes n lifo in (Reply.bytes k bs, lifo)
lifo_step cap lifo Op.is_empty = (Reply.flag (length lifo == 0), lifo)
lifo_step cap lifo Op.size = (Reply.amount (length lifo), lifo)
lifo_step cap lifo Op.space = (Reply.amount (cap - length lifo), lifo)
lifo_step cap lifo Op.clear = (Reply.done, [])

unfoldable pub lifo_run : ℕ → List ℕ → List Op → List Reply
lifo_run cap lifo [] = []
lifo_run cap lifo (op ∷ ops) = let (r, lifo') = lifo_step cap lifo op in r ∷ lifo_run cap lifo' ops
