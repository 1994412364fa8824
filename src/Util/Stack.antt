-- ===== src/Util/Stack.antt =====
-- util/stack.c and util/stack.h: a stack of bytes that grows down from the end of a caller's buffer.
-- Pointers into the buffer are offsets from `data`. Messages printed on a refused call are left out.
pub mod Lifo
pub mod Laws
mod Tests
use helos.Prelude.{
  ℕ, ◌+◌, ◌-◌, ◌/◌, Bool, List, [], ◌∷◌, ltb, leb, ◌==◌, if◌then◌else◌, length, set, get_or, take,
  drop, blit, sub64,
}
use Lifo.{Op, Reply}

-- `stack`; `buf` is what `data` points at.
pub record Stack : Type 0 where
  pub buf : List ℕ
  pub size : ℕ
  pub top : ℕ

pub init_buffered : List ℕ → ℕ → Stack
init_buffered buffer n = record { buf = buffer; size = n; top = n }

-- A full stack drops the byte.
pub push_byte : Stack → ℕ → Stack
push_byte s b =
    if leb s.top 0 then s else record s { top = s.top - 1; buf = set s.buf (s.top - 1) b }

-- An empty stack yields 0.
pub pop_byte : Stack → ℕ × Stack
pop_byte s =
    if s.top == s.size then (0, s) else (get_or s.buf s.top 0, record s { top = s.top + 1 })

pub is_empty : Stack → Bool
is_empty s = s.top == s.size

pub stack_size : Stack → ℕ
stack_size s = sub64 s.size s.top

pub space : Stack → ℕ
space s = s.top

-- `memcpy(s->top, buffer, size)` after `top -= size`.
pub push : Stack → List ℕ → Stack
unfolding space
push s bytes =
    if ltb (space s) (length bytes)
    then s
    else record s { top = s.top - length bytes; buf = blit s.buf (s.top - length bytes) bytes }

-- The number returned, the bytes written to `buffer`, and the stack.
pub pop : Stack → ℕ → ℕ × List ℕ × Stack
unfolding stack_size
pop s n =
    if ltb (stack_size s) n
    then (0, [], s)
    else (n, take n (drop s.top s.buf), record s { top = s.top + n })

pub top_byte : Stack → ℕ
unfolding is_empty
top_byte s = if is_empty s then 0 else get_or s.buf s.top 0

-- The number returned and the bytes written to `buffer`.
pub top : Stack → ℕ → ℕ × List ℕ
unfolding stack_size
top s n = if ltb (stack_size s) n then (0, []) else (n, take n (drop s.top s.buf))

pub clear : Stack → Stack
clear s = record s { top = s.size }

pub step : Stack → Op → Reply × Stack
unfolding push_byte pop_byte is_empty stack_size space push pop top_byte top clear
step s (Op.push_byte b) = (Reply.done, push_byte s b)
step s Op.pop_byte = let (b, s') = pop_byte s in (Reply.byte b, s')
step s (Op.push bs) = (Reply.done, push s bs)
step s (Op.pop n) = let (k, bs, s') = pop s n in (Reply.bytes k bs, s')
step s Op.top_byte = (Reply.byte (top_byte s), s)
step s (Op.top n) = let (k, bs) = top s n in (Reply.bytes k bs, s)
step s Op.is_empty = (Reply.flag (is_empty s), s)
step s Op.size = (Reply.amount (stack_size s), s)
step s Op.space = (Reply.amount (space s), s)
step s Op.clear = (Reply.done, clear s)

-- A client's calls in order, with what each returns.
pub run : Stack → List Op → List Reply
run s [] = []
run s (op ∷ ops) = let (r, s') = step s op in r ∷ run s' ops
