-- ===== src/Util/Queue/Inv.antt =====
-- The representation invariant of `queue_Queue`, and the bytes that a queue holds.
use helos.Prelude.{
  sym, ℕ, zero, suc, ◌+◌, ◌-◌, ◌≤◌, ◌<◌, ◌≡◌, refl, ap, List, [], ◌∷◌, arith, get_or, length,
  length-set, ltb, word, if◌then◌else◌,
}
use helos.Util.Queue.{
  Queue, init_buffered, advance, push_byte, pop_byte, push_all, push, pop_all, pop, size, space,
}

-- Where `end` stands: `i` bytes past the start of the buffer, or that much past its end.
abbrev pub wrap : ℕ → ℕ → ℕ
wrap size i = if ltb i size then i else i - size

pub record IsValid (q : Queue) : Type 0 where
  pub storage : q.size ≤ length q.buf
  pub small : q.size < word
  pub count_in : q.count ≤ q.size
  pub begin_in : q.begin ≤ q.size - 1
  pub end_at : q.end ≡ wrap q.size (q.begin + q.count)

-- `n` bytes from offset `b` on, going round.
abbrev pub window : List ℕ → ℕ → ℕ → ℕ → List ℕ
window buf size b zero = []
window buf size b (suc n) = get_or buf b 0 ∷ window buf size (advance size b) n

-- The bytes in the queue, oldest first.
abbrev pub contents : Queue → List ℕ
contents q = window q.buf q.size q.begin q.count

pub length-window : (buf : List ℕ) (size b n : ℕ) → length (window buf size b n) ≡ n
length-window buf size b zero = refl
length-window buf size b (suc n) = ap suc (length-window buf size (advance size b) n)

pub length-contents : (q : Queue) → length (contents q) ≡ q.count
length-contents q = length-window q.buf q.size q.begin q.count

pub size-contents : (q : Queue) → size q ≡ length (contents q)
unfolding size
size-contents q = sym (length-contents q)

pub init_buffered-IsValid :
    (buffer : List ℕ) (n : ℕ) → n ≤ length buffer → n < word → IsValid (init_buffered buffer n)
unfolding init_buffered
init_buffered-IsValid buffer n h k = ground arith

pub push_byte-IsValid : {q : Queue} (b : ℕ) → IsValid q → IsValid (push_byte q b)
unfolding push_byte
push_byte-IsValid {q} b v = ground (arith, length-set q.buf q.end b)

pub pop_byte-IsValid : {q : Queue} → IsValid q → IsValid (pop_byte q).1
unfolding pop_byte
pop_byte-IsValid v = ground arith

push_all-IsValid : (bs : List ℕ) {q : Queue} → IsValid q → IsValid (push_all q bs)
unfolding push_all
push_all-IsValid [] v = v
push_all-IsValid (b ∷ bs) v = push_all-IsValid bs (push_byte-IsValid b v)

pop_all-IsValid : (n : ℕ) {q : Queue} → IsValid q → IsValid (pop_all n q).1
unfolding pop_all
pop_all-IsValid zero v = v
pop_all-IsValid (suc n) v = pop_all-IsValid n (pop_byte-IsValid v)

pub push-IsValid : {q : Queue} (bs : List ℕ) → IsValid q → IsValid (push q bs)
unfolding push
push-IsValid bs v = ground (arith, push_all-IsValid bs v)

pub pop-IsValid : {q : Queue} (n : ℕ) → IsValid q → IsValid (pop q n).2
unfolding pop
pop-IsValid n v = ground (arith, pop_all-IsValid n v)

pub space-lem : {q : Queue} → IsValid q → space q ≡ q.size - q.count
unfolding space
space-lem v = omega arith
