-- ===== src/Util/Queue/Refine.antt =====
-- A valid queue of util/queue.c is the bounded first-in first-out queue of the bytes it holds.
use Prim.Native.Nat.{◌+◌, ◌-◌}
use helos.Prelude.{
  sym, ℕ, zero, suc, ◌≤◌, ◌<◌, ◌≡◌, ◌≢◌, refl, ap, ap₂, List, [], ◌∷◌, ◌++◌, append-nil,
  append_assoc, arith, get_or, get_or-set_self, get_or-set_ne, set, length, length-append, take_all,
  drop_all, take, drop,
}
use helos.Util.Queue.Fifo.{Op, Reply, front, push_bytes, pop_bytes, fifo_step, fifo_run}
use helos.Util.Queue.{
  Queue, advance, push_byte, pop_byte, front_byte, is_empty, size, push_all, push, pop_all, pop,
  step, run,
}
use helos.Util.Queue.Inv.{
  IsValid, wrap, window, contents, length-contents, push_byte-IsValid, pop_byte-IsValid,
  push-IsValid, pop-IsValid, space-lem,
}

-- Writing just past a window extends it by that byte.
window-set :
    (buf : List ℕ) (size x n b e : ℕ)
    → size ≤ length buf
    → b < size
    → n < size
    → e ≡ wrap size (b + n)
    → window (set buf e x) size b (suc n) ≡ window buf size b n ++ (x ∷ [])
window-set buf size x zero b e hs hb hn at =
    ap (λ y. y ∷ []) (ground (arith, get_or-set_self buf b x 0))
window-set buf size x (suc n) b e hs hb hn at =
    ap₂ ◌∷◌ (get_or-set_ne buf e b x 0 (ground arith))
      (window-set buf size x n (advance size b) e hs (ground arith) (omega arith) (ground arith))

-- `window` matches on `suc`, the code tests `count == 0`.
window_of_ne_zero :
    (buf : List ℕ) (size b n : ℕ)
    → n ≢ 0
    → window buf size b n ≡ get_or buf b 0 ∷ window buf size (advance size b) (n - 1)
window_of_ne_zero buf size b zero p = absurd (p refl)
window_of_ne_zero buf size b (suc n) p = ap (λ k. window buf size b (suc k)) (omega arith)

pub contents-push_byte :
    {q : Queue} (b : ℕ)
    → IsValid q
    → contents (push_byte q b) ≡ push_bytes q.size (contents q) (b ∷ [])
unfolding push_byte
contents-push_byte {q} b v =
    ground (arith, length-contents q, window-set q.buf q.size b q.count q.begin q.end)

pub contents-pop_byte :
    {q : Queue}
    → IsValid q
    → ((pop_byte q).0 ≡ front (contents q)) × (contents (pop_byte q).1 ≡ drop 1 (contents q))
unfolding pop_byte
contents-pop_byte {q} v = ground (arith, window_of_ne_zero q.buf q.size q.begin q.count)

pub size-push_byte : (q : Queue) (b : ℕ) → (push_byte q b).size ≡ q.size
unfolding push_byte
size-push_byte q b = ground arith

pub size-pop_byte : (q : Queue) → (pop_byte q).1.size ≡ q.size
unfolding pop_byte
size-pop_byte q = ground arith

-- The loop of `queue_Push` appends all its bytes when they fit.
contents-push_all :
    (bs : List ℕ) {q : Queue}
    → IsValid q
    → length bs ≤ q.size - q.count
    → (contents (push_all q bs) ≡ contents q ++ bs) × ((push_all q bs).size ≡ q.size)
unfolding push_all push_byte
contents-push_all [] {q} v h = (sym (append-nil (contents q)), refl)
contents-push_all (b ∷ bs) {q} v h = ground (
  arith,
  contents-push_all bs (push_byte-IsValid b v),
  contents-push_byte b v,
  length-contents q,
  append_assoc (contents q) (b ∷ []) bs,
)

pub contents-push :
    {q : Queue} (bs : List ℕ)
    → IsValid q
    → (contents (push q bs) ≡ push_bytes q.size (contents q) bs) × ((push q bs).size ≡ q.size)
unfolding push
contents-push {q} bs v = ground (arith, contents-push_all bs v, space-lem v, length-contents q)

-- The loop of `queue_Pop` takes the oldest bytes in order.
contents-pop_all :
    (n : ℕ) {q : Queue}
    → IsValid q
    → n ≤ q.count
    → ((pop_all n q).0 ≡ take n (contents q))
      × (contents (pop_all n q).1 ≡ drop n (contents q))
      × ((pop_all n q).1.size ≡ q.size)
unfolding pop_all pop_byte
contents-pop_all zero v h = (refl, refl, refl)
contents-pop_all (suc n) {q} v h = ground (
  arith,
  contents-pop_all n (pop_byte-IsValid v),
  contents-pop_byte v,
  window_of_ne_zero q.buf q.size q.begin q.count,
)

pub contents-pop :
    {q : Queue} (n : ℕ)
    → IsValid q
    → ((pop q n).0 ≡ (pop_bytes n (contents q)).0)
      × ((pop q n).1 ≡ (pop_bytes n (contents q)).1)
      × (contents (pop q n).2 ≡ (pop_bytes n (contents q)).2)
      × ((pop q n).2.size ≡ q.size)
unfolding pop size
contents-pop {q} n v = ground (arith, contents-pop_all n v, length-contents q)

pub front_byte-front : (q : Queue) → front_byte q ≡ front (contents q)
unfolding front_byte
front_byte-front q = ground (arith, window_of_ne_zero q.buf q.size q.begin q.count)

record Simulates (cap : ℕ) (out : Reply × Queue) (spec : Reply × List ℕ) : Type 0 where
  reply : out.0 ≡ spec.0
  holds : contents out.1 ≡ spec.1
  valid : IsValid out.1
  capacity : out.1.size ≡ cap

-- One call of any kind.
step-Simulates :
    (op : Op) {q : Queue}
    → IsValid q
    → Simulates q.size (step q op) (fifo_step q.size (contents q) op)
unfolding step fifo_step is_empty size
step-Simulates (Op.push_byte b) {q} v =
    ground (arith, contents-push_byte b v, push_byte-IsValid b v, size-push_byte q b)
step-Simulates Op.pop_byte {q} v =
    ground (arith, contents-pop_byte v, pop_byte-IsValid v, size-pop_byte q)
step-Simulates (Op.push bs) v = ground (arith, contents-push bs v, push-IsValid bs v)
step-Simulates (Op.pop n) v = ground (arith, contents-pop n v, pop-IsValid n v)
step-Simulates Op.front_byte {q} v = ground (arith, front_byte-front q)
step-Simulates Op.is_empty {q} v = ground (arith, length-contents q)
step-Simulates Op.size {q} v = ground (arith, length-contents q)
step-Simulates Op.space {q} v = ground (arith, length-contents q, space-lem v)

-- Started in a valid state, any sequence of calls of util/queue.c returns the same values, bytes
-- written out included, as the bounded first-in first-out queue of the bytes held at the start.
pub queue-run_refines :
    (ops : List Op) {q : Queue} → IsValid q → run q ops ≡ fifo_run q.size (contents q) ops
unfolding run fifo_run
queue-run_refines [] v = refl
queue-run_refines (op ∷ ops) {q} v =
    let s = step-Simulates op v in ground (arith, s, queue-run_refines ops s.valid)

pop-contents :
    {q : Queue} (n : ℕ)
    → IsValid q
    → n ≡ q.count
    → ((pop q n).0 ≡ n) × ((pop q n).1 ≡ contents q) × (length (contents (pop q n).2) ≡ 0)
unfolding pop
pop-contents {q} n v e =
    ground
      (arith, contents-pop n v, length-contents q, take_all n (contents q), drop_all n (contents q))

-- In a valid queue, where `queue_Push` finds room for all the bytes, a `queue_Pop` of as many bytes
-- as are then held returns that number, writes out the older bytes and after them the pushed ones,
-- in order, and leaves the queue empty.
pub pop-push :
    {q : Queue} (bs : List ℕ)
    → IsValid q
    → length bs ≤ q.size - q.count
    → let (n, out, q') = pop (push q bs) (q.count + length bs) in
      (n ≡ q.count + length bs) × (out ≡ contents q ++ bs) × (q'.count ≡ 0)
pop-push {q} bs v h =
    let w = push-IsValid bs v in
    ground (
      arith,
      pop-contents (q.count + length bs) w,
      contents-push bs v,
      length-contents q,
      length-contents (push q bs),
      length-append (contents q) bs,
      length-contents (pop (push q bs) (q.count + length bs)).2,
    )
