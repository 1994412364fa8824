-- ===== src/Util/Stack/Laws.antt =====
-- A valid stack of util/stack.c is the last-in first-out store of the bytes it holds.
use helos.Prelude.{
  ℕ, zero, suc, ◌+◌, ◌-◌, ◌≤◌, ◌<◌, ◌≡◌, refl, sym, ap, ◌∙◌, List, [], ◌∷◌, arith, length, set,
  length-set, get_or, drop, length-drop, drop_all, length-blit, drop-blit, word,
}
use helos.Util.Stack.Lifo.{Op, Reply, lifo_step, lifo_run}
use helos.Util.Stack.{Stack, step, run}

pub record IsValid (s : Stack) : Type 0 where
  pub storage : length s.buf ≡ s.size
  pub small : s.size < word
  pub top_in : s.top ≤ s.size

-- The bytes on the stack, newest first.
abbrev pub contents : Stack → List ℕ
contents s = drop s.top s.buf

drop-set_below :
    (xs : List ℕ) (i : ℕ) (b : ℕ) → i < length xs → drop i (set xs i b) ≡ b ∷ drop (suc i) xs
drop-set_below [] i b h = absurd (omega arith)
drop-set_below (x ∷ xs) zero b h = refl
drop-set_below (x ∷ xs) (suc i) b h = drop-set_below xs i b (omega arith)

drop-cons : (xs : List ℕ) (i : ℕ) → i < length xs → drop i xs ≡ get_or xs i 0 ∷ drop (suc i) xs
drop-cons [] i h = absurd (omega arith)
drop-cons (x ∷ xs) zero h = refl
drop-cons (x ∷ xs) (suc i) h = drop-cons xs i (omega arith)

drop-nil : (k : ℕ) → drop {A = ℕ} k [] ≡ []
drop-nil zero = refl
drop-nil (suc k) = refl

drop-twice : (xs : List ℕ) (n m : ℕ) → drop m (drop n xs) ≡ drop (n + m) xs
drop-twice xs zero m = ap (λ k. drop k xs) (omega arith)
drop-twice [] (suc n) m = drop-nil m ∙ sym (drop-nil (suc n + m))
drop-twice (x ∷ xs) (suc n) m =
    let e : suc n + m ≡ suc (n + m) = omega arith in rw e (drop-twice xs n m)

record Simulates (cap : ℕ) (out : Reply × Stack) (spec : Reply × List ℕ) : Type 0 where
  reply : out.0 ≡ spec.0
  holds : contents out.1 ≡ spec.1
  valid : IsValid out.1
  capacity : out.1.size ≡ cap

-- One call of any kind.
step-Simulates :
    (op : Op) {s : Stack}
    → IsValid s
    → Simulates s.size (step s op) (lifo_step s.size (contents s) op)
unfolding step lifo_step
step-Simulates (Op.push_byte b) {s} v = ground (
  arith,
  length-drop s.top s.buf,
  length-set s.buf (s.top - 1) b,
  drop-set_below s.buf (s.top - 1) b,
)
step-Simulates Op.pop_byte {s} v =
    ground (arith, length-drop s.top s.buf, drop-cons s.buf s.top, drop_all s.top s.buf)
step-Simulates (Op.push bs) {s} v = ground (
  arith,
  length-drop s.top s.buf,
  length-blit s.buf (s.top - length bs) bs,
  drop-blit s.buf (s.top - length bs) bs,
  drop-twice s.buf (s.top - length bs) (length bs),
)
step-Simulates (Op.pop n) {s} v = ground (arith, length-drop s.top s.buf, drop-twice s.buf s.top n)
step-Simulates Op.top_byte {s} v = ground (arith, drop-cons s.buf s.top, drop_all s.top s.buf)
step-Simulates (Op.top n) {s} v = ground (arith, length-drop s.top s.buf)
step-Simulates Op.is_empty {s} v = ground (arith, length-drop s.top s.buf)
step-Simulates Op.size {s} v = ground (arith, length-drop s.top s.buf)
step-Simulates Op.space {s} v = ground (arith, length-drop s.top s.buf)
step-Simulates Op.clear {s} v = ground (arith, drop_all s.size s.buf)

-- Started in a valid state, any sequence of calls of util/stack.c returns the same values, bytes
-- written out included, as the bounded last-in first-out store of the bytes held at the start.
pub stack-run_refines :
    (ops : List Op) {s : Stack} → IsValid s → run s ops ≡ lifo_run s.size (contents s) ops
unfolding run lifo_run
stack-run_refines [] v = refl
stack-run_refines (op ∷ ops) {s} v =
    let t = step-Simulates op v in ground (arith, t, stack-run_refines ops t.valid)
