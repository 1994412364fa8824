-- ===== src/Smp/Switch/Choice.antt =====
-- Which waiting thread smp/kthread_switch.c chooses.
use helos.Prelude.{
  sym, ℕ, zero, suc, ◌<◌, ◌≡◌, refl, ap, subst, inl, inr, true, false, Option, none, some, List, [],
  ◌∷◌, arith, if◌then◌else◌, Bool-cases, length, length-append,
}
use helos.Util.Tree.{Nodes, leaf, node, Tree, NodePointer, root_of, first_node, next}
use helos.Util.Tree.Order.{entries, following}
use helos.Util.Tree.Walk.{StartsAt, entry_of, first_node-StartsAt, next_at}
use helos.Smp.Thread.{Scheduler}
use helos.Smp.Switch.{node_count, is_ready, skip}

-- The first ready thread among those that wait, in the order of their priorities.
unfoldable pub first_ready : Scheduler → List (ℕ × ℕ) → Option (ℕ × ℕ)
first_ready s [] = none
first_ready s ((k, t) ∷ es) = if is_ready s t then some (k, t) else first_ready s es

node_count-length : (t : Nodes ℕ) → node_count t ≡ length (entries t)
unfolding node_count
node_count-length leaf = refl
node_count-length (node l k p v r) = omega (
  arith,
  node_count-length l,
  node_count-length r,
  length-append (entries l) ((k, v) ∷ entries r),
)

pub rounds-length : (t : Tree ℕ) → node_count t.root ≡ length (entries t.root)
rounds-length t = node_count-length t.root

-- The node chosen, and its place in the order.
pub data Chosen (s : Scheduler) (whole : Nodes ℕ) (es : List (ℕ × ℕ))
    : Option (NodePointer ℕ) → Type 0 where
  nobody : first_ready s es ≡ none → Chosen s whole es none
  chosen :
      (n : NodePointer ℕ)
      → first_ready s es ≡ some (entry_of n)
      → is_ready s n.value ≡ true
      → root_of n ≡ whole
      → Chosen s whole es (some n)

-- A thread that is not ready is passed.
Chosen-later :
    (s : Scheduler) (whole : Nodes ℕ) (k t : ℕ) (es : List (ℕ × ℕ)) (o : Option (NodePointer ℕ))
    → is_ready s t ≡ false
    → Chosen s whole es o
    → Chosen s whole ((k, t) ∷ es) o
unfolding first_ready
Chosen-later s whole k t es none other (nobody e) = nobody (rw other e)
Chosen-later s whole k t es (some n) other (chosen _ e ready r) = chosen n (rw other e) ready r

skip-Chosen :
    (fuel : ℕ) (s : Scheduler) (whole : Nodes ℕ) (es : List (ℕ × ℕ)) (o : Option (NodePointer ℕ))
    → StartsAt whole es o
    → length es < fuel
    → Chosen s whole es (skip fuel s o)
unfolding skip first_ready
skip-Chosen zero s whole es o starts h = absurd (omega arith)
skip-Chosen (suc fuel) s whole es none starts h = nobody (rw starts refl)
skip-Chosen (suc fuel) s whole es (some n) (e, r) h = elim (Bool-cases (is_ready s n.value)) [
  | inl ready ↦ rw ready (chosen n (rw (e, ready) refl) ready r)
  | inr other ↦
      let onward : StartsAt (root_of n) (following n) (next n) =
        next_at n.left n.key n.internal n.value n.right n.fathers in
      let rest =
        skip-Chosen fuel s whole (following n) (next n)
          (subst (λ w. StartsAt w (following n) (next n)) r onward) (omega (arith, ap length e)) in
      subst (λ w. Chosen s whole w (skip (suc fuel) s (some n))) (sym e)
        (Chosen-later s whole n.key n.value (following n) (skip (suc fuel) s (some n)) other
          (rw other rest))
]

pub choose-Chosen :
    (s : Scheduler)
    → Chosen s s.waiting.root
        (entries s.waiting.root)
        (skip (suc (node_count s.waiting.root)) s (first_node s.waiting))
choose-Chosen s =
    skip-Chosen (suc (node_count s.waiting.root)) s s.waiting.root (entries s.waiting.root)
      (first_node s.waiting) (first_node-StartsAt s.waiting)
      (omega (arith, node_count-length s.waiting.root))
