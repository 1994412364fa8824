-- ===== src/Smp/Condition/Wakes.antt =====
-- Who is woken by `smp_Condition_NotifyAll` of smp/condiction.c.
use helos.Prelude.{
  min, ℕ, ◌<◌, ◌≡◌, refl, ap, ◌∙◌, inl, inr, Bool, true, false, ◌||◌, none, List, [], ◌∷◌, arith,
  ◌==◌, if◌then◌else◌, ==_iff, Bool-cases, length, length-set,
}
use helos.Smp.Waiting.{Waiting, wait_of, wait_of-set}
use helos.Smp.Condition.{Condition, wake, wake_all, notify_all}

-- Whether the thread is one of those listed.
abbrev pub listed : List ℕ → ℕ → Bool
listed [] u = false
listed (t ∷ ts) u = (t == u) || listed ts u

abbrev pub AllThreads : List Waiting → List ℕ → Type 0
AllThreads waits [] = Unit {0}
AllThreads waits (t ∷ ts) = (t < length waits) × AllThreads waits ts

length-wake_all :
    (ts : List ℕ) (d : ℕ) (waits : List Waiting) → length (wake_all ts d waits) ≡ length waits
unfolding wake_all wake
length-wake_all [] d waits = refl
length-wake_all (t ∷ ts) d waits = length-set (wake_all ts d waits) t _ ∙ length-wake_all ts d waits

abbrev pub woken : ℕ → Waiting → Waiting
woken d w = record w { object = none; result = d }

again : (d : ℕ) (w : Waiting) (b : Bool) → woken d (if b then woken d w else w) ≡ woken d w
again d w true = refl
again d w false = refl

wait_of-wake_all :
    (ts : List ℕ) (d u : ℕ) (waits : List Waiting)
    → AllThreads waits ts
    → wait_of (wake_all ts d waits) u
      ≡ (if listed ts u then woken d (wait_of waits u) else wait_of waits u)
unfolding wake_all wake
wait_of-wake_all [] d u waits h = refl
wait_of-wake_all (t ∷ ts) d u waits h =
    let rest = wake_all ts d waits in
    let here = wait_of-wake_all ts d u waits h.1 in
    let long : t < length rest = omega (arith, h.0, length-wake_all ts d waits) in
    elim (Bool-cases (t == u)) [
      | inl e ↦
          wait_of-set rest t u _ long
          ∙ rw e (
              ap (woken d) (ap (wait_of rest) ((==_iff t u).0 e) ∙ here)
              ∙ again d (wait_of waits u) (listed ts u))
      | inr e ↦ wait_of-set rest t u _ long ∙ rw e here
    ]

-- `smp_Condition_NotifyAll` on a condition with threads waiting: each of them, and no other thread,
-- has its wait ended and the data passed written to its wait, the condition has no thread left, and
-- the number returned is 1 however many they are, or 0 if there were none.
pub notify_all-wakes :
    (c : Condition) (d u : ℕ) (waits : List Waiting)
    → AllThreads waits c.threads
    → let (n, c', waits') = notify_all c d waits in
      (wait_of waits' u
        ≡ (if listed c.threads u then woken d (wait_of waits u) else wait_of waits u))
      × (c'.threads ≡ [])
      × (n ≡ min 1 (length c.threads))
unfolding notify_all
notify_all-wakes c d u waits h = ground (arith, wait_of-wake_all c.threads d u waits h)
