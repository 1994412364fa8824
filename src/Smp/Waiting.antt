-- ===== src/Smp/Waiting.antt =====
-- smp/internal.h: what a thread waits for. A thread is the number of its place in a list; the code
-- that starts a thread gives it its `wait`, which is therefore always there. Objects are their
-- addresses, and NULL is none.
use helos.Prelude.{
  Bool-cases, inl, inr, length, ◌<◌, ◌≡◌, set, get_or-set_self, get_or-set_ne, ==_iff, ap, sym, ◌∙◌,
  arith, if◌then◌else◌, ℕ, Bool, false, ◌||◌, Option, none, some, List, ltb, ◌==◌, get_or,
}

pub data WaitingType : Type 0 where
  on_condition : WaitingType
  on_mutex : WaitingType

-- `__smp_Thread_Waiting`
pub record Waiting : Type 0 where
  pub object : Option ℕ
  pub result : ℕ
  pub timeout : ℕ
  pub type : WaitingType

abbrev pub not_waiting : Waiting
not_waiting = record { object = none; result = 0; timeout = 0; type = on_condition }

-- `__smp_Thread_Waiting_IsWaiting` when `__smp_Now` is `now`.
unfoldable pub is_waiting : ℕ → Waiting → Bool
is_waiting now w = elim w.object [ none ↦ false | some a ↦ (w.timeout == 0) || ltb now w.timeout ]

abbrev pub wait_of : List Waiting → ℕ → Waiting
wait_of waits t = get_or waits t not_waiting

-- What a waiting call returns once its thread runs again.
abbrev pub returned : List Waiting → ℕ → ℕ
returned waits t = (wait_of waits t).result

pub wait_of-set :
    (waits : List Waiting) (t u : ℕ) (w : Waiting)
    → t < length waits
    → wait_of (set waits t w) u ≡ (if t == u then w else wait_of waits u)
wait_of-set waits t u w h = elim (Bool-cases (t == u)) [
  | inl e ↦ rw e (
      ap (λ k. wait_of (set waits t w) k) (sym ((==_iff t u).0 e))
      ∙ get_or-set_self waits t w not_waiting h)
  | inr e ↦ rw e (get_or-set_ne waits t u w not_waiting (ground arith))
]
