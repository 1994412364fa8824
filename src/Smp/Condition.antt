-- ===== src/Smp/Condition.antt =====
-- smp/condiction.c. The vector of waiting threads is a list, the one pushed last first.
pub mod Wakes
use helos.Prelude.{ℕ, ◌-◌, Bool, true, false, none, some, List, [], ◌∷◌, set, word}
use helos.Smp.Waiting.{Waiting, on_condition, wait_of}

-- `smp_Condition`, with its address.
pub record Condition : Type 0 where
  pub address : ℕ
  pub threads : List ℕ

pub create : ℕ → Condition
create address = record { address = address; threads = [] }

-- `smp_Condition_Wait` of thread `t` up to `smp_thread_Yield`; it returns its `wait->data` when it
-- runs again.
pub wait : ℕ → Condition → List Waiting → Condition × List Waiting
wait t c waits = (
  record c { threads = t ∷ c.threads },
  set waits t (record { object = some c.address; result = 0; timeout = 0; type = on_condition }),
)

-- `t->wait->object = NULL; t->wait->data = data;`
pub wake : ℕ → List Waiting → ℕ → List Waiting
wake word_sent waits t =
    set waits t (record (wait_of waits t) { object = none; result = word_sent })

pub notify_one : Condition → ℕ → List Waiting → Bool × Condition × List Waiting
notify_one c word_sent waits = elim c.threads [
  | [] ↦ (false, c, waits)
  | t ∷ ts ↦ (true, record c { threads = ts }, wake word_sent waits t)
]

-- The loop of `smp_Condition_NotifyAll`, from the thread pushed first.
pub wake_all : List ℕ → ℕ → List Waiting → List Waiting
wake_all [] word_sent waits = waits
wake_all (t ∷ ts) word_sent waits = wake word_sent (wake_all ts word_sent waits) t

-- The number returned, the condition and the threads' waits.
pub notify_all : Condition → ℕ → List Waiting → ℕ × Condition × List Waiting
notify_all c word_sent waits = elim c.threads [
  | [] ↦ (0, c, waits)
  | t ∷ ts ↦ (1, record c { threads = [] }, wake_all (t ∷ ts) word_sent waits)
]

-- `smp_Condition_Destroy` wakes all with UINTPTR_MAX.
pub destroy : Condition → List Waiting → List Waiting
destroy c waits = (notify_all c (word - 1) waits).2
