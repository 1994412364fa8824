-- ===== src/Smp/Mutex.antt =====
-- smp/mutex.c. The vector of waiting threads is a list, the one pushed last first.
pub mod Handover
use helos.Prelude.{
  ℕ, Bool, true, false, Option, none, some, List, [], ◌∷◌, ◌==◌, if◌then◌else◌, set, add64,
}
use helos.Smp.Waiting.{Waiting, on_mutex, wait_of}

-- `smp_Mutex`, with its address.
pub record Mutex : Type 0 where
  pub address : ℕ
  pub locked : ℕ
  pub waiting : List ℕ

pub create : ℕ → Mutex
create address = record { address = address; locked = 0; waiting = [] }

-- `smp_Mutex_LockTimeout` of thread `t` up to `smp_thread_Yield`: `some true` if it returns at once;
-- after `none` the thread waits, and returns its `wait->data` when it runs again.
pub lock_timeout : ℕ → ℕ → ℕ → Mutex → List Waiting → Option Bool × Mutex × List Waiting
lock_timeout now timeout t m waits =
    if m.locked == 0 then (some true, record m { locked = 1 }, waits) else (
      none,
      record m { waiting = t ∷ m.waiting },
      set waits t (record {
        object = some m.address;
        result = 0;
        timeout = if timeout == 0 then 0 else add64 now timeout;
        type = on_mutex;
      }),
    )

pub lock : ℕ → ℕ → Mutex → List Waiting → Option Bool × Mutex × List Waiting
lock now t m waits = lock_timeout now 0 t m waits

pub try_lock : Mutex → Bool × Mutex
try_lock m = if m.locked == 0 then (true, record m { locked = 1 }) else (false, m)

-- `none` is the failed assertion.
pub unlock : Mutex → List Waiting → Option (Mutex × List Waiting)
unlock m waits = if m.locked == 0 then none else elim m.waiting [
  | [] ↦ some (record m { locked = 0 }, waits)
  | t ∷ ts ↦ some (
    record m { waiting = ts },
    set waits t (record (wait_of waits t) { object = none; result = 1; timeout = 0 }),
  )
]
