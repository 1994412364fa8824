-- ===== src/Smp/Runs.antt =====
-- The scheduler of smp/kthread.c and smp/kthread_switch.c over time: what may happen to it, one step
-- after the other.
pub mod Start
pub mod Once
pub mod Tests
use helos.Prelude.{
  Bool, ℕ, ◌-◌, ◌/◌, ◌≡◌, refl, ap, inl, inr, true, false, Option, none, some, List, map, word,
}
use helos.Prelude.Int.{ℤ}
use helos.Memory.PageMap.{Paging}
use helos.Smp.Waiting.{Waiting}
use helos.Smp.Thread.{Fresh, Context, Arguments, Scheduler, start, nice, sleep, cleanup, init}
use helos.Smp.Switch.{switch}
use helos.Smp.Switch.Saved.{Fits}

-- A call of smp/kthread.c, a switch while the priorities are machine words, a tick of the clock with
-- the interrupted program's state, and what mutexes, conditions and memory do to the variables that
-- they share.
pub data Step (s : Scheduler) : Scheduler → Type 0 where
  starts :
      (fresh : Fresh) (entry n id : ℕ) (args : Option Arguments) {s' : Scheduler}
      → start fresh entry args n s ≡ some (id, s')
      → Step s s'
  renices : (id : ℕ) (n : ℤ) → Step s (nice id n s).1
  sleeps : (ticks : ℤ) {s' : Scheduler} → sleep ticks s ≡ some s' → Step s s'
  ends :
      (random : ℕ) (at_null : Bool) (after_free : ℕ) {s' : Scheduler}
      → cleanup random at_null after_free s ≡ some s'
      → Step s s'
  switches :
      (random : ℕ → ℕ) (idle r : ℕ) {s' : Scheduler}
      → Fits s
      → switch random idle s ≡ some (r, s')
      → Step s s'
  ticks : (now : ℕ) (state : Context) → Step s (record s { now = now; last_state = state })
  others :
      (waits : List Waiting) (bottom : ℕ) (paging : Paging)
      → Step s (record s { waits = waits; mapping_bottom = bottom; paging = paging })

-- What some number of steps leads to, after `smp_thread_Init`.
pub data Reached (fresh : Fresh) (state : Context) (bottom : ℕ) (paging : Paging)
    : Scheduler → Type 0 where
  begins : Reached fresh state bottom paging (init fresh state bottom paging).1
  goes_on :
      {s s' : Scheduler}
      → Reached fresh state bottom paging s
      → Step s s'
      → Reached fresh state bottom paging s'
