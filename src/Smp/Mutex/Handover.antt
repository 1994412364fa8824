-- ===== src/Smp/Mutex/Handover.antt =====
-- How smp/mutex.c hands a locked mutex over to a thread that waits.
use helos.Prelude.{
  zero, suc, [], Option, ◌>>=◌, get_or-set_ne, word, ◌+◌, ◌≤◌, ap, add64, arith, get_or-set_self,
  ◌∷◌, set, ◌==◌, ℕ, ◌<◌, ◌≡◌, refl, ◌≢◌, false, none, some, List, if◌then◌else◌, length,
}
use helos.Smp.Waiting.{Waiting, on_mutex, not_waiting, is_waiting, wait_of, returned}
use helos.Smp.Mutex.{Mutex, lock_timeout, lock, unlock}

abbrev waiting_since : ℕ → ℕ → Mutex → Waiting
waiting_since now timeout m = record {
  object = some m.address;
  result = 0;
  timeout = if timeout == 0 then 0 else add64 now timeout;
  type = on_mutex;
}

abbrev handed : Waiting → Waiting
handed w = record w { object = none; result = 1; timeout = 0 }

lock_timeout-waits :
    (now timeout t : ℕ) (m : Mutex) (waits : List Waiting)
    → m.locked ≢ 0
    → lock_timeout now timeout t m waits
      ≡ (none, record m { waiting = t ∷ m.waiting }, set waits t (waiting_since now timeout m))
unfolding lock_timeout
lock_timeout-waits now timeout t m waits h =
    let e : (m.locked == 0) ≡ false = ground arith in rw (lock_timeout, e) refl

unlock-hands :
    (t : ℕ) (m : Mutex) (waits : List Waiting)
    → m.locked ≢ 0
    → unlock (record m { waiting = t ∷ m.waiting }) waits
      ≡ some (m, set waits t (handed (wait_of waits t)))
unfolding unlock
unlock-hands t m waits h = let e : (m.locked == 0) ≡ false = ground arith in rw (unlock, e) refl

-- Calls of `smp_Mutex_Lock` by one thread after the other, and calls of `smp_Mutex_Unlock`.
pub locks : ℕ → List ℕ → Mutex → List Waiting → Mutex × List Waiting
locks now [] m waits = (m, waits)
locks now (u ∷ us) m waits = let (result, m', waits') = lock now u m waits in locks now us m' waits'

pub unlocks : ℕ → Mutex → List Waiting → Option (Mutex × List Waiting)
unlocks zero m waits = some (m, waits)
unlocks (suc n) m waits = unlocks n m waits >>= λ r. unlock r.0 r.1

abbrev pub Others : ℕ → List ℕ → Type 0
Others t [] = Unit {0}
Others t (u ∷ us) = (u ≢ t) × Others t us

-- What the unlocks leave that match the locks of other threads.
record Undone (now : ℕ) (us : List ℕ) (m : Mutex) (waits : List Waiting) (t : ℕ) : Type 0 where
  waits' : List Waiting
  done : unlocks (length us) (locks now us m waits).0 (locks now us m waits).1 ≡ some (m, waits')
  same : wait_of waits' t ≡ wait_of waits t
  long : length waits' ≡ length waits

-- A thread that gives up: `smp_Mutex_LockTimeout` with a timeout on a locked mutex, which passes,
-- lets the thread run again with the result false; the holder's `smp_Mutex_Unlock` still hands the
-- mutex to it, and so the mutex stays locked with nobody to unlock it.
pub unlock-lock_timeout :
    (now timeout later t : ℕ) (m : Mutex) (waits : List Waiting)
    → m.locked ≢ 0
    → t < length waits
    → 1 ≤ timeout
    → now + timeout < word
    → now + timeout ≤ later
    → let (result, m', waits') = lock_timeout now timeout t m waits in
      (is_waiting later (wait_of waits' t) ≡ false)
      × (returned waits' t ≡ 0)
      × ((waits'' : List Waiting) × (unlock m' waits' ≡ some (m, waits''))
          × ((u : ℕ) → t ≢ u → wait_of waits'' u ≡ wait_of waits' u))
unfolding is_waiting
unlock-lock_timeout now timeout later t m waits h k some_time small passed =
    let w = waiting_since now timeout m in
    let waits' = set waits t w in
    let at : wait_of waits' t ≡ w = get_or-set_self waits t w not_waiting k in
    rw (lock_timeout-waits now timeout t m waits h) (
      rw at (ground arith),
      ap (λ x. x.result) at,
      (
        set waits' t (handed (wait_of waits' t)),
        unlock-hands t m waits' h,
        λ u apart. get_or-set_ne waits' t u _ not_waiting apart,
      ),
    )
