-- ===== src/Smp/Tests.antt =====
-- The theorems on smp/mutex.c and smp/condiction.c with three threads.
use helos.Prelude.{ℕ, min, ◌≡◌, ◌≢◌, false, some, List, [], ◌∷◌, arith, if◌then◌else◌, length}
use helos.Smp.Waiting.{Waiting, not_waiting, is_waiting, wait_of, returned}
use helos.Smp.Mutex.{Mutex, lock_timeout, unlock}
use helos.Smp.Mutex.Handover.{unlock-lock_timeout}
use helos.Smp.Condition.{Condition, notify_all}
use helos.Smp.Condition.Wakes.{listed, woken, notify_all-wakes}

abbrev running : List Waiting
running = not_waiting ∷ not_waiting ∷ not_waiting ∷ []

-- Held by somebody.
abbrev held : Mutex
held = record { address = 4096; locked = 1; waiting = [] }

abbrev signal : Condition
signal = record { address = 8192; threads = 2 ∷ 0 ∷ [] }

notify_all-wakes_example :
    let (n, c', waits') = notify_all signal 5 running in
    (wait_of waits' 2
      ≡ (if listed signal.threads 2 then woken 5 (wait_of running 2) else wait_of running 2))
    × (c'.threads ≡ [])
    × (n ≡ min 1 (length signal.threads))
notify_all-wakes_example = notify_all-wakes signal 5 2 running (omega arith, (omega arith, tt))

unlock-lock_timeout_example :
    let (result, m', waits') = lock_timeout 7 3 1 held running in
    (is_waiting 10 (wait_of waits' 1) ≡ false)
    × (returned waits' 1 ≡ 0)
    × ((waits'' : List Waiting) × (unlock m' waits' ≡ some (held, waits''))
        × ((u : ℕ) → 1 ≢ u → wait_of waits'' u ≡ wait_of waits' u))
unlock-lock_timeout_example =
    unlock-lock_timeout 7 3 10 1 held running (ground arith) (omega arith) (omega arith)
      (omega arith) (omega arith)
