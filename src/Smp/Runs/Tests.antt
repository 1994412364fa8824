-- ===== src/Smp/Runs/Tests.antt =====
-- The theorem on runs of the scheduler, for one thread that sleeps.
use helos.Prelude.{false, refl, [], ◌∷◌}
use helos.Prelude.Int.{pos}
use helos.Memory.PageMap.Sample.{empty}
use helos.Smp.Waiting.{not_waiting}
use helos.Smp.Thread.{Fresh, Scheduler, blank_context, init, sleep}
use helos.Smp.Runs.{Reached, begins, goes_on, sleeps, ticks}
use helos.Smp.Runs.Once.{IsSchedule, Reached-IsSchedule}

abbrev first_thread : Fresh
first_thread = record {
  state = blank_context;
  stackframe = 0;
  wait = not_waiting;
  entry_point = 8192;
  at_null = false;
  at_null_later = false;
  by_id_random = 1;
  waiting_random = 2;
}

abbrev at_start : Scheduler
at_start = (init first_thread blank_context 0 empty).1

-- The first thread goes to sleep, and the clock ticks.
abbrev asleep : Scheduler
asleep = record at_start {
  now = 2;
  threads =
      record {
        id = 1;
        nice = 80;
        last_tick = 1;
        sleep_until = 6;
        state = blank_context;
        stackframe = 0;
      }
      ∷ [];
}

asleep-Reached : Reached first_thread blank_context 0 empty asleep
unfolding init sleep
asleep-Reached = goes_on (goes_on begins (sleeps (pos 5) refl)) (ticks 2 blank_context)

Reached-IsSchedule_example : IsSchedule asleep
Reached-IsSchedule_example =
    Reached-IsSchedule first_thread blank_context 0 empty asleep asleep-Reached
