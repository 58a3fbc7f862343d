-- ===== src/Tests/Schedules.antt =====
-- Runs of the scheduler (scheduler/scheduler.go).
use proxy_common.Common.{◌≤◌, ◌≡◌, refl, ◌⊎◌, true, false, [], ◌∷◌, length}
use proxy_common.Scheduler.{
  Scheduler, in_task, new, start, begin_stop, cancel, is_running, tick, starts, stop_begins, moves,
  Steps, here, next,
}
use proxy_common.Scheduler.Runs.{one_worker, stop_can_end}

-- the task runs while a call of `Stop` waits
abbrev stopping_in_task : Scheduler
stopping_in_task = record {
  running = true;
  stopping = true;
  workers = record { cancelled = true; place = in_task } ∷ [];
}

run_to_stop : Steps new stopping_in_task
unfolding start begin_stop cancel
run_to_stop = next (starts refl) (next (moves tick) (next (stop_begins refl) here))

one_worker_example :
    (length stopping_in_task.workers ≤ 1)
    × ((stopping_in_task.workers ≡ []) ⊎ (is_running stopping_in_task ≡ true))
    × ((true ≡ false) ⊎ (is_running stopping_in_task ≡ true))
one_worker_example = one_worker stopping_in_task run_to_stop

stop_can_end_example : Steps stopping_in_task new
stop_can_end_example = stop_can_end stopping_in_task run_to_stop refl
