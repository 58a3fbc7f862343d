-- ===== src/Scheduler.antt =====
-- scheduler/scheduler.go: a goroutine that runs a task at intervals, with `Start` and `Stop`.
-- The state is what the mutex guards and the goroutines that are there. A step is a call up to where
-- it waits, or a move of a goroutine, so a run is an interleaving. The task returns, and does not
-- call the scheduler; when the ticker fires is left open.
pub mod Runs
use proxy_common.Common.{◌≡◌, Bool, true, false, List, [], ◌∷◌, if◌then◌else◌}

-- the place in the loop of a goroutine: at the `select`, or in the task
pub data Place : Type 0 where
  selecting in_task : Place

-- A goroutine, with whether its context was cancelled.
pub record Worker : Type 0 where
  pub cancelled : Bool
  pub place : Place

-- `stopping` says that a call of `Stop` holds the mutex and is in `wg.Wait()`. The newest of the
-- workers comes first; `s.cancel` is its cancel function.
pub record Scheduler : Type 0 where
  pub running : Bool
  pub stopping : Bool
  pub workers : List Worker

abbrev pub new : Scheduler
new = record { running = false; stopping = false; workers = [] }

unfoldable pub start : Scheduler → Scheduler
start s = if s.running then s else record s {
  running = true;
  workers = record { cancelled = false; place = selecting } ∷ s.workers;
}

unfoldable pub cancel : List Worker → List Worker
cancel [] = []
cancel (w ∷ workers) = record w { cancelled = true } ∷ workers

-- `Stop`, up to `wg.Wait()`
unfoldable pub begin_stop : Scheduler → Scheduler
unfolding cancel
begin_stop s = if s.running then record s { stopping = true; workers = cancel s.workers } else s

-- `Stop`, behind `wg.Wait()`
unfoldable pub end_stop : Scheduler → Scheduler
end_stop s = record s { running = false; stopping = false }

unfoldable pub is_running : Scheduler → Bool
is_running s = s.running

-- A move of one goroutine: the ticker fires, the task returns, or the goroutine sees that it was
-- cancelled. At the `select` both may be possible, and either may happen.
pub data Move : List Worker → List Worker → Type 0 where
  tick :
      {c : Bool} {ws : List Worker}
      → Move
          (record { cancelled = c; place = selecting } ∷ ws)
          (record { cancelled = c; place = in_task } ∷ ws)
  task_returns :
      {c : Bool} {ws : List Worker}
      → Move
          (record { cancelled = c; place = in_task } ∷ ws)
          (record { cancelled = c; place = selecting } ∷ ws)
  quit : {ws : List Worker} → Move (record { cancelled = true; place = selecting } ∷ ws) ws
  other : {w : Worker} {ws ws' : List Worker} → Move ws ws' → Move (w ∷ ws) (w ∷ ws')

-- A call needs the mutex, which a waiting `Stop` holds; `wg.Wait()` ends when no goroutine is left.
pub data Step : Scheduler → Scheduler → Type 0 where
  starts : {s : Scheduler} → s.stopping ≡ false → Step s (start s)
  stop_begins : {s : Scheduler} → s.stopping ≡ false → Step s (begin_stop s)
  stop_ends : {s : Scheduler} → s.stopping ≡ true → s.workers ≡ [] → Step s (end_stop s)
  moves :
      {s : Scheduler} {ws : List Worker} → Move s.workers ws → Step s (record s { workers = ws })

pub data Steps : Scheduler → Scheduler → Type 0 where
  here : {s : Scheduler} → Steps s s
  next : {s s' s'' : Scheduler} → Step s s' → Steps s' s'' → Steps s s''
