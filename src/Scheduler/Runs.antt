-- ===== src/Scheduler/Runs.antt =====
-- Every run of a scheduler (scheduler/scheduler.go).
use proxy_common.Common.{
  ◌≤◌, ◌≡◌, refl, Bool, true, false, List, [], ◌∷◌, arith, length, ◌⊎◌, inl, inr,
}
use proxy_common.Scheduler.{
  Place, selecting, in_task, Worker, Scheduler, new, start, begin_stop, end_stop, cancel,
  is_running, Move, tick, task_returns, quit, other, Step, starts, stop_begins, stop_ends, moves,
  Steps, here, next,
}

abbrev worker : Bool → Place → Worker
worker c p = record { cancelled = c; place = p }

-- The states that can be reached: at rest, at work, and waiting for a goroutine to end.
pub data IsSafe : Scheduler → Type 0 where
  at_rest : IsSafe (record { running = false; stopping = false; workers = [] })
  at_work :
      {p : Place}
      → IsSafe (record { running = true; stopping = false; workers = worker false p ∷ [] })
  waiting :
      {p : Place}
      → IsSafe (record { running = true; stopping = true; workers = worker true p ∷ [] })
  ended : IsSafe (record { running = true; stopping = true; workers = [] })

pub Move-IsSafe :
    (s : Scheduler) (ws : List Worker)
    → IsSafe s
    → Move s.workers ws
    → IsSafe (record s { workers = ws })
Move-IsSafe s ws at_rest m = elim m [ ]
Move-IsSafe s ws at_work tick = at_work
Move-IsSafe s ws at_work task_returns = at_work
Move-IsSafe s ws at_work (other m) = elim m [ ]
Move-IsSafe s ws waiting tick = waiting
Move-IsSafe s ws waiting task_returns = waiting
Move-IsSafe s ws waiting quit = ended
Move-IsSafe s ws waiting (other m) = elim m [ ]
Move-IsSafe s ws ended m = elim m [ ]

pub Step-IsSafe : (s s' : Scheduler) → IsSafe s → Step s s' → IsSafe s'
unfolding start begin_stop end_stop cancel
Step-IsSafe s s' at_rest (starts e) = at_work
Step-IsSafe s s' at_work (starts e) = at_work
Step-IsSafe s s' waiting (starts e) = cc e
Step-IsSafe s s' ended (starts e) = cc e
Step-IsSafe s s' at_rest (stop_begins e) = at_rest
Step-IsSafe s s' at_work (stop_begins e) = waiting
Step-IsSafe s s' waiting (stop_begins e) = cc e
Step-IsSafe s s' ended (stop_begins e) = cc e
Step-IsSafe s s' at_rest (stop_ends e f) = at_rest
Step-IsSafe s s' at_work (stop_ends e f) = cc e
Step-IsSafe s s' waiting (stop_ends e f) = cc f
Step-IsSafe s s' ended (stop_ends e f) = at_rest
Step-IsSafe s s' h (moves m) = Move-IsSafe s _ h m

Steps-IsSafe : (s s' : Scheduler) → IsSafe s → Steps s s' → IsSafe s'
Steps-IsSafe s s' h here = h
Steps-IsSafe s s' h (next step rest) = Steps-IsSafe _ s' (Step-IsSafe s _ h step) rest

-- However calls and goroutines interleave, there is at most one goroutine, and there is none while
-- the scheduler does not run: no task runs then. A call of `Stop` waits only while the scheduler
-- runs.
pub one_worker :
    (s : Scheduler)
    → Steps new s
    → (length s.workers ≤ 1)
      × ((s.workers ≡ []) ⊎ (is_running s ≡ true))
      × ((s.stopping ≡ false) ⊎ (is_running s ≡ true))
unfolding is_running
one_worker s r = go s (Steps-IsSafe new s at_rest r)
  where
    go :
        (s : Scheduler)
        → IsSafe s
        → (length s.workers ≤ 1)
          × ((s.workers ≡ []) ⊎ (s.running ≡ true))
          × ((s.stopping ≡ false) ⊎ (s.running ≡ true))
    go s at_rest = (omega arith, inl refl, inl refl)
    go s at_work = (omega arith, inr refl, inr refl)
    go s waiting = (omega arith, inr refl, inr refl)
    go s ended = (omega arith, inl refl, inr refl)

end_wait : (s : Scheduler) → IsSafe s → s.stopping ≡ true → Steps s new
unfolding end_stop
end_wait s at_rest e = cc e
end_wait s at_work e = cc e
end_wait s ended e = next (stop_ends refl refl) here
end_wait s (waiting {p = selecting}) e = next (moves quit) (next (stop_ends refl refl) here)
end_wait s (waiting {p = in_task}) e =
    next (moves task_returns) (next (moves quit) (next (stop_ends refl refl) here))

-- A call of `Stop` that waits can always come to its end, with the scheduler stopped and without a
-- goroutine: from every state that is reached there are steps to the end.
pub stop_can_end : (s : Scheduler) → Steps new s → s.stopping ≡ true → Steps s new
stop_can_end s r e = end_wait s (Steps-IsSafe new s at_rest r) e
