-- ===== src/Utils/Workers/Tests.antt =====
-- The theorems about workers, on two of them.
use goutils.Common.{◌≡◌, refl, true, false, some, List, [], ◌∷◌}
use goutils.Utils.Workers.{
  StoppableWorkers, new_stoppable_workers, new_background_stoppable_workers, Event, adds, finishes,
  stops, returns, parent_ends, step, run, add, worker_done, stop, stop_returns, parent_done,
}
use goutils.Utils.Workers.Stopped.{run_stopped, all_finish, run-all_finish}

abbrev some_events : List Event
some_events = adds ∷ stops ∷ finishes ∷ finishes ∷ returns ∷ []

abbrev stopped : StoppableWorkers
stopped = record { background = true; done = true; workers = 0; waiting = false }

stops_both : run some_events (new_background_stoppable_workers 1) ≡ some stopped
unfolding step add worker_done stop stop_returns
stops_both = refl

stopped_still : run (adds ∷ stops ∷ []) stopped ≡ some stopped
unfolding step add stop
stopped_still = refl

run_stopped_example :
    (stopped.workers ≡ 0)
    × (step stops stopped ≡ some stopped)
    × (step adds stopped ≡ some stopped)
    × (stopped ≡ stopped)
run_stopped_example =
    run_stopped 1 some_events (adds ∷ stops ∷ []) stopped stopped stops_both refl stopped_still

abbrev stopping : StoppableWorkers
stopping = record { background = true; done = true; workers = 2; waiting = true }

run-all_finish_example : run (all_finish 2) stopping ≡ some stopped
run-all_finish_example = run-all_finish 2 stopping refl refl

-- where the context that was given is done, Stop returns with the workers still there
parent_first :
    run (adds ∷ parent_ends ∷ stops ∷ []) (new_stoppable_workers false)
    ≡ some (record { background = false; done = true; workers = 1; waiting = false })
unfolding step add stop parent_done
parent_first = refl
