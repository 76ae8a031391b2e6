-- ===== src/Utils/Workers.antt =====
-- stoppable_workers.go: workers that run until they are stopped. A stretch that holds the lock and does
-- not wait is one step; Stop, which waits with the lock held, is a step that takes it and one that
-- returns. A step that would have to wait is `none`.
pub mod Stopped
mod Tests
use goutils.Common.{
  ℕ, zero, suc, ◌-◌, ◌≡◌, Bool, true, false, not, ◌&&◌, ◌||◌, Option, none, some, List, [], ◌∷◌,
  if◌then◌else◌, ◌==◌,
}

-- `waiting` is whether a Stop holds the lock and waits for the workers, and `background` whether the
-- context derives from context.Background()
pub record StoppableWorkers : Type 0 where
  pub background : Bool
  pub done : Bool
  pub workers : ℕ
  pub waiting : Bool

-- NewStoppableWorkers of a context that is not done, and NewBackgroundStoppableWorkers before its loop
abbrev pub new_stoppable_workers : Bool → StoppableWorkers
new_stoppable_workers background = record {
  background = background;
  done = false;
  workers = 0;
  waiting = false;
}

abbrev pub add_free : StoppableWorkers → StoppableWorkers
add_free w = if w.done then w else record w { workers = suc w.workers }

-- Add, up to the start of the goroutine; it waits for the lock of a Stop
unfoldable pub add : StoppableWorkers → Option StoppableWorkers
add w = if w.waiting then none else some (add_free w)

-- the loop of NewBackgroundStoppableWorkers
abbrev pub add_all : ℕ → StoppableWorkers → StoppableWorkers
add_all zero w = w
add_all (suc n) w = add_all n (add_free w)

abbrev pub new_background_stoppable_workers : ℕ → StoppableWorkers
new_background_stoppable_workers n = add_all n (new_stoppable_workers true)

-- a worker returns or panics
unfoldable pub worker_done : StoppableWorkers → Option StoppableWorkers
worker_done w = if w.workers == 0 then none else some (record w { workers = w.workers - 1 })

-- Stop up to Wait: it returns at once where the context is done
unfoldable pub stop : StoppableWorkers → Option StoppableWorkers
stop w =
    if w.waiting
    then none
    else if w.done
    then some w
    else some (record w { done = true; waiting = true })

-- Wait returns, and Stop with it
unfoldable pub stop_returns : StoppableWorkers → Option StoppableWorkers
stop_returns w = if w.waiting && w.workers == 0 then some (record w { waiting = false }) else none

-- the context that NewStoppableWorkers was given is done
unfoldable pub parent_done : StoppableWorkers → Option StoppableWorkers
parent_done w = if w.background then none else some (record w { done = true })

pub data Event : Type 0 where
  adds finishes stops returns parent_ends : Event

unfoldable pub step : Event → StoppableWorkers → Option StoppableWorkers
unfolding add worker_done stop stop_returns parent_done
step adds w = add w
step finishes w = worker_done w
step stops w = stop w
step returns w = stop_returns w
step parent_ends w = parent_done w

abbrev pub then_run :
    (StoppableWorkers → Option StoppableWorkers) → Option StoppableWorkers → Option StoppableWorkers
then_run f none = none
then_run f (some w) = f w

abbrev pub run : List Event → StoppableWorkers → Option StoppableWorkers
run [] w = some w
run (e ∷ es) w = then_run (run es) (step e w)
