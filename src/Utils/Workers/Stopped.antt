-- ===== src/Utils/Workers/Stopped.antt =====
-- What holds once Stop has returned.
use goutils.Common.{
  ℕ, zero, suc, ◌≡◌, refl, sym, ap, ◌∙◌, subst, true, false, not, ◌&&◌, Option, none, some, List,
  [], ◌∷◌, if◌then◌else◌, arith,
}
use goutils.Utils.Workers.{
  StoppableWorkers, new_stoppable_workers, add, add_all, new_background_stoppable_workers,
  worker_done, stop, stop_returns, parent_done, Event, adds, finishes, stops, returns, parent_ends,
  step, then_run, run,
}

-- Nothing but a Stop ends the context, and none has returned while workers are left.
abbrev IsSound : StoppableWorkers → Type 0
IsSound w =
    (w.background ≡ true)
    × ((w.done && not w.waiting) ≡ true → w.workers ≡ 0)
    × (w.waiting ≡ true → w.done ≡ true)

step-IsSound : (e : Event) (w v : StoppableWorkers) → IsSound w → step e w ≡ some v → IsSound v
unfolding step add worker_done stop stop_returns parent_done
step-IsSound adds w v s h = ground (arith, h, s)
step-IsSound finishes w v s h = ground (arith, h, s)
step-IsSound stops w v s h = ground (arith, h, s)
step-IsSound returns w v s h = ground (arith, h, s)
step-IsSound parent_ends w v s h = absurd (ground (arith, h, s))

run-IsSound : (es : List Event) (w v : StoppableWorkers) → IsSound w → run es w ≡ some v → IsSound v
run-IsSound [] w v s h = let e : w ≡ v = cc in subst IsSound e s
run-IsSound (e ∷ es) w v s h =
    go (step e w) (λ u p. run-IsSound es u v (step-IsSound e w u s p)) refl h
  where
    go :
        (o : Option StoppableWorkers)
        → ((u : StoppableWorkers) → step e w ≡ some u → run es u ≡ some v → IsSound v)
        → step e w ≡ o
        → then_run (run es) o ≡ some v
        → IsSound v
    go none ih p q = absurd (cc)
    go (some u) ih p q = ih u p q

add_all-IsSound :
    (n : ℕ) (w : StoppableWorkers)
    → w.background ≡ true
    → w.done ≡ false
    → w.waiting ≡ false
    → IsSound (add_all n w)
add_all-IsSound zero w b d i = ground (arith, b, d, i)
add_all-IsSound (suc n) w b d i =
    subst (λ x. IsSound (add_all n x))
      (sym (ap (λ c. if c then w else record w { workers = suc w.workers }) d))
      (add_all-IsSound n (record w { workers = suc w.workers }) b d i)

-- A Stop has returned.
abbrev IsStopped : StoppableWorkers → Type 0
IsStopped w = (w.done && not w.waiting) ≡ true

step_stopped :
    (e : Event) (w v : StoppableWorkers) → IsSound w → IsStopped w → step e w ≡ some v → v ≡ w
unfolding step add worker_done stop stop_returns parent_done
step_stopped adds w v s d h = ground (arith, h, d)
step_stopped finishes w v s d h = absurd (ground (arith, h, s, d))
step_stopped stops w v s d h = ground (arith, h, d)
step_stopped returns w v s d h = absurd (ground (arith, h, s, d))
step_stopped parent_ends w v s d h = absurd (ground (arith, h, s))

run_still :
    (es : List Event) (w v : StoppableWorkers) → IsSound w → IsStopped w → run es w ≡ some v → v ≡ w
run_still [] w v s d h = cc
run_still (e ∷ es) w v s d h =
    go (step e w) (λ u p q. run_still es w v s d (ap (run es) (sym (step_stopped e w u s d p)) ∙ q))
      refl h
  where
    go :
        (o : Option StoppableWorkers)
        → ((u : StoppableWorkers) → step e w ≡ some u → run es u ≡ some v → v ≡ w)
        → step e w ≡ o
        → then_run (run es) o ≡ some v
        → v ≡ w
    go none ih p q = absurd (cc)
    go (some u) ih p q = ih u p q

step_answers :
    (w : StoppableWorkers) → IsStopped w → (step stops w ≡ some w) × (step adds w ≡ some w)
unfolding step stop add
step_answers w d = (ground (arith, d), ground (arith, d))

-- Once a Stop of background workers has returned, every worker has returned; another Stop and an Add then
-- return at once, with no effect; and whatever can still happen changes nothing.
pub run_stopped :
    (n : ℕ) (es fs : List Event) (w v : StoppableWorkers)
    → run es (new_background_stoppable_workers n) ≡ some w
    → (w.done && not w.waiting) ≡ true
    → run fs w ≡ some v
    → (w.workers ≡ 0) × (step stops w ≡ some w) × (step adds w ≡ some w) × (v ≡ w)
run_stopped n es fs w v h d g =
    let s =
      run-IsSound es (new_background_stoppable_workers n) w
        (add_all-IsSound n (new_stoppable_workers true) refl refl refl) h in
    let (again, added) = step_answers w d in (s.1 d, again, added, run_still fs w v s d g)

abbrev pub all_finish : ℕ → List Event
all_finish zero = returns ∷ []
all_finish (suc n) = finishes ∷ all_finish n

-- A Stop that waits returns once the workers that are left have returned.
pub run-all_finish :
    (n : ℕ) (w : StoppableWorkers)
    → w.waiting ≡ true
    → w.workers ≡ n
    → run (all_finish n) w ≡ some (record w { workers = 0; waiting = false })
unfolding step worker_done stop_returns
run-all_finish zero w h e = ap (then_run (λ x. some x)) first
  where
    first : stop_returns w ≡ some (record w { workers = 0; waiting = false })
    first = ground (arith, h, e)
run-all_finish (suc n) w h e =
    ap (then_run (run (all_finish n))) first ∙ run-all_finish n (record w { workers = n }) h refl
  where
    first : worker_done w ≡ some (record w { workers = n })
    first = ground (arith, e)
