-- ===== src/Pexec/Manager/Lifecycle.antt =====
-- Start and Stop of the manager, and its life as a whole.
use goutils.Common.{
  String, ◌≡◌, refl, ap, sym, subst, ◌⊎◌, inl, inr, Bool, true, false, Option, none, some, List, [],
  ◌∷◌, ◌++◌, map, All, arith, Option-cases,
}
use goutils.Common.Dict.{Dict}
use goutils.Pexec.Manager.{
  Process, Answers, Event, starts, stops, Errors, ProcessManager, remove_process_by_id, stop_all,
  stop_locked, stop, start_all, start, after_start, add_process, as_errors,
}

-- the processes of the map, in its order
abbrev pub processes : Dict Process → List Process
processes [] = []
processes ((id, p) ∷ m) = p ∷ processes m

-- The errors that stopping the processes gives.
abbrev pub stop_errors : Answers → List Process → Errors
stop_errors a [] = []
stop_errors a (p ∷ ps) = as_errors a (a.stop_error p) ++ stop_errors a ps

stop_all_lem :
    (a : Answers) (m : Dict Process)
    → stop_all a m ≡ (stop_errors a (processes m), map stops (processes m))
unfolding stop_all
stop_all_lem a [] = refl
stop_all_lem a ((id, p) ∷ m) = rw (stop_all_lem a m)

-- The processes up to the first that fails to start.
pub record FirstFailure (a : Answers) (ps : List Process) (e : String) (events : List Event)
    : Type 0 where
  pub before : List Process
  pub failing : Process
  pub after : List Process
  pub split : ps ≡ before ++ failing ∷ after
  pub fine : All (λ p. a.start_error p ≡ none) before
  pub fails : a.start_error failing ≡ some e
  pub called : events ≡ map starts before ++ starts failing ∷ []

abbrev StartsAll : Answers → List Process → Option String × List Event → Type 0
StartsAll a ps (none, events) = All (λ p. a.start_error p ≡ none) ps × (events ≡ map starts ps)
StartsAll a ps (some e, events) = FirstFailure a ps e events

start_all-StartsAll : (a : Answers) (m : Dict Process) → StartsAll a (processes m) (start_all a m)
unfolding start_all
start_all-StartsAll a [] = (tt, refl)
start_all-StartsAll a ((id, p) ∷ m) = elim (Option-cases (a.start_error p)) [
  | inl h ↦ rw (h, start_all) (go h (start_all a m) (start_all-StartsAll a m))
  | inr (e, h) ↦
      rw (h, start_all)
        (record {
          before = [];
          failing = p;
          after = processes m;
          split = refl;
          fine = tt;
          fails = h;
          called = refl;
        })
]
  where
    go :
        a.start_error p ≡ none
        → (r : Option String × List Event) → StartsAll a (processes m) r
        → StartsAll a (p ∷ processes m) (r.0, starts p ∷ r.1)
    go h (none, events) (k, e) = ((h, k), ap (λ es. starts p ∷ es) e)
    go h (some e, events) f = record {
      before = p ∷ f.before;
      failing = f.failing;
      after = f.after;
      split = ap (λ ps. p ∷ ps) f.split;
      fine = (h, f.fine);
      fails = f.fails;
      called = ap (λ es. starts p ∷ es) f.called;
    }

start-running :
    (a : Answers) (m : ProcessManager)
    → m.stopped ≡ false
    → m.started ≡ false
    → start a m ≡ after_start a m (start_all a m.processes_by_id) (stop_locked a m)
unfolding start
start-running a m h k = ground arith

abbrev pub StartResult : Answers → ProcessManager → Errors × List Event × ProcessManager → Type 0
StartResult a m r =
    (All (λ p. a.start_error p ≡ none) (processes m.processes_by_id)
      × (r ≡ ([], map starts (processes m.processes_by_id), record m { started = true })))
    ⊎ ((e : String) × (events : List Event) × FirstFailure a (processes m.processes_by_id) e events
        × (r ≡ (
          e ∷ stop_errors a (processes m.processes_by_id),
          events ++ map stops (processes m.processes_by_id),
          record m { processes_by_id = []; stopped = true },
        )))

-- Start of a manager that was neither started nor stopped: either every process starts, each
-- called once in order, and the manager is started; or the first failure ends the starting, then
-- every managed process is stopped, the answer has the failure and all errors of stopping, and
-- the manager is stopped and empty.
pub start-StartResult :
    (a : Answers) (m : ProcessManager)
    → m.stopped ≡ false
    → m.started ≡ false
    → StartResult a m (start a m)
unfolding stop_locked
start-StartResult a m h k =
    subst (StartResult a m) (sym (start-running a m h k))
      (go (start_all a m.processes_by_id) (start_all-StartsAll a m.processes_by_id))
  where
    go :
        (r : Option String × List Event)
        → StartsAll a (processes m.processes_by_id) r
        → StartResult a m (after_start a m r (stop_locked a m))
    go (none, events) (all, e) = inl (all, rw e)
    go (some e, events) f = inr (e, events, f, rw (stop_all_lem a m.processes_by_id))

-- Stop of a running manager stops each managed process once, in order, keeps all errors, and
-- leaves a manager that is stopped and empty.
pub stop_lem :
    (a : Answers) (m : ProcessManager)
    → m.stopped ≡ false
    → stop a m ≡ (
      stop_errors a (processes m.processes_by_id),
      map stops (processes m.processes_by_id),
      record m { processes_by_id = []; stopped = true },
    )
unfolding stop stop_locked
stop_lem a m h = rw (h, stop) (rw (stop_all_lem a m.processes_by_id))

-- The calls that a client makes.
pub data Call : Type 0 where
  does_start does_stop : Call
  adds : Process → Bool → Call
  removes : String → Call

unfoldable pub step : Answers → ProcessManager → Call → List Event × ProcessManager
step a m does_start = let (errors, events, m') = start a m in (events, m')
step a m does_stop = let (errors, events, m') = stop a m in (events, m')
step a m (adds p b) = let r = add_process a m p b in (r.events, r.manager)
step a m (removes id) = ([], (remove_process_by_id m id).0)

unfoldable pub run : Answers → ProcessManager → List Call → List Event × ProcessManager
unfolding step
run a m [] = ([], m)
run a m (c ∷ cs) =
    let (events, m') = step a m c in let (later, m'') = run a m' cs in (events ++ later, m'')

step-stopped :
    (a : Answers) (m : ProcessManager) (c : Call) → m.stopped ≡ true → step a m c ≡ ([], m)
unfolding step start stop add_process remove_process_by_id
step-stopped a m does_start h = rw (h, start)
step-stopped a m does_stop h = rw (h, stop)
step-stopped a m (adds p b) h = rw (h, add_process)
step-stopped a m (removes id) h = rw (h, remove_process_by_id)

-- Once stopped, a manager makes no call of any process again and stays as it is, whatever its
-- clients ask for.
pub run-stopped :
    (a : Answers) (m : ProcessManager) (cs : List Call) → m.stopped ≡ true → run a m cs ≡ ([], m)
unfolding run
run-stopped a m [] h = refl
run-stopped a m (c ∷ cs) h = rw (step-stopped a m c h, run-stopped a m cs h)
