-- ===== src/Pexec/Manager/Invariant.antt =====
-- What holds of the manager's map after any calls.
use goutils.Common.{String, ◌≡◌, refl, Bool, true, some, List, [], ◌∷◌, arith, eq_iff}
use goutils.Common.Dict
use goutils.Pexec.Manager.{
  Process, Answers, ProcessManager, new_process_manager, remove_process_by_id, stop_locked, stop,
  start, add_process,
}
use goutils.Pexec.Manager.Lifecycle.{Call, does_start, does_stop, adds, removes, step, run}

-- Every process stands under its own id, and a stopped manager holds none.
pub record IsSound (m : ProcessManager) : Type 0 where
  pub keyed : (id : String) (p : Process) → Dict.get m.processes_by_id id ≡ some p → p.id ≡ id
  pub emptied : m.stopped ≡ true → m.processes_by_id ≡ []

new-IsSound : IsSound new_process_manager
unfolding Dict.get
new-IsSound = record { keyed = λ id p e. absurd (cc); emptied = λ e. refl }

start-IsSound : (a : Answers) (m : ProcessManager) → IsSound m → IsSound (start a m).2
unfolding start stop_locked Dict.get
start-IsSound a m v = record {
  keyed = λ id p e. ground (arith, v.keyed id p);
  emptied = λ e. ground (arith, v.emptied);
}

stop-IsSound : (a : Answers) (m : ProcessManager) → IsSound m → IsSound (stop a m).2
unfolding stop stop_locked Dict.get
stop-IsSound a m v = record {
  keyed = λ id p e. ground (arith, v.keyed id p);
  emptied = λ e. ground (arith, v.emptied);
}

add_process-IsSound :
    (a : Answers) (m : ProcessManager) (p : Process) (b : Bool)
    → IsSound m
    → IsSound (add_process a m p b).manager
unfolding add_process
add_process-IsSound a m p b v = record {
  keyed = λ id q e.
      ground (arith, v.keyed id q, Dict.get-put m.processes_by_id p.id id p, eq_iff p.id id);
  emptied = λ e. ground (arith, v.emptied);
}

remove-IsSound :
    (m : ProcessManager) (id : String) → IsSound m → IsSound (remove_process_by_id m id).0
unfolding remove_process_by_id
remove-IsSound m id v = record {
  keyed = λ j q e. ground (arith, v.keyed j q, Dict.get-remove m.processes_by_id id j, eq_iff id j);
  emptied = λ e. ground (arith, v.emptied);
}

step-IsSound : (a : Answers) (m : ProcessManager) (c : Call) → IsSound m → IsSound (step a m c).1
unfolding step
step-IsSound a m does_start v = start-IsSound a m v
step-IsSound a m does_stop v = stop-IsSound a m v
step-IsSound a m (adds p b) v = add_process-IsSound a m p b v
step-IsSound a m (removes id) v = remove-IsSound m id v

run-IsSound :
    (a : Answers) (m : ProcessManager) (cs : List Call) → IsSound m → IsSound (run a m cs).1
unfolding run
run-IsSound a m [] v = v
run-IsSound a m (c ∷ cs) v = run-IsSound a (step a m c).1 cs (step-IsSound a m c v)

-- After any calls on a new manager every managed process stands under its own id, and a stopped
-- manager holds no process.
pub run-new-IsSound : (a : Answers) (cs : List Call) → IsSound (run a new_process_manager cs).1
run-new-IsSound a cs = run-IsSound a new_process_manager cs new-IsSound
