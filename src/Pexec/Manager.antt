-- ===== src/Pexec/Manager.antt =====
-- pexec/process_manager.go. A process is known by its id and by which object it is; what its Start
-- and Stop answer is a parameter, and the calls made are the events of an operation, in order. The
-- mutex makes each method one step. The map is ranged over in the order of the list, which is
-- arbitrary. A multierr is the list of its errors, and nil the empty list.
pub mod Lifecycle
pub mod Invariant
pub mod Merge
use goutils.Common.{
  ℕ, String, Bool, true, false, ◌&&◌, Option, none, some, List, [], ◌∷◌, ◌++◌, if◌then◌else◌,
}
use goutils.Common.Dict.{Dict}
use goutils.Common.Dict

pub record Process : Type 0 where
  pub id : String
  pub object : ℕ

-- What the interface ManagedProcess answers; `none` is a nil error.
pub record Answers : Type 0 where
  pub start_error : Process → Option String
  pub stop_error : Process → Option String

pub data Event : Type 0 where
  starts stops : Process → Event

abbrev pub Errors : Type 0
Errors = List String

abbrev pub err_already_stopped : String
err_already_stopped = "already stopped"

pub record ProcessManager : Type 0 where
  pub processes_by_id : Dict Process
  pub started : Bool
  pub stopped : Bool

-- NewProcessManager
abbrev pub new_process_manager : ProcessManager
new_process_manager = record { processes_by_id = []; started = false; stopped = false }

unfoldable pub process_ids_of : Dict Process → List String
process_ids_of [] = []
process_ids_of ((id, p) ∷ m) = id ∷ process_ids_of m

unfoldable pub process_ids : ProcessManager → List String
unfolding process_ids_of
process_ids m = process_ids_of m.processes_by_id

unfoldable pub process_by_id : ProcessManager → String → Option Process
process_by_id m id = if m.stopped then none else Dict.get m.processes_by_id id

abbrev delete_found : ProcessManager → String → Option Process → ProcessManager × Option Process
delete_found m id none = (m, none)
delete_found m id (some p) =
    (record m { processes_by_id = Dict.remove m.processes_by_id id }, some p)

unfoldable pub remove_process_by_id : ProcessManager → String → ProcessManager × Option Process
remove_process_by_id m id =
    if m.stopped then (m, none) else delete_found m id (Dict.get m.processes_by_id id)

-- Clone: another manager over the same processes
unfoldable pub clone : ProcessManager → ProcessManager
clone m = record { processes_by_id = m.processes_by_id; started = m.started; stopped = m.stopped }

-- The answer of AddProcess: the replaced process and the errors, the calls, and the manager.
pub record Added : Type 0 where
  pub replaced : Option Process
  pub errors : Errors
  pub events : List Event
  pub manager : ProcessManager

-- append, unless the process is nil
abbrev with_process : List Process → Option Process → List Process
with_process ps none = ps
with_process ps (some p) = ps ++ p ∷ []

module _ (answers : Answers) where
  abbrev as_errors : Option String → Errors
  as_errors none = []
  as_errors (some e) = e ∷ []

  -- The loop of stop: every process is stopped, whatever the others answer.
  unfoldable pub stop_all : Dict Process → Errors × List Event
  stop_all [] = ([], [])
  stop_all ((id, p) ∷ m) =
      let (errors, events) = stop_all m in
      (as_errors (answers.stop_error p) ++ errors, stops p ∷ events)

  -- stop, with the lock held
  unfoldable pub stop_locked : ProcessManager → Errors × List Event × ProcessManager
  stop_locked m =
      let (errors, events) = stop_all m.processes_by_id in
      (errors, events, record m { processes_by_id = []; stopped = true })

  unfoldable pub stop : ProcessManager → Errors × List Event × ProcessManager
  unfolding stop_locked
  stop m = if m.stopped then ([], [], m) else stop_locked m

  -- The loop of Start, up to the first process that fails.
  unfoldable pub start_all : Dict Process → Option String × List Event
  start_all [] = (none, [])
  start_all ((id, p) ∷ m) = elim (answers.start_error p) [
    | some e ↦ (some e, starts p ∷ [])
    | none ↦ let (failed, events) = start_all m in (failed, starts p ∷ events)
  ]

  abbrev after_start :
      ProcessManager
      → Option String × List Event
      → Errors × List Event × ProcessManager
      → Errors × List Event × ProcessManager
  after_start m (none, events) stopping = ([], events, record m { started = true })
  after_start m (some e, events) (errors, stop_events, m') = (e ∷ errors, events ++ stop_events, m')

  unfoldable pub start : ProcessManager → Errors × List Event × ProcessManager
  unfolding start_all stop_locked
  start m =
      if m.stopped
      then (err_already_stopped ∷ [], [], m)
      else if m.started
      then ([], [], m)
      else after_start m (start_all m.processes_by_id) (stop_locked m)

  abbrev put_process : ProcessManager → Process → List Event → Added
  put_process m p events = record {
    replaced = Dict.get m.processes_by_id p.id;
    errors = [];
    events = events;
    manager = record m { processes_by_id = Dict.put m.processes_by_id p.id p };
  }

  abbrev started_process : ProcessManager → Process → Option String → Added
  started_process m p none = put_process m p (starts p ∷ [])
  started_process m p (some e) = record {
    replaced = none;
    errors = e ∷ [];
    events = starts p ∷ [];
    manager = m;
  }

  unfoldable pub add_process : ProcessManager → Process → Bool → Added
  add_process m p start_it =
      if m.stopped
      then record { replaced = none; errors = err_already_stopped ∷ []; events = []; manager = m }
      else if m.started && start_it
      then started_process m p (answers.start_error p)
      else put_process m p []

  -- AddProcessFromConfig, where the process is the one that NewManagedProcess made
  unfoldable pub add_process_from_config : ProcessManager → Process → Added
  unfolding add_process
  add_process_from_config m p =
      if m.stopped
      then record { replaced = none; errors = err_already_stopped ∷ []; events = []; manager = m }
      else add_process m p true

  -- one round of MergeAddProcessManagers; an error ends the loop with a nil slice
  abbrev merge_round :
      Added
      → Option (List Process) × Errors × ProcessManager
      → Option (List Process) × Errors × ProcessManager
  merge_round a rest = elim a.errors [ [] ↦ rest | e ∷ es ↦ (none, a.errors, a.manager) ]

  -- the loop of MergeAddProcessManagers over the ids of src
  unfoldable pub merge_add_loop :
      List Process
      → ProcessManager
      → ProcessManager
      → List String
      → Option (List Process) × Errors × ProcessManager
  merge_add_loop acc dst src [] = (some acc, [], dst)
  merge_add_loop acc dst src (id ∷ ids) = elim (process_by_id src id) [
    | none ↦ merge_add_loop acc dst src ids
    | some p ↦
        let a = add_process dst p false in
        merge_round a (merge_add_loop (with_process acc a.replaced) a.manager src ids)
  ]

  unfoldable pub merge_add_process_managers :
      ProcessManager → ProcessManager → Option (List Process) × Errors × ProcessManager
  unfolding merge_add_loop
  merge_add_process_managers dst src = merge_add_loop [] dst src (process_ids src)

-- the loop of MergeRemoveProcessManagers over the ids of src
unfoldable pub merge_remove_loop :
    List Process → ProcessManager → List String → List Process × ProcessManager
merge_remove_loop acc dst [] = (acc, dst)
merge_remove_loop acc dst (id ∷ ids) =
    let (dst', removed) = remove_process_by_id dst id in
    merge_remove_loop (with_process acc removed) dst' ids

unfoldable pub merge_remove_process_managers :
    ProcessManager → ProcessManager → List Process × ProcessManager
unfolding merge_remove_loop
merge_remove_process_managers dst src = merge_remove_loop [] dst (process_ids src)
