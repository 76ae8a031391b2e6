-- ===== src/Pexec/Manager/Merge.antt =====
-- AddProcess and the merging of one manager into another.
use goutils.Common.{
  String, ◌≡◌, refl, sym, ◌∙◌, ◌⊎◌, inl, inr, Bool, true, false, ◌||◌, ◌&&◌, Bool-cases, Option,
  none, some, List, [], ◌∷◌, if◌then◌else◌, arith, Option-cases, eq_iff, str_eq,
}
use goutils.Common.Dict.{Dict}
use goutils.Common.Dict
use goutils.Pexec.Manager.{
  Process, Answers, starts, Errors, ProcessManager, process_ids, process_ids_of, process_by_id,
  remove_process_by_id, add_process, with_process, merge_add_loop, merge_add_process_managers,
  merge_remove_loop, merge_remove_process_managers,
}
use goutils.Pexec.Manager.Invariant.{IsSound}

abbrev pub or_else : Option Process → Option Process → Option Process
or_else none o = o
or_else (some p) o = some p

abbrev pub without : Option Process → Option Process → Option Process
without none o = o
without (some p) o = none

-- AddProcess on a manager that is not stopped. If the process is to be started and fails, nothing
-- but that call has happened. Otherwise it is managed under its id, every other id is as before,
-- and the process that was there is returned.
pub add_process_lem :
    (a : Answers) (m : ProcessManager) (p : Process) (b : Bool) (k : String)
    → m.stopped ≡ false
    → let r = add_process a m p b in
      ((e : String) × (a.start_error p ≡ some e)
        × ((m.started && b) ≡ true)
        × (r.errors ≡ e ∷ [])
        × (r.events ≡ starts p ∷ [])
        × (r.manager ≡ m))
      ⊎ ((r.errors ≡ [])
          × (r.replaced ≡ process_by_id m p.id)
          × (process_by_id r.manager k ≡ (if str_eq p.id k then some p else process_by_id m k)))
unfolding add_process process_by_id
add_process_lem a m p b k h = elim (Option-cases (a.start_error p)) [
  | inl e ↦
      inr (ground arith, ground arith, ground (arith, Dict.get-put m.processes_by_id p.id k p))
  | inr (x, e) ↦ elim (Bool-cases (m.started && b)) [
    | inl c ↦ inl (x, e, ground arith, ground arith, ground arith, ground arith)
    | inr c ↦
        inr (ground arith, ground arith, ground (arith, Dict.get-put m.processes_by_id p.id k p))
  ]
]

contains : List String → String → Bool
contains [] k = false
contains (x ∷ xs) k = str_eq x k || contains xs k

contains-process_ids_of :
    (m : Dict Process) (k : String) → Dict.get m k ≡ none → contains (process_ids_of m) k ≡ false
unfolding contains process_ids_of Dict.get
contains-process_ids_of [] k h = refl
contains-process_ids_of ((id, p) ∷ m) k h = ground (arith, contains-process_ids_of m k)

contains-process_ids_of-some :
    (m : Dict Process) (k : String) (p : Process)
    → Dict.get m k ≡ some p
    → contains (process_ids_of m) k ≡ true
unfolding contains process_ids_of Dict.get
contains-process_ids_of-some [] k p h = absurd (cc)
contains-process_ids_of-some ((id, q) ∷ m) k p h =
    ground (arith, contains-process_ids_of-some m k p)

-- what a merge of the ids leaves
record Merged (dst src : ProcessManager) (ids : List String) (k : String)
    (r : Option (List Process) × Errors × ProcessManager) : Type 0 where
  pub no_errors : r.1 ≡ []
  pub running : r.2.stopped ≡ false
  pub found : Dict.get r.2.processes_by_id k ≡ (
      if contains ids k
      then or_else (Dict.get src.processes_by_id k) (Dict.get dst.processes_by_id k)
      else Dict.get dst.processes_by_id k)

abbrev added : ProcessManager → Process → ProcessManager
added m p = record m { processes_by_id = Dict.put m.processes_by_id p.id p }

add-quiet :
    (a : Answers) (m : ProcessManager) (p : Process)
    → m.stopped ≡ false
    → add_process a m p false ≡ record {
      replaced = Dict.get m.processes_by_id p.id;
      errors = [];
      events = [];
      manager = added m p;
    }
unfolding add_process
add-quiet a m p h = ground arith

-- one more id, when src has a process for it and when it has none
cons-Merged :
    (dst src : ProcessManager) (id : String) (p : Process) (ids : List String) (k : String)
    (r : Option (List Process) × Errors × ProcessManager)
    → Dict.get src.processes_by_id id ≡ some p
    → p.id ≡ id
    → Merged (added dst p) src ids k r
    → Merged dst src (id ∷ ids) k r
unfolding contains
cons-Merged dst src id p ids k r e q h = record {
  no_errors = h.no_errors;
  running = h.running;
  found =
      ground
        (arith, h.found, Dict.get-put dst.processes_by_id p.id k p, eq_iff id k, eq_iff p.id k);
}

skip-Merged :
    (dst src : ProcessManager) (id : String) (ids : List String) (k : String)
    (r : Option (List Process) × Errors × ProcessManager)
    → Dict.get src.processes_by_id id ≡ none
    → Merged dst src ids k r
    → Merged dst src (id ∷ ids) k r
unfolding contains
skip-Merged dst src id ids k r e h = record {
  no_errors = h.no_errors;
  running = h.running;
  found = ground (arith, h.found, eq_iff id k);
}

process_by_id-running :
    (m : ProcessManager) (id : String)
    → m.stopped ≡ false
    → process_by_id m id ≡ Dict.get m.processes_by_id id
unfolding process_by_id
process_by_id-running m id h = ground arith

merge_add_loop-Merged :
    (a : Answers) (acc : List Process) (dst src : ProcessManager) (ids : List String) (k : String)
    → dst.stopped ≡ false
    → src.stopped ≡ false
    → IsSound src
    → Merged dst src ids k (merge_add_loop a acc dst src ids)
unfolding merge_add_loop contains
merge_add_loop-Merged a acc dst src [] k h j v = record {
  no_errors = refl;
  running = h;
  found = refl;
}
merge_add_loop-Merged a acc dst src (id ∷ ids) k h j v =
    elim (Option-cases (process_by_id src id)) [
      | inl e ↦
          rw (e, merge_add_loop)
            (skip-Merged dst src id ids k _ (sym (process_by_id-running src id j) ∙ e)
              (merge_add_loop-Merged a acc dst src ids k h j v))
      | inr (p, e) ↦
          rw (e, merge_add_loop)
            (rw (add-quiet a dst p h) (
              let found : Dict.get src.processes_by_id id ≡ some p =
                sym (process_by_id-running src id j) ∙ e in
              cons-Merged dst src id p ids k _ found (v.keyed id p found) (
                merge_add_loop-Merged a (with_process acc (Dict.get dst.processes_by_id p.id))
                  (added dst p) src ids k h j v)))
    ]

-- MergeAddProcessManagers between two running managers gives no error, and afterwards dst has
-- under each id the process of src, or else the one that it had.
pub merge_add-process_by_id :
    (a : Answers) (dst src : ProcessManager) (k : String)
    → dst.stopped ≡ false
    → src.stopped ≡ false
    → IsSound src
    → let r = merge_add_process_managers a dst src in
      (r.1 ≡ []) × (process_by_id r.2 k ≡ or_else (process_by_id src k) (process_by_id dst k))
unfolding merge_add_process_managers process_ids
merge_add-process_by_id a dst src k h j v =
    let m = merge_add_loop-Merged a [] dst src (process_ids_of src.processes_by_id) k h j v in
    (
      m.no_errors,
      rw
          (
            process_by_id-running
                (merge_add_loop a [] dst src (process_ids_of src.processes_by_id)).2 k m.running,
            process_by_id-running src k j,
            process_by_id-running dst k h,
          )
          (m.found ∙ covered (Dict.get src.processes_by_id k) refl),
    )
  where
    covered :
        (o : Option Process)
        → Dict.get src.processes_by_id k ≡ o
        → (if contains (process_ids_of src.processes_by_id) k
            then or_else (Dict.get src.processes_by_id k) (Dict.get dst.processes_by_id k)
            else Dict.get dst.processes_by_id k)
          ≡ or_else (Dict.get src.processes_by_id k) (Dict.get dst.processes_by_id k)
    covered none e = rw (contains-process_ids_of src.processes_by_id k e, e)
    covered (some p) e = rw (contains-process_ids_of-some src.processes_by_id k p e)

remove-get :
    (m : ProcessManager) (id k : String)
    → m.stopped ≡ false
    → ((remove_process_by_id m id).0.stopped ≡ false)
      × (Dict.get (remove_process_by_id m id).0.processes_by_id k
          ≡ (if str_eq id k then none else Dict.get m.processes_by_id k))
unfolding remove_process_by_id
remove-get m id k h =
    (ground arith, ground (arith, Dict.get-remove m.processes_by_id id k, eq_iff id k))

merge_remove_loop-get :
    (acc : List Process) (dst : ProcessManager) (ids : List String) (k : String)
    → dst.stopped ≡ false
    → ((merge_remove_loop acc dst ids).1.stopped ≡ false)
      × (Dict.get (merge_remove_loop acc dst ids).1.processes_by_id k
          ≡ (if contains ids k then none else Dict.get dst.processes_by_id k))
unfolding merge_remove_loop contains
merge_remove_loop-get acc dst [] k h = (h, refl)
merge_remove_loop-get acc dst (id ∷ ids) k h =
    let dst' = (remove_process_by_id dst id).0 in
    let r = remove-get dst id k h in
    let ih =
      merge_remove_loop-get (with_process acc (remove_process_by_id dst id).1) dst' ids k r.0 in
    (ih.0, ih.1 ∙ (ground (arith, r.1)))

-- MergeRemoveProcessManagers on running managers takes away from dst exactly the ids of src.
pub merge_remove-process_by_id :
    (dst src : ProcessManager) (k : String)
    → dst.stopped ≡ false
    → src.stopped ≡ false
    → process_by_id (merge_remove_process_managers dst src).1 k
      ≡ without (process_by_id src k) (process_by_id dst k)
unfolding merge_remove_process_managers process_ids
merge_remove-process_by_id dst src k h j =
    let m = merge_remove_loop-get [] dst (process_ids_of src.processes_by_id) k h in
    rw
      (
        process_by_id-running (merge_remove_loop [] dst (process_ids_of src.processes_by_id)).1 k
            m.0,
        process_by_id-running src k j,
        process_by_id-running dst k h,
      )
      (m.1 ∙ covered (Dict.get src.processes_by_id k) refl)
  where
    covered :
        (o : Option Process)
        → Dict.get src.processes_by_id k ≡ o
        → (if contains (process_ids_of src.processes_by_id) k
            then none
            else Dict.get dst.processes_by_id k)
          ≡ without (Dict.get src.processes_by_id k) (Dict.get dst.processes_by_id k)
    covered none e = rw (contains-process_ids_of src.processes_by_id k e, e)
    covered (some p) e = rw (contains-process_ids_of-some src.processes_by_id k p e, e)
