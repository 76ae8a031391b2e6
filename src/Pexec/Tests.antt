-- ===== src/Pexec/Tests.antt =====
-- The theorems about process managers, on two processes of which the second does not start and the
-- first does not stop.
use goutils.Common.{refl, true, false, none, some, [], ◌∷◌, str_eq, if◌then◌else◌, arith, eq_iff}
use goutils.Common.Dict
use goutils.Pexec.Manager.{Process, Answers, ProcessManager, start}
use goutils.Pexec.Manager.Lifecycle.{StartResult, start-StartResult}
use goutils.Pexec.Manager.Invariant.{IsSound}

abbrev good : Process
good = record { id = "good"; object = 1 }

abbrev bad : Process
bad = record { id = "bad"; object = 2 }

abbrev other_good : Process
other_good = record { id = "good"; object = 3 }

abbrev answers : Answers
answers = record {
  start_error = λ p. if str_eq p.id "bad" then some "cannot start" else none;
  stop_error = λ p. if str_eq p.id "good" then some "cannot stop" else none;
}

abbrev two : ProcessManager
two = record {
  processes_by_id = ("good", good) ∷ ("bad", bad) ∷ [];
  started = false;
  stopped = false;
}

abbrev one : ProcessManager
one = record { processes_by_id = ("good", other_good) ∷ []; started = true; stopped = false }

abbrev ended : ProcessManager
ended = record { processes_by_id = []; started = true; stopped = true }

one-IsSound : IsSound one
unfolding Dict.get
one-IsSound = record {
  keyed = λ id p e. ground (arith, eq_iff "good" id);
  emptied = λ e. absurd (cc);
}

start-StartResult_example : StartResult answers two (start answers two)
start-StartResult_example = start-StartResult answers two refl refl
