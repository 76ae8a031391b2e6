-- ===== src/Pexec/Managed.antt =====
-- managedProcess of pexec/managed_process.go: one process that is started, watched, restarted and
-- stopped. What the operating system answers is an argument; logging is left out. E are the errors.
-- Each stretch that holds the lock is one step, and so is each turn of the goroutine of manage. A
-- Start by the user is modelled while no goroutine manages the process: before the first one, and behind
-- the end of one.
pub mod Killed
pub mod Invariant
pub mod Stopping
mod Tests
use goutils.Common.{
  ℕ, zero, suc, Bool, true, false, Option, none, some, List, [], ◌∷◌, if◌then◌else◌,
}

-- where the goroutine of manage is: it waits for the command, the command has ended with a code, it
-- waits for the ticker, it restarts the process, and it has closed managingCh
pub data Manager : Type 0 where
  idle : Manager
  waiting : Manager
  exited : ℕ → Manager
  ticking : Manager
  restarting : Manager
  finished : Manager

pub record Process (E : Type 0) : Type 0 where
  pub one_shot : Bool
  pub on_unexpected_exit : Option (ℕ → Bool)
  -- killCh is closed
  pub killed : Bool
  pub stopped : Bool
  -- the command, by its number, and the number of those started
  pub cmd : Option ℕ
  pub next : ℕ
  pub manager : Manager
  -- how often managingCh has been closed; twice is a panic
  pub managing_closed : ℕ
  pub last_wait_err : Option E

pub data StartError (E : Type 0) : Type 0 where
  -- errAlreadyStopped
  already_stopped : StartError E
  of_system : E → StartError E

pub data StopError (E : Type 0) : Type 0 where
  wait_error : E → StopError E
  kill_error : E → StopError E
  exit_code : StopError E

pub data Event (E : Type 0) : Type 0 where
  starts : Option E → Event E
  ends : Option E → ℕ → Event E
  goes_on : Event E
  ticks : Event E
  restarts : Option E → Event E
  stops : Event E

module _ {E : Type 0} where
  abbrev pub new_process : Bool → Option (ℕ → Bool) → Process E
  new_process one_shot f = record {
    one_shot = one_shot;
    on_unexpected_exit = f;
    killed = false;
    stopped = false;
    cmd = none;
    next = 0;
    manager = idle;
    managing_closed = 0;
    last_wait_err = none;
  }

  abbrev pub started : Process E → Process E × Option (StartError E)
  started p =
      if p.one_shot
      then (p, none)
      else (record p { cmd = some p.next; next = suc p.next; manager = waiting }, none)

  abbrev pub start_with : Process E → Bool → Option E → Process E × Option (StartError E)
  start_with p true outcome = (p, some already_stopped)
  start_with p false (some e) = (p, some (of_system e))
  start_with p false none = started p

  -- Start: `outcome` is the first error of the directory, the command and, for one shot, its run
  unfoldable pub start : Process E → Option E → Process E × Option (StartError E)
  start p outcome = start_with p p.killed outcome

  -- the end of manage where it has not restarted the process
  abbrev pub finish : Process E → Process E
  finish p = record p { manager = finished; managing_closed = suc p.managing_closed }

  -- cmd.Wait returns
  abbrev pub ended : Process E → Option E → ℕ → Manager → Process E
  ended p e code waiting = record p { manager = exited code; last_wait_err = e }
  ended p e code m = p

  abbrev pub asked : Process E → ℕ → Option (ℕ → Bool) → Process E
  asked p code none = record p { manager = ticking }
  asked p code (some f) = if f code then record p { manager = ticking } else finish p

  -- a turn of manage behind Wait, and one where killCh is chosen over the ticker
  abbrev pub gone_on : Process E → Manager → Process E
  gone_on p (exited code) = if p.killed then finish p else asked p code p.on_unexpected_exit
  gone_on p ticking = if p.killed then finish p else p
  gone_on p m = p

  abbrev pub ticked : Process E → Manager → Process E
  ticked p ticking = record p { manager = restarting }
  ticked p m = p

  abbrev pub after_start : Process E × Option (StartError E) → Process E
  after_start (p, none) = p
  after_start (p, some e) = finish p

  abbrev pub restarted : Process E → Option E → Manager → Process E
  restarted p outcome restarting = after_start (start p outcome)
  restarted p outcome m = p

  abbrev pub by_user : Process E → Option E → Manager → Process E
  by_user p outcome idle = (start p outcome).0
  by_user p outcome finished = (start p outcome).0
  by_user p outcome m = p

  -- Stop up to its kill: whether it goes on to it
  abbrev pub stop_with : Process E → Bool → Process E × Bool
  stop_with p true = (p, false)
  stop_with p false =
      (record p { killed = true; stopped = true }, elim p.cmd [ none ↦ false | some c ↦ true ])

  unfoldable pub stop : Process E → Process E × Bool
  stop p = stop_with p p.stopped

  abbrev pub wait_result : (E → Bool) → Bool → Option E → Option (StopError E)
  wait_result is_unknown success none = if success then none else some exit_code
  wait_result is_unknown success (some e) = if is_unknown e then none else some (wait_error e)

  -- the rest of Stop: what kill answers, and once managingCh is closed what Wait has; `none` is that it
  -- still waits
  unfoldable pub stop_result :
      Process E → Option E → (E → Bool) → Bool → Option (Option (StopError E))
  stop_result p (some e) is_unknown success = some (some (kill_error e))
  stop_result p none is_unknown success = elim p.managing_closed [
    | zero ↦ none
    | suc n ↦ some (wait_result is_unknown success p.last_wait_err)
  ]

  unfoldable pub step : Process E → Event E → Process E
  unfolding start stop
  step p (starts outcome) = by_user p outcome p.manager
  step p (ends e code) = ended p e code p.manager
  step p goes_on = gone_on p p.manager
  step p ticks = ticked p p.manager
  step p (restarts outcome) = restarted p outcome p.manager
  step p stops = (stop p).0

  abbrev pub run : Process E → List (Event E) → Process E
  run p [] = p
  run p (v ∷ vs) = run (step p v) vs
