-- ===== src/Pexec/Managed/Tests.antt =====
-- The theorems about a managed process, with numbers for errors.
use goutils.Common.{ℕ, ◌≡◌, refl, true, false, none, some, List, [], ◌∷◌}
use goutils.Pexec.Managed.{
  Process, already_stopped, new_process, start, stop, Event, starts, ends, goes_on, ticks, restarts,
  stops, step, run,
}
use goutils.Pexec.Managed.Killed.{run_killed}

-- a process that ends with code 1 and is restarted
abbrev restarted_once : List (Event ℕ)
restarted_once = starts none ∷ ends (some 5) 1 ∷ goes_on ∷ ticks ∷ restarts none ∷ []

abbrev halted : Process ℕ
halted = run (new_process false none) (starts none ∷ ends (some 5) 1 ∷ goes_on ∷ stops ∷ [])

halted_killed : halted.killed ≡ true
unfolding step start stop
halted_killed = refl

run_killed_example :
    ((run halted (ticks ∷ restarts none ∷ starts none ∷ [])).killed ≡ true)
    × ((run halted (ticks ∷ restarts none ∷ starts none ∷ [])).cmd ≡ halted.cmd)
    × ((run halted (ticks ∷ restarts none ∷ starts none ∷ [])).next ≡ halted.next)
run_killed_example = run_killed halted (ticks ∷ restarts none ∷ starts none ∷ []) halted_killed

restarted_command : (run (new_process false none) restarted_once).cmd ≡ some 1
unfolding step start stop
restarted_command = refl

late_start : (start halted none).1 ≡ some already_stopped
unfolding start step stop
late_start = refl

-- a second Start behind the end of the goroutine makes another that closes managingCh again
closed_twice :
    (run {E = ℕ} (new_process false (some (λ code. false))) (
      starts none
      ∷ ends (some 5) 1
      ∷ goes_on
      ∷ starts none
      ∷ ends (some 5) 1
      ∷ goes_on
      ∷ [])).managing_closed
    ≡ 2
unfolding step start
closed_twice = refl
