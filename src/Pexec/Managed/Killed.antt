-- ===== src/Pexec/Managed/Killed.antt =====
-- Once killCh of a managed process is closed, no command is started.
use goutils.Common.{
  ℕ, ◌≡◌, refl, sym, ap, ◌∙◌, Bool, true, false, Option, none, some, List, [], ◌∷◌, if_both, subst,
}
use goutils.Pexec.Managed.{
  Manager, idle, waiting, exited, ticking, restarting, finished, Process, StartError,
  already_stopped, start_with, start, ended, asked, gone_on, ticked, after_start, restarted,
  by_user, stop_with, stop, Event, starts, ends, goes_on, ticks, restarts, stops, step, run,
}

module _ {E : Type 0} where
  -- the same commands, and killCh closed
  abbrev IsKept : Process E → Process E → Type 0
  IsKept p q = (q.killed ≡ true) × (q.cmd ≡ p.cmd) × (q.next ≡ p.next)

  start-IsKept :
      (p : Process E) (outcome : Option E)
      → p.killed ≡ true
      → start p outcome ≡ (p, some already_stopped)
  unfolding start
  start-IsKept p outcome h = ap (λ b. start_with p b outcome) h

  step-IsKept : (p : Process E) (v : Event E) → p.killed ≡ true → IsKept p (step p v)
  unfolding step stop
  step-IsKept p v h = go v
    where
      asked_kept : (code : ℕ) (o : Option (ℕ → Bool)) → IsKept p (asked p code o)
      asked_kept code none = (h, refl, refl)
      asked_kept code (some f) = if_both (IsKept p) (f code) (h, refl, refl) (h, refl, refl)

      go_on : (m : Manager) → IsKept p (gone_on p m)
      go_on (exited code) =
          if_both (IsKept p) p.killed (h, refl, refl) (asked_kept code p.on_unexpected_exit)
      go_on ticking = if_both (IsKept p) p.killed (h, refl, refl) (h, refl, refl)
      go_on idle = (h, refl, refl)
      go_on waiting = (h, refl, refl)
      go_on restarting = (h, refl, refl)
      go_on finished = (h, refl, refl)

      user : (outcome : Option E) (m : Manager) → IsKept p (by_user p outcome m)
      user outcome idle =
          subst (λ (r : Process E × Option (StartError E)). IsKept p r.0)
            (sym (start-IsKept p outcome h)) (h, refl, refl)
      user outcome waiting = (h, refl, refl)
      user outcome (exited code) = (h, refl, refl)
      user outcome ticking = (h, refl, refl)
      user outcome restarting = (h, refl, refl)
      user outcome finished =
          subst (λ (r : Process E × Option (StartError E)). IsKept p r.0)
            (sym (start-IsKept p outcome h)) (h, refl, refl)

      end : (e : Option E) (code : ℕ) (m : Manager) → IsKept p (ended p e code m)
      end e n idle = (h, refl, refl)
      end e n waiting = (h, refl, refl)
      end e n (exited code) = (h, refl, refl)
      end e n ticking = (h, refl, refl)
      end e n restarting = (h, refl, refl)
      end e n finished = (h, refl, refl)

      tick : (m : Manager) → IsKept p (ticked p m)
      tick idle = (h, refl, refl)
      tick waiting = (h, refl, refl)
      tick (exited code) = (h, refl, refl)
      tick ticking = (h, refl, refl)
      tick restarting = (h, refl, refl)
      tick finished = (h, refl, refl)

      restart : (outcome : Option E) (m : Manager) → IsKept p (restarted p outcome m)
      restart outcome idle = (h, refl, refl)
      restart outcome waiting = (h, refl, refl)
      restart outcome (exited code) = (h, refl, refl)
      restart outcome ticking = (h, refl, refl)
      restart outcome restarting =
          subst (λ (r : Process E × Option (StartError E)). IsKept p (after_start r))
            (sym (start-IsKept p outcome h)) (h, refl, refl)
      restart outcome finished = (h, refl, refl)

      halt : (b : Bool) → IsKept p (stop_with p b).0
      halt true = (h, refl, refl)
      halt false = (refl, refl, refl)

      go : (v : Event E) → IsKept p (step p v)
      go (starts outcome) = user outcome p.manager
      go (ends e code) = end e code p.manager
      go goes_on = go_on p.manager
      go ticks = tick p.manager
      go (restarts outcome) = restart outcome p.manager
      go stops = halt p.stopped

  -- Once Stop has closed killCh, no step starts a command, neither a Start nor a restart, and p.cmd is
  -- not changed any more, so that Stop can read it without the lock.
  pub run_killed :
      (p : Process E) (vs : List (Event E))
      → p.killed ≡ true
      → ((run p vs).killed ≡ true) × ((run p vs).cmd ≡ p.cmd) × ((run p vs).next ≡ p.next)
  unfolding step
  run_killed p [] h = (h, refl, refl)
  run_killed p (v ∷ vs) h =
      let (k, c, n) = step-IsKept p v h in
      let (k2, c2, n2) = run_killed (step p v) vs k in (k2, c2 ∙ c, n2 ∙ n)
