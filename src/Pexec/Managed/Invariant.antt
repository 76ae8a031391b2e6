-- ===== src/Pexec/Managed/Invariant.antt =====
-- When the goroutine of manage closes managingCh.
use goutils.Common.{
  ℕ, suc, ◌≡◌, refl, sym, ap, ◌∙◌, Bool, true, false, Option, none, some, List, [], ◌∷◌, if_both,
}
use goutils.Pexec.Managed.{
  Manager, idle, waiting, exited, ticking, restarting, finished, Process, StartError, new_process,
  start_with, start, finish, ended, asked, gone_on, ticked, after_start, restarted, by_user,
  stop_with, stop, Event, starts, ends, goes_on, ticks, restarts, stops, step, run,
}

-- how often managingCh is closed, by where the goroutine is
abbrev pub closings : Manager → ℕ
closings finished = 1
closings _ = 0

-- a command has been started
abbrev pub is_managed : Manager → Bool
is_managed idle = false
is_managed _ = true

module _ {E : Type 0} where
  -- managingCh is closed just where the goroutine has ended, and once; a command has a goroutine; who
  -- has stopped the process has closed killCh
  pub record IsSound (p : Process E) : Type 0 where
    pub closes : p.managing_closed ≡ closings p.manager
    pub managed : (c : ℕ) → p.cmd ≡ some c → is_managed p.manager ≡ true
    pub kills : p.stopped ≡ true → p.killed ≡ true

  moved-IsSound :
      (p : Process E) (m : Manager)
      → IsSound p
      → closings m ≡ closings p.manager
      → is_managed m ≡ true
      → IsSound (record p { manager = m })
  moved-IsSound p m s same managed = record {
    closes = s.closes ∙ sym same;
    managed = λ c h. managed;
    kills = s.kills;
  }

  finish-IsSound : (p : Process E) → IsSound p → closings p.manager ≡ 0 → IsSound (finish p)
  finish-IsSound p s none_yet = record {
    closes = ap suc (s.closes ∙ none_yet);
    managed = λ c h. refl;
    kills = s.kills;
  }

  start_with-IsSound :
      (p : Process E) (b : Bool) (outcome : Option E)
      → IsSound p
      → closings p.manager ≡ 0
      → IsSound (start_with p b outcome).0
  start_with-IsSound p true outcome s z = s
  start_with-IsSound p false (some e) s z = s
  start_with-IsSound p false none s z =
      if_both (λ (r : Process E × Option (StartError E)). IsSound r.0) p.one_shot s
        (record { closes = s.closes ∙ z; managed = λ c h. refl; kills = s.kills })

  after_start-IsSound :
      (p : Process E) (b : Bool) (outcome : Option E)
      → IsSound p
      → closings p.manager ≡ 0
      → IsSound (after_start (start_with p b outcome))
  after_start-IsSound p true outcome s z = finish-IsSound p s z
  after_start-IsSound p false (some e) s z = finish-IsSound p s z
  after_start-IsSound p false none s z =
      if_both (λ (r : Process E × Option (StartError E)). IsSound (after_start r)) p.one_shot s
        (record { closes = s.closes ∙ z; managed = λ c h. refl; kills = s.kills })

  -- No Start by the user once the goroutine has ended.
  abbrev pub IsEarly : Process E → Event E → Type 0
  IsEarly p (starts outcome) = closings p.manager ≡ 0
  IsEarly p v = Unit

  abbrev pub AreEarly : Process E → List (Event E) → Type 0
  AreEarly p [] = Unit
  AreEarly p (v ∷ vs) = IsEarly p v × AreEarly (step p v) vs

  pub step-IsSound : (p : Process E) (v : Event E) → IsEarly p v → IsSound p → IsSound (step p v)
  unfolding step start stop
  step-IsSound p v early s = go v early
    where
      next :
          (m : Manager)
          → closings m ≡ closings p.manager
          → is_managed m ≡ true
          → IsSound (record p { manager = m })
      next m = moved-IsSound p m s

      asked_on :
          (code : ℕ) (o : Option (ℕ → Bool)) → p.manager ≡ exited code → IsSound (asked p code o)
      asked_on code none e = next ticking (ap closings (sym e)) refl
      asked_on code (some f) e =
          if_both IsSound (f code) (next ticking (ap closings (sym e)) refl)
            (finish-IsSound p s (ap closings e))

      go_on : (m : Manager) → p.manager ≡ m → IsSound (gone_on p m)
      go_on idle e = s
      go_on waiting e = s
      go_on (exited code) e =
          if_both IsSound p.killed (finish-IsSound p s (ap closings e))
            (asked_on code p.on_unexpected_exit e)
      go_on ticking e = if_both IsSound p.killed (finish-IsSound p s (ap closings e)) s
      go_on restarting e = s
      go_on finished e = s

      user :
          (outcome : Option E) (m : Manager)
          → p.manager ≡ m
          → closings p.manager ≡ 0
          → IsSound (by_user p outcome m)
      user outcome idle e z = start_with-IsSound p p.killed outcome s (ap closings e)
      user outcome waiting e z = s
      user outcome (exited code) e z = s
      user outcome ticking e z = s
      user outcome restarting e z = s
      user outcome finished e z = absurd (cc (sym (ap closings e) ∙ z))

      end : (x : Option E) (n : ℕ) (m : Manager) → p.manager ≡ m → IsSound (ended p x n m)
      end x n idle e = s
      end x n waiting e = record {
        closes = s.closes ∙ ap closings e;
        managed = λ c h. refl;
        kills = s.kills;
      }
      end x n (exited code) e = s
      end x n ticking e = s
      end x n restarting e = s
      end x n finished e = s

      tick : (m : Manager) → p.manager ≡ m → IsSound (ticked p m)
      tick idle e = s
      tick waiting e = s
      tick (exited code) e = s
      tick ticking e = next restarting (ap closings (sym e)) refl
      tick restarting e = s
      tick finished e = s

      restart : (outcome : Option E) (m : Manager) → p.manager ≡ m → IsSound (restarted p outcome m)
      restart outcome idle e = s
      restart outcome waiting e = s
      restart outcome (exited code) e = s
      restart outcome ticking e = s
      restart outcome restarting e = after_start-IsSound p p.killed outcome s (ap closings e)
      restart outcome finished e = s

      halt : (b : Bool) → p.stopped ≡ b → IsSound (stop_with p b).0
      halt true e = s
      halt false e = record { closes = s.closes; managed = s.managed; kills = λ h. refl }

      go : (v : Event E) → IsEarly p v → IsSound (step p v)
      go (starts outcome) z = user outcome p.manager refl z
      go (ends e code) z = end e code p.manager refl
      go goes_on z = go_on p.manager refl
      go ticks z = tick p.manager refl
      go (restarts outcome) z = restart outcome p.manager refl
      go stops z = halt p.stopped refl

  pub run-IsSound :
      (p : Process E) (vs : List (Event E)) → AreEarly p vs → IsSound p → IsSound (run p vs)
  run-IsSound p [] early s = s
  run-IsSound p (v ∷ vs) (e, early) s = run-IsSound (step p v) vs early (step-IsSound p v e s)

  pub new_process-IsSound :
      (one_shot : Bool) (f : Option (ℕ → Bool)) → IsSound (new_process one_shot f)
  new_process-IsSound one_shot f = record {
    closes = refl;
    managed = λ c h. absurd (cc);
    kills = λ h. absurd (cc);
  }
