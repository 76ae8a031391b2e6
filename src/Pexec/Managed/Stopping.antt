-- ===== src/Pexec/Managed/Stopping.antt =====
-- Stop of a managed process ends.
use goutils.Common.{ℕ, Option, List, [], ◌∷◌}
use goutils.Pexec.Managed.{Event, ends, goes_on, restarts}

module _ {E : Type 0} where
  -- the last turns of manage: the command ends, and what is left of it
  abbrev pub last_turns : Option E → ℕ → Option E → List (Event E)
  last_turns e code outcome = ends e code ∷ goes_on ∷ restarts outcome ∷ []
