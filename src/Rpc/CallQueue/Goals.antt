-- ===== src/Rpc/CallQueue/Goals.antt =====
-- Where the goroutine of an exchange sends it, by operation.
use goutils.Common.{
  ℕ, String, ◌≡◌, refl, ap, Bool, true, false, Option, none, some, if◌then◌else◌, ◌==◌, if_both,
  arith,
}
use goutils.Rpc.CallQueue.{
  canceled, Error, Exchange, Queue, cancel, change, add_offer, done_of, is_caller_done, error_of,
}
use goutils.Rpc.CallQueue.Answering.{finish}
use goutils.Rpc.CallQueue.Fresh.{IsFresh}

module _ {C A E : Type 0} where
  abbrev pub goal_of : Option (Exchange C A E) → Option ℕ
  goal_of none = none
  goal_of (some x) = x.sends_to

  pub change-goal_of :
      (q : Queue C A E) (s r : ℕ) (f : Exchange C A E → Exchange C A E)
      → ((x : Exchange C A E) → s ≡ r → (f x).sends_to ≡ x.sends_to)
      → goal_of ((change q s f).exchanges r) ≡ goal_of (q.exchanges r)
  change-goal_of q s r f same = go (s == r) refl (q.exchanges r)
    where
      go :
          (b : Bool)
          → (s == r) ≡ b
          → (o : Option (Exchange C A E))
          → goal_of (if b then elim o [ none ↦ none | some z ↦ some (f z) ] else o) ≡ goal_of o
      go true e none = refl
      go true e (some x) = same x (ground arith)
      go false e o = refl

  pub done_of-goal_of :
      (p : Queue C A E) (uuid : String) (o : Option ℕ) (r : ℕ)
      → goal_of ((done_of p uuid o).0.exchanges r) ≡ goal_of (p.exchanges r)
  done_of-goal_of p uuid none r = refl
  done_of-goal_of p uuid (some s) r =
      change-goal_of p s r (λ x. record x { caller_done = cancel x.caller_done canceled })
        (λ x e. refl)

  pub error_of-goal_of :
      (p : Queue C A E) (k : ℕ) (uuid : String) (e : Option E) (o : Option ℕ) (r : ℕ)
      → goal_of ((error_of (p, k) uuid e o).0.exchanges r) ≡ goal_of (p.exchanges r)
  error_of-goal_of p k uuid e none r = refl
  error_of-goal_of p k uuid e (some s) r =
      if_both
        (λ (out : Queue C A E × Option Error).
          goal_of (out.0.exchanges r) ≡ goal_of (p.exchanges r))
        (is_caller_done (p.exchanges s)) refl
        (change-goal_of p s r
          (λ x. record x { caller_err = e; caller_done = cancel x.caller_done canceled })
          (λ x e. refl))

  pub add_offer-goal_of :
      (p : Queue C A E) (j k r : ℕ) (x : Exchange C A E)
      → IsFresh p
      → goal_of (p.exchanges r) ≡ some k
      → goal_of ((add_offer (p, j) x).exchanges r) ≡ some k
  add_offer-goal_of p j k r x fresh h = go (p.next_exchange == r) refl
    where
      go :
          (b : Bool)
          → (p.next_exchange == r) ≡ b
          → goal_of (if b then some x else p.exchanges r) ≡ some k
      go true e = absurd (cc (ap goal_of (fresh r (ground arith))))
      go false e = h

  pub closed-goal_of :
      (o : Option (Exchange C A E))
      → goal_of (elim o [ none ↦ none | some x ↦ some (finish canceled x) ]) ≡ goal_of o
  closed-goal_of none = refl
  closed-goal_of (some x) = refl
