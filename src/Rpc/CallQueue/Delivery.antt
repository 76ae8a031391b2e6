-- ===== src/Rpc/CallQueue/Delivery.antt =====
-- An exchange goes to at most one receiver, and its host's receivers can get it.
use goutils.Common.{
  ℕ, suc, ◌≤◌, ◌≡◌, refl, sym, ap, ◌∙◌, Bool, true, false, ◌&&◌, Option, none, some, List, [], ◌∷◌,
  if◌then◌else◌, ◌==◌, arith,
}
use goutils.Rpc.CallQueue.{Exchange, Queue, change}
use goutils.Rpc.CallQueue.Answering.{waits_for, sent, receive}
use goutils.Rpc.CallQueue.Steps.{
  Event, sends, updates, ends, fails, listens, receives, stops, takes_candidate, takes_response,
  answers, expires, ticks, closes, if_ready, step,
}
use goutils.Rpc.CallQueue.Fresh.{IsFresh, step-IsFresh}
use goutils.Rpc.CallQueue.Final.{change_self, run-Later}

module _ {C A E : Type 0} where
  -- whether the exchange r goes to a receiver in this step
  abbrev pub delivers : Queue C A E → ℕ → Event C A E → Bool
  delivers q r (receives k s) = s == r && waits_for k (q.exchanges s)
  delivers q r _ = false

  -- how often it does
  unfoldable pub deliveries : Queue C A E → ℕ → List (Event C A E) → ℕ
  unfolding step
  deliveries q r [] = 0
  deliveries q r (v ∷ vs) =
      let rest = deliveries (step q v) r vs in if delivers q r v then suc rest else rest

  not_waiting : (k : ℕ) (x : Exchange C A E) → x.sends_to ≡ none → waits_for k (some x) ≡ false
  not_waiting k x e = ground arith

  delivers-gone :
      (q : Queue C A E) (r : ℕ) (v : Event C A E) (x : Exchange C A E)
      → q.exchanges r ≡ some x
      → x.sends_to ≡ none
      → delivers q r v ≡ false
  delivers-gone q r (receives k s) x h e = go (s == r) refl
    where
      go : (b : Bool) → (s == r) ≡ b → (b && waits_for k (q.exchanges s)) ≡ false
      go true p = ap (waits_for k) (ap q.exchanges (ground arith) ∙ h) ∙ not_waiting k x e
      go false p = refl
  delivers-gone q r (sends a b c d f) x h e = refl
  delivers-gone q r (updates a b) x h e = refl
  delivers-gone q r (ends a b) x h e = refl
  delivers-gone q r (fails a b c) x h e = refl
  delivers-gone q r (listens a) x h e = refl
  delivers-gone q r (stops a) x h e = refl
  delivers-gone q r (takes_candidate a b) x h e = refl
  delivers-gone q r (takes_response a b) x h e = refl
  delivers-gone q r (answers a) x h e = refl
  delivers-gone q r (expires a) x h e = refl
  delivers-gone q r (ticks a) x h e = refl
  delivers-gone q r closes x h e = refl

  deliveries-gone :
      (q : Queue C A E) (r : ℕ) (vs : List (Event C A E)) (x : Exchange C A E)
      → IsFresh q
      → q.exchanges r ≡ some x
      → x.sends_to ≡ none
      → deliveries q r vs ≡ 0
  unfolding deliveries
  deliveries-gone q r [] x fresh h e = refl
  deliveries-gone q r (v ∷ vs) x fresh h e =
      let (y, same, later) = run-Later q (v ∷ []) r x fresh h in
      ap (λ b. if b then suc (deliveries (step q v) r vs) else deliveries (step q v) r vs)
        (delivers-gone q r v x h e)
      ∙ deliveries-gone (step q v) r vs y (step-IsFresh q v fresh) same (later.gone e)

  waits_for-some :
      (k : ℕ) (o : Option (Exchange C A E))
      → waits_for k o ≡ true
      → (x : Exchange C A E) × (o ≡ some x)
  waits_for-some k none h = absurd (cc)
  waits_for-some k (some x) h = (x, refl)

  -- what has been delivered is gone from its goroutine
  delivers-next :
      (q : Queue C A E) (r : ℕ) (v : Event C A E)
      → delivers q r v ≡ true
      → (y : Exchange C A E) × ((step q v).exchanges r ≡ some y) × (y.sends_to ≡ none)
  unfolding step receive
  delivers-next q r (receives k s) h =
      let same : s ≡ r = ground arith in
      let waiting : waits_for k (q.exchanges s) ≡ true = ground arith in
      let ready : if_ready q (receive q k s) ≡ change q s sent =
        ap (λ b. if_ready q (if b then some (change q s sent) else none)) waiting in
      let (x, e) = waits_for-some k (q.exchanges s) waiting in
      (
        sent x,
        ap (λ p. Queue.exchanges p r) ready
            ∙ ap (change q s sent).exchanges (sym same)
            ∙ change_self q s sent x e,
        refl,
      )
  delivers-next q r (sends a b c d f) h = absurd (cc)
  delivers-next q r (updates a b) h = absurd (cc)
  delivers-next q r (ends a b) h = absurd (cc)
  delivers-next q r (fails a b c) h = absurd (cc)
  delivers-next q r (listens a) h = absurd (cc)
  delivers-next q r (stops a) h = absurd (cc)
  delivers-next q r (takes_candidate a b) h = absurd (cc)
  delivers-next q r (takes_response a b) h = absurd (cc)
  delivers-next q r (answers a) h = absurd (cc)
  delivers-next q r (expires a) h = absurd (cc)
  delivers-next q r (ticks a) h = absurd (cc)
  delivers-next q r closes h = absurd (cc)

  -- In every run an exchange goes to a receiver at most once.
  pub deliveries_bounded :
      (q : Queue C A E) (r : ℕ) (vs : List (Event C A E)) → IsFresh q → deliveries q r vs ≤ 1
  unfolding deliveries
  deliveries_bounded q r [] fresh = omega arith
  deliveries_bounded q r (v ∷ vs) fresh =
      go (delivers q r v) refl (deliveries_bounded (step q v) r vs (step-IsFresh q v fresh))
    where
      go :
          (b : Bool)
          → delivers q r v ≡ b
          → deliveries (step q v) r vs ≤ 1
          → (if b then suc (deliveries (step q v) r vs) else deliveries (step q v) r vs) ≤ 1
      go true e ih =
          let (y, same, gone) = delivers-next q r v e in
          omega (arith, deliveries-gone (step q v) r vs y (step-IsFresh q v fresh) same gone)
      go false e ih = ih
