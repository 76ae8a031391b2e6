-- ===== src/Rpc/CallQueue/Final.antt =====
-- What has happened to an exchange stays: no step takes it back.
use goutils.Common.{
  ℕ, ◌≤◌, String, ◌≡◌, refl, sym, ap, ◌∙◌, Bool, true, false, Option, none, some, List, [], ◌∷◌,
  ◌++◌, if◌then◌else◌, ◌==◌, arith, subst,
}
use goutils.Common.Dict.{Dict}
use goutils.Common.Dict
use goutils.Rpc.CallQueue.{
  DoneError, canceled, deadline_exceeded, Error, Exchange, Queue, updated, cancel, change,
  get_or_make_hosts_queue, new_exchange, add_offer, send_offer_init, send_offer_update, find,
  done_of, send_offer_done, is_caller_done, error_of, send_offer_error,
}
use goutils.Rpc.CallQueue.Answering.{
  recv_offer, waits_for, sent, receive, stop_sending, candidate_taken, response_taken, finish,
  answerer_done, deadline_passes, tick, close,
}
use goutils.Rpc.CallQueue.Steps.{
  Event, sends, updates, ends, fails, listens, receives, stops, takes_candidate, takes_response,
  answers, expires, ticks, closes, if_ready, step, run,
}
use goutils.Rpc.CallQueue.Fresh.{IsFresh, get_or_make_hosts_queue-exchanges, step-IsFresh}

cancel-some : (o : Option DoneError) (e d : DoneError) → o ≡ some d → cancel o e ≡ some d
cancel-some none e d p = absurd (cc)
cancel-some (some c) e d p = p

module _ {C A E : Type 0} where
  -- y is what has become of x: it is the same offer, it has not gone back to its goroutine, and
  -- where a side is done, it is done for the same reason, the caller with the same error.
  pub record Later (x y : Exchange C A E) : Type 0 where
    pub same : (y.uuid ≡ x.uuid) × (y.sdp ≡ x.sdp) × (y.deadline ≡ x.deadline)
    pub gone : x.sends_to ≡ none → y.sends_to ≡ none
    pub answered : (d : DoneError) → x.answerer_done ≡ some d → y.answerer_done ≡ some d
    pub decided :
        (d : DoneError)
        → x.caller_done ≡ some d
        → (y.caller_done ≡ some d) × (y.caller_err ≡ x.caller_err)

  Later-refl : (x : Exchange C A E) → Later x x
  Later-refl x = record {
    same = (refl, refl, refl);
    gone = λ p. p;
    answered = λ d p. p;
    decided = λ d p. (p, refl);
  }

  Later-trans : (x y z : Exchange C A E) → Later x y → Later y z → Later x z
  Later-trans x y z f g = record {
    same = (g.same.0 ∙ f.same.0, g.same.1 ∙ f.same.1, g.same.2 ∙ f.same.2);
    gone = λ p. g.gone (f.gone p);
    answered = λ d p. g.answered d (f.answered d p);
    decided = λ d p. let (a, b) = f.decided d p in let (c, e) = g.decided d a in (c, e ∙ b);
  }

  Later-finish : (e : DoneError) (x : Exchange C A E) → Later x (finish e x)
  Later-finish e x = record {
    same = (refl, refl, refl);
    gone = λ p. p;
    answered = λ d p. cancel-some x.answerer_done e d p;
    decided = λ d p. (p, refl);
  }

  Later-sent : (x : Exchange C A E) → Later x (sent x)
  Later-sent x = record {
    same = (refl, refl, refl);
    gone = λ p. refl;
    answered = λ d p. p;
    decided = λ d p. (p, refl);
  }

  abbrev pub Persists : Queue C A E → ℕ → Exchange C A E → Type 0
  Persists p j x = (y : Exchange C A E) × (p.exchanges j ≡ some y) × Later x y

  Persists-refl :
      (q : Queue C A E) (j : ℕ) (x : Exchange C A E) → q.exchanges j ≡ some x → Persists q j x
  Persists-refl q j x h = (x, h, Later-refl x)

  change-Persists :
      (q : Queue C A E) (r j : ℕ) (f : Exchange C A E → Exchange C A E) (x : Exchange C A E)
      → q.exchanges j ≡ some x
      → (r ≡ j → Later x (f x))
      → Persists (change q r f) j x
  change-Persists q r j f x h later = go (r == j) refl
    where
      mapped :
          (o : Option (Exchange C A E))
          → o ≡ some x
          → elim o [ none ↦ none | some z ↦ some (f z) ] ≡ some (f x)
      mapped none e = absurd (cc)
      mapped (some z) e = cc

      go :
          (b : Bool)
          → (r == j) ≡ b
          → (y : Exchange C A E) × ((if b
                then elim (q.exchanges j) [ none ↦ none | some z ↦ some (f z) ]
                else q.exchanges j)
              ≡ some y)
            × Later x y
      go true e = (f x, mapped (q.exchanges j) h, later (ground arith))
      go false e = (x, h, Later-refl x)

  pub change_self :
      (q : Queue C A E) (r : ℕ) (f : Exchange C A E → Exchange C A E) (x : Exchange C A E)
      → q.exchanges r ≡ some x
      → (change q r f).exchanges r ≡ some (f x)
  change_self q r f x h = go (r == r) (ground arith)
    where
      go :
          (b : Bool)
          → b ≡ true
          → (if b
              then elim (q.exchanges r) [ none ↦ none | some z ↦ some (f z) ]
              else q.exchanges r)
            ≡ some (f x)
      go true e = ap (λ o. elim o [ none ↦ none | some z ↦ some (f z) ]) h
      go false e = absurd (cc)

  with-exchanges :
      (p q : Queue C A E) (j : ℕ) (x : Exchange C A E)
      → p.exchanges ≡ q.exchanges
      → q.exchanges j ≡ some x
      → p.exchanges j ≡ some x
  with-exchanges p q j x same h = ap (λ f. f j) same ∙ h

  add_offer-Persists :
      (p : Queue C A E) (k j : ℕ) (new x : Exchange C A E)
      → IsFresh p
      → p.exchanges j ≡ some x
      → Persists (add_offer (p, k) new) j x
  add_offer-Persists p k j new x fresh h = go (p.next_exchange == j) refl
    where
      go :
          (b : Bool)
          → (p.next_exchange == j) ≡ b
          → (y : Exchange C A E) × ((if b then some new else p.exchanges j) ≡ some y) × Later x y
      go true e = absurd (cc (fresh j (ground arith)))
      go false e = (x, h, Later-refl x)

  done_of-Persists :
      (p : Queue C A E) (uuid : String) (o : Option ℕ) (j : ℕ) (x : Exchange C A E)
      → p.exchanges j ≡ some x
      → Persists (done_of p uuid o).0 j x
  done_of-Persists p uuid none j x h = Persists-refl p j x h
  done_of-Persists p uuid (some r) j x h =
      change-Persists p r j (λ y. record y { caller_done = cancel y.caller_done canceled }) x h
        (λ same. record {
          same = (refl, refl, refl);
          gone = λ q. q;
          answered = λ d q. q;
          decided = λ d q. (cancel-some x.caller_done canceled d q, refl);
        })

  error_of-Persists :
      (p : Queue C A E) (k : ℕ) (uuid : String) (e : Option E) (o : Option ℕ) (j : ℕ)
      (x : Exchange C A E)
      → p.exchanges j ≡ some x
      → Persists (error_of (p, k) uuid e o).0 j x
  error_of-Persists p k uuid e none j x h = Persists-refl p j x h
  error_of-Persists p k uuid e (some r) j x h = go (is_caller_done (p.exchanges r)) refl
    where
      failed : Exchange C A E → Exchange C A E
      failed y = record y { caller_err = e; caller_done = cancel y.caller_done canceled }

      next : Queue C A E
      next = record (change p r failed) {
        active_offers = updated p.active_offers k (Dict.remove (p.active_offers k) uuid);
      }

      undecided : is_caller_done (some x) ≡ false → (d : DoneError) → x.caller_done ≡ some d → ⊥
      undecided b d f = absurd (ground arith)

      go :
          (b : Bool)
          → is_caller_done (p.exchanges r) ≡ b
          → (let out : Queue C A E × Option Error = if b then (p, none) else (next, none) in
              Persists out.0 j x)
      go true b = Persists-refl p j x h
      go false b = change-Persists p r j failed x h (λ same. record {
        same = (refl, refl, refl);
        gone = λ q. q;
        answered = λ d q. q;
        decided = λ d q.
            absurd (undecided (ap is_caller_done (sym h ∙ ap p.exchanges (sym same)) ∙ b) d q);
      })

  receive-Persists :
      (q : Queue C A E) (k r j : ℕ) (x : Exchange C A E)
      → q.exchanges j ≡ some x
      → Persists (if_ready q (receive q k r)) j x
  unfolding receive
  receive-Persists q k r j x h = go (waits_for k (q.exchanges r))
    where
      go : (b : Bool) → Persists (if_ready q (if b then some (change q r sent) else none)) j x
      go true = change-Persists q r j sent x h (λ same. Later-sent x)
      go false = Persists-refl q j x h

  close-Persists :
      (q : Queue C A E) (j : ℕ) (x : Exchange C A E)
      → q.exchanges j ≡ some x
      → Persists (close q) j x
  unfolding close
  close-Persists q j x h = (
    finish canceled x,
    ap (λ o. elim o [ none ↦ none | some y ↦ some (finish canceled y) ]) h,
    Later-finish canceled x,
  )

  pub step-Persists :
      (q : Queue C A E) (v : Event C A E) (j : ℕ) (x : Exchange C A E)
      → IsFresh q
      → q.exchanges j ≡ some x
      → Persists (step q v) j x
  unfolding step send_offer_init send_offer_update send_offer_done send_offer_error recv_offer
      stop_sending candidate_taken response_taken answerer_done deadline_passes tick
  step-Persists q (sends host uuid sdp trickle deadline) j x fresh h =
      let s = get_or_make_hosts_queue q (host ∷ []) in
      let (same, next) = get_or_make_hosts_queue-exchanges q (host ∷ []) in
      add_offer-Persists s.0 s.1 j (new_exchange q.closed uuid sdp trickle deadline s.1) x
        (λ r le. ap (λ f. f r) same ∙ fresh r (subst (λ n. n ≤ r) next le)) (ap (λ f. f j) same ∙ h)
  step-Persists q (updates host uuid) j x fresh h =
      (x, ap (λ f. f j) (get_or_make_hosts_queue-exchanges q (host ∷ [])).0 ∙ h, Later-refl x)
  step-Persists q (ends host uuid) j x fresh h =
      let s = get_or_make_hosts_queue q (host ∷ []) in
      done_of-Persists s.0 uuid (find s uuid) j x
        (ap (λ f. f j) (get_or_make_hosts_queue-exchanges q (host ∷ [])).0 ∙ h)
  step-Persists q (fails host uuid e) j x fresh h =
      let s = get_or_make_hosts_queue q (host ∷ []) in
      error_of-Persists s.0 s.1 uuid e (find s uuid) j x
        (ap (λ f. f j) (get_or_make_hosts_queue-exchanges q (host ∷ [])).0 ∙ h)
  step-Persists q (listens hosts) j x fresh h =
      (x, ap (λ f. f j) (get_or_make_hosts_queue-exchanges q hosts).0 ∙ h, Later-refl x)
  step-Persists q (receives k r) j x fresh h = receive-Persists q k r j x h
  step-Persists q (stops r) j x fresh h = change-Persists q r j sent x h (λ same. Later-sent x)
  step-Persists q (takes_candidate r c) j x fresh h =
      change-Persists q r j (λ y. record y { candidates = y.candidates ++ c ∷ [] }) x h
        (λ same. record {
          same = (refl, refl, refl);
          gone = λ q. q;
          answered = λ d q. q;
          decided = λ d q. (q, refl);
        })
  step-Persists q (takes_response r a) j x fresh h =
      change-Persists q r j (λ y. record y { responses = y.responses ++ a ∷ [] }) x h
        (λ same. record {
          same = (refl, refl, refl);
          gone = λ q. q;
          answered = λ d q. q;
          decided = λ d q. (q, refl);
        })
  step-Persists q (answers r) j x fresh h =
      change-Persists q r j (finish canceled) x h (λ same. Later-finish canceled x)
  step-Persists q (expires r) j x fresh h =
      change-Persists q r j (finish deadline_exceeded) x h
        (λ same. Later-finish deadline_exceeded x)
  step-Persists q (ticks now) j x fresh h = Persists-refl q j x h
  step-Persists q closes j x fresh h = close-Persists q j x h

  -- However the steps go on, an exchange stays the same offer, is not sent again once it has gone to a
  -- receiver or its goroutine has stopped, and each side that is done stays so for the same reason:
  -- the first of SendOfferDone and SendOfferError decides what CallerErr answers.
  pub run-Later :
      (q : Queue C A E) (vs : List (Event C A E)) (r : ℕ) (x : Exchange C A E)
      → IsFresh q
      → q.exchanges r ≡ some x
      → (y : Exchange C A E) × ((run q vs).exchanges r ≡ some y) × Later x y
  unfolding step
  run-Later q [] r x fresh h = Persists-refl q r x h
  run-Later q (v ∷ vs) r x fresh h =
      let (y, e, f) = step-Persists q v r x fresh h in
      let (z, e2, g) = run-Later (step q v) vs r y (step-IsFresh q v fresh) e in
      (z, e2, Later-trans x y z f g)
