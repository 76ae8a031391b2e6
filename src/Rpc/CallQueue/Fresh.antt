-- ===== src/Rpc/CallQueue/Fresh.antt =====
-- References that are not given out have no exchange.
use goutils.Common.{
  ℕ, ◌≤◌, String, ◌≡◌, refl, ap, ◌∙◌, Bool, true, false, Option, none, some, List, [], ◌∷◌, ◌++◌,
  if◌then◌else◌, ◌==◌, arith, subst, if_both,
}
use goutils.Rpc.CallQueue.{
  canceled, deadline_exceeded, Error, Exchange, Queue, cancel, change, last_known, missing,
  with_shared, get_or_make_hosts_queue, new_exchange, add_offer, send_offer_init, send_offer_update,
  find, done_of, send_offer_done, is_caller_done, error_of, send_offer_error,
}
use goutils.Rpc.CallQueue.Answering.{
  recv_offer, waits_for, sent, receive, stop_sending, candidate_taken, response_taken, finish,
  answerer_done, deadline_passes, tick, close,
}
use goutils.Rpc.CallQueue.Steps.{
  Event, sends, updates, ends, fails, listens, receives, stops, takes_candidate, takes_response,
  answers, expires, ticks, closes, if_ready, step,
}

module _ {C A E : Type 0} where
  -- no exchange has a reference that is not given out
  abbrev pub IsFresh : Queue C A E → Type 0
  IsFresh q = (r : ℕ) → q.next_exchange ≤ r → q.exchanges r ≡ none

  pub get_or_make_hosts_queue-exchanges :
      (q : Queue C A E) (hosts : List String)
      → ((get_or_make_hosts_queue q hosts).0.exchanges ≡ q.exchanges)
        × ((get_or_make_hosts_queue q hosts).0.next_exchange ≡ q.next_exchange)
  unfolding get_or_make_hosts_queue
  get_or_make_hosts_queue-exchanges q hosts =
      go (missing q.host_queues hosts) (last_known q.host_queues hosts none)
    where
      go :
          (hs : List String) (o : Option ℕ)
          → ((with_shared q hs o).0.exchanges ≡ q.exchanges)
            × ((with_shared q hs o).0.next_exchange ≡ q.next_exchange)
      go hs none = (refl, refl)
      go hs (some k) = (refl, refl)

  change-IsFresh :
      (q : Queue C A E) (r : ℕ) (f : Exchange C A E → Exchange C A E)
      → IsFresh q
      → IsFresh (change q r f)
  change-IsFresh q r f fresh j le = go (r == j)
    where
      go :
          (b : Bool)
          → (if b
              then elim (q.exchanges j) [ none ↦ none | some z ↦ some (f z) ]
              else q.exchanges j)
            ≡ none
      go true = ap (λ o. elim o [ none ↦ none | some z ↦ some (f z) ]) (fresh j le)
      go false = fresh j le

  pub add_offer-IsFresh :
      (p : Queue C A E) (k : ℕ) (new : Exchange C A E) → IsFresh p → IsFresh (add_offer (p, k) new)
  add_offer-IsFresh p k new fresh j le = go (p.next_exchange == j) refl
    where
      go : (b : Bool) → (p.next_exchange == j) ≡ b → (if b then some new else p.exchanges j) ≡ none
      go true e = absurd (ground arith)
      go false e = fresh j (ground arith)

  error_of-IsFresh :
      (p : Queue C A E) (k : ℕ) (uuid : String) (e : Option E) (o : Option ℕ)
      → IsFresh p
      → IsFresh (error_of (p, k) uuid e o).0
  error_of-IsFresh p k uuid e none fresh = fresh
  error_of-IsFresh p k uuid e (some r) fresh =
      if_both (λ (out : Queue C A E × Option Error). IsFresh out.0) (is_caller_done (p.exchanges r))
        fresh
        (change-IsFresh p r
          (λ y. record y { caller_err = e; caller_done = cancel y.caller_done canceled }) fresh)

  done_of-IsFresh :
      (p : Queue C A E) (uuid : String) (o : Option ℕ) → IsFresh p → IsFresh (done_of p uuid o).0
  done_of-IsFresh p uuid none fresh = fresh
  done_of-IsFresh p uuid (some r) fresh =
      change-IsFresh p r (λ y. record y { caller_done = cancel y.caller_done canceled }) fresh

  pub get_or_make_hosts_queue-IsFresh :
      (q : Queue C A E) (hosts : List String)
      → IsFresh q
      → IsFresh (get_or_make_hosts_queue q hosts).0
  get_or_make_hosts_queue-IsFresh q hosts fresh r le =
      let (same, next) = get_or_make_hosts_queue-exchanges q hosts in
      ap (λ f. f r) same ∙ fresh r (subst (λ n. n ≤ r) next le)

  receive-IsFresh : (q : Queue C A E) (k r : ℕ) → IsFresh q → IsFresh (if_ready q (receive q k r))
  unfolding receive
  receive-IsFresh q k r fresh =
      if_both (λ (o : Option (Queue C A E)). IsFresh (if_ready q o)) (waits_for k (q.exchanges r))
        (change-IsFresh q r sent fresh) fresh

  pub step-IsFresh : (q : Queue C A E) (v : Event C A E) → IsFresh q → IsFresh (step q v)
  unfolding step send_offer_init send_offer_update send_offer_done send_offer_error recv_offer
      stop_sending candidate_taken response_taken answerer_done deadline_passes tick close
  step-IsFresh q (sends host uuid sdp trickle deadline) fresh =
      let s = get_or_make_hosts_queue q (host ∷ []) in
      add_offer-IsFresh s.0 s.1 (new_exchange q.closed uuid sdp trickle deadline s.1)
        (get_or_make_hosts_queue-IsFresh q (host ∷ []) fresh)
  step-IsFresh q (updates host uuid) fresh = get_or_make_hosts_queue-IsFresh q (host ∷ []) fresh
  step-IsFresh q (ends host uuid) fresh =
      let s = get_or_make_hosts_queue q (host ∷ []) in
      done_of-IsFresh s.0 uuid (find s uuid) (get_or_make_hosts_queue-IsFresh q (host ∷ []) fresh)
  step-IsFresh q (fails host uuid e) fresh =
      let s = get_or_make_hosts_queue q (host ∷ []) in
      error_of-IsFresh s.0 s.1 uuid e (find s uuid)
        (get_or_make_hosts_queue-IsFresh q (host ∷ []) fresh)
  step-IsFresh q (listens hosts) fresh = get_or_make_hosts_queue-IsFresh q hosts fresh
  step-IsFresh q (receives k r) fresh = receive-IsFresh q k r fresh
  step-IsFresh q (stops r) fresh = change-IsFresh q r sent fresh
  step-IsFresh q (takes_candidate r c) fresh =
      change-IsFresh q r (λ y. record y { candidates = y.candidates ++ c ∷ [] }) fresh
  step-IsFresh q (takes_response r a) fresh =
      change-IsFresh q r (λ y. record y { responses = y.responses ++ a ∷ [] }) fresh
  step-IsFresh q (answers r) fresh = change-IsFresh q r (finish canceled) fresh
  step-IsFresh q (expires r) fresh = change-IsFresh q r (finish deadline_exceeded) fresh
  step-IsFresh q (ticks now) fresh = fresh
  step-IsFresh q closes fresh =
      λ r le. ap (λ o. elim o [ none ↦ none | some y ↦ some (finish canceled y) ]) (fresh r le)
