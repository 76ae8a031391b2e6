-- ===== src/Rpc/CallQueue/Waiting.antt =====
-- An offer waits for the receivers of its host until one gets it or its goroutine stops.
use goutils.Common.{
  ℕ, String, ◌≡◌, refl, ap, ◌∙◌, Bool, true, false, ◌||◌, Option, none, some, List, [], ◌∷◌, ◌++◌,
  if◌then◌else◌, ◌==◌, if_both, is_in, arith,
}
use goutils.Common.Dict.{Dict}
use goutils.Common.Dict
use goutils.Rpc.CallQueue.{
  canceled, deadline_exceeded, Error, Exchange, Queue, updated, change, get_or_make_hosts_queue,
  new_exchange, send_offer_init, send_offer_update, find, done_of, send_offer_done, is_caller_done,
  error_of, send_offer_error,
}
use goutils.Rpc.CallQueue.Answering.{
  recv_offer, waits_for, sent, receive, stop_sending, candidate_taken, response_taken, finish,
  answerer_done, deadline_passes, tick, close,
}
use goutils.Rpc.CallQueue.Hosts.{
  get_or_make_hosts_queue-get, get_or_make_hosts_queue-own, recv_offer-last,
}
use goutils.Rpc.CallQueue.Fresh.{
  IsFresh, add_offer-IsFresh, step-IsFresh, get_or_make_hosts_queue-IsFresh,
  get_or_make_hosts_queue-exchanges,
}
use goutils.Rpc.CallQueue.Steps.{
  Event, sends, updates, ends, fails, listens, receives, stops, takes_candidate, takes_response,
  answers, expires, ticks, closes, if_ready, step, run,
}
use goutils.Rpc.CallQueue.Goals.{
  goal_of, change-goal_of, done_of-goal_of, error_of-goal_of, add_offer-goal_of, closed-goal_of,
}

module _ {C A E : Type 0} where
  -- whether a step may take the exchange from its goroutine
  abbrev pub takes : ℕ → Event C A E → Bool
  takes r (receives k s) = s == r
  takes r (stops s) = s == r
  takes r _ = false

  abbrev pub take_any : ℕ → List (Event C A E) → Bool
  take_any r [] = false
  take_any r (v ∷ vs) = takes r v || take_any r vs

  -- the exchange of a queue whose goroutine waits for the queue k, which the host has
  record IsWaiting (host : String) (k r : ℕ) (q : Queue C A E) : Type 0 where
    pub fresh : IsFresh q
    pub waits : goal_of (q.exchanges r) ≡ some k
    pub owns : Dict.get q.host_queues host ≡ some k

  get_or_make_hosts_queue-IsWaiting :
      (q : Queue C A E) (hosts : List String) (host : String) (k r : ℕ)
      → IsFresh (get_or_make_hosts_queue q hosts).0
      → IsWaiting host k r q
      → IsWaiting host k r (get_or_make_hosts_queue q hosts).0
  get_or_make_hosts_queue-IsWaiting q hosts host k r fresh w = record {
    fresh = fresh;
    waits = ap (λ f. goal_of (f r)) (get_or_make_hosts_queue-exchanges q hosts).0 ∙ w.waits;
    owns =
        get_or_make_hosts_queue-get q hosts host
        ∙ ap
            (λ o. elim o [
              | some j ↦ some j
              | none ↦ if is_in hosts host then some (get_or_make_hosts_queue q hosts).1 else none
            ])
            w.owns;
  }

  kept-IsWaiting :
      (p q : Queue C A E) (host : String) (k r : ℕ)
      → IsFresh q
      → goal_of (q.exchanges r) ≡ goal_of (p.exchanges r)
      → q.host_queues ≡ p.host_queues
      → IsWaiting host k r p
      → IsWaiting host k r q
  kept-IsWaiting p q host k r fresh goal hosts w = record {
    fresh = fresh;
    waits = goal ∙ w.waits;
    owns = ap (λ m. Dict.get m host) hosts ∙ w.owns;
  }

  done_of-host_queues :
      (p : Queue C A E) (uuid : String) (o : Option ℕ)
      → (done_of p uuid o).0.host_queues ≡ p.host_queues
  done_of-host_queues p uuid none = refl
  done_of-host_queues p uuid (some s) = refl

  error_of-host_queues :
      (p : Queue C A E) (k : ℕ) (uuid : String) (e : Option E) (o : Option ℕ)
      → (error_of (p, k) uuid e o).0.host_queues ≡ p.host_queues
  error_of-host_queues p k uuid e none = refl
  error_of-host_queues p k uuid e (some s) =
      if_both (λ (out : Queue C A E × Option Error). out.0.host_queues ≡ p.host_queues)
        (is_caller_done (p.exchanges s)) refl refl

  receive-IsWaiting :
      (q : Queue C A E) (host : String) (k r j s : ℕ)
      → (s == r) ≡ false
      → IsWaiting host k r q
      → IsFresh (if_ready q (receive q j s))
      → IsWaiting host k r (if_ready q (receive q j s))
  unfolding receive
  receive-IsWaiting q host k r j s away w =
      if_both (λ o. IsFresh (if_ready q o) → IsWaiting host k r (if_ready q o))
        (waits_for j (q.exchanges s))
        (λ fresh.
          kept-IsWaiting q (change q s sent) host k r fresh
            (change-goal_of q s r sent (λ x e. absurd (ground arith))) refl w)
        (λ fresh. w)

  step-IsWaiting :
      (q : Queue C A E) (v : Event C A E) (host : String) (k r : ℕ)
      → takes r v ≡ false
      → IsWaiting host k r q
      → IsWaiting host k r (step q v)
  unfolding step send_offer_init send_offer_update send_offer_done send_offer_error recv_offer
      stop_sending candidate_taken response_taken answerer_done deadline_passes tick close
  step-IsWaiting q v host k r away w = go v away (step-IsFresh q v w.fresh)
    where
      shared : (hosts : List String) → IsWaiting host k r (get_or_make_hosts_queue q hosts).0
      shared hosts =
          get_or_make_hosts_queue-IsWaiting q hosts host k r
            (get_or_make_hosts_queue-IsFresh q hosts w.fresh) w

      changed :
          (s : ℕ) (f : Exchange C A E → Exchange C A E)
          → ((x : Exchange C A E) → s ≡ r → (f x).sends_to ≡ x.sends_to)
          → IsFresh (change q s f)
          → IsWaiting host k r (change q s f)
      changed s f same fresh =
          kept-IsWaiting q (change q s f) host k r fresh (change-goal_of q s r f same) refl w

      go :
          (v : Event C A E) → takes r v ≡ false → IsFresh (step q v) → IsWaiting host k r (step q v)
      go (sends to uuid sdp trickle deadline) away fresh =
          let s = get_or_make_hosts_queue q (to ∷ []) in
          let p = shared (to ∷ []) in
          record {
            fresh = fresh;
            waits =
                add_offer-goal_of s.0 s.1 k r (new_exchange q.closed uuid sdp trickle deadline s.1)
                  p.fresh p.waits;
            owns = p.owns;
          }
      go (updates to uuid) away fresh = shared (to ∷ [])
      go (ends to uuid) away fresh =
          let s = get_or_make_hosts_queue q (to ∷ []) in
          kept-IsWaiting s.0 (done_of s.0 uuid (find s uuid)).0 host k r fresh
            (done_of-goal_of s.0 uuid (find s uuid) r) (done_of-host_queues s.0 uuid (find s uuid))
            (shared (to ∷ []))
      go (fails to uuid e) away fresh =
          let s = get_or_make_hosts_queue q (to ∷ []) in
          kept-IsWaiting s.0 (error_of s uuid e (find s uuid)).0 host k r fresh
            (error_of-goal_of s.0 s.1 uuid e (find s uuid) r)
            (error_of-host_queues s.0 s.1 uuid e (find s uuid)) (shared (to ∷ []))
      go (listens hosts) away fresh = shared hosts
      go (receives j s) away fresh = receive-IsWaiting q host k r j s away w fresh
      go (stops s) away fresh = changed s sent (λ x e. absurd (ground arith)) fresh
      go (takes_candidate s c) away fresh =
          changed s (λ y. record y { candidates = y.candidates ++ c ∷ [] }) (λ x e. refl) fresh
      go (takes_response s a) away fresh =
          changed s (λ y. record y { responses = y.responses ++ a ∷ [] }) (λ x e. refl) fresh
      go (answers s) away fresh = changed s (finish canceled) (λ x e. refl) fresh
      go (expires s) away fresh = changed s (finish deadline_exceeded) (λ x e. refl) fresh
      go (ticks now) away fresh = kept-IsWaiting q (tick q now) host k r fresh refl refl w
      go closes away fresh =
          kept-IsWaiting q (close q) host k r fresh (closed-goal_of (q.exchanges r)) refl w

  run-IsWaiting :
      (q : Queue C A E) (vs : List (Event C A E)) (host : String) (k r : ℕ)
      → take_any r vs ≡ false
      → IsWaiting host k r q
      → IsWaiting host k r (run q vs)
  unfolding step
  run-IsWaiting q [] host k r away w = w
  run-IsWaiting q (v ∷ vs) host k r away w =
      run-IsWaiting (step q v) vs host k r (ground arith)
        (step-IsWaiting q v host k r (ground arith) w)

  waits_for-goal_of :
      (o : Option (Exchange C A E)) (k : ℕ) → goal_of o ≡ some k → waits_for k o ≡ true
  waits_for-goal_of none k h = absurd (cc)
  waits_for-goal_of (some x) k h = ground arith

  send_offer_init-IsWaiting :
      (q : Queue C A E) (host uuid sdp : String) (trickle : Bool) (deadline : ℕ)
      → IsFresh q
      → (k : ℕ) × IsWaiting host k q.next_exchange
          (send_offer_init q host uuid sdp trickle deadline)
  unfolding send_offer_init recv_offer
  send_offer_init-IsWaiting q host uuid sdp trickle deadline fresh =
      let s = get_or_make_hosts_queue q (host ∷ []) in
      let new = new_exchange q.closed uuid sdp trickle deadline s.1 in
      (
        s.1,
        record {
          fresh =
              add_offer-IsFresh s.0 s.1 new (get_or_make_hosts_queue-IsFresh q (host ∷ []) fresh);
          waits =
              found s.0.next_exchange (get_or_make_hosts_queue-exchanges q (host ∷ [])).1
                s.0.exchanges new;
          owns = get_or_make_hosts_queue-own q host;
        },
      )
    where
      found :
          (n : ℕ)
          → n ≡ q.next_exchange
          → (f : ℕ → Option (Exchange C A E)) (x : Exchange C A E)
          → goal_of (updated f n (some x) q.next_exchange) ≡ x.sends_to
      found n e f x = go (n == q.next_exchange) (ground arith)
        where
          go :
              (b : Bool) → b ≡ true → goal_of (if b then some x else f q.next_exchange) ≡ x.sends_to
          go true p = refl
          go false p = absurd (cc)

  -- An offer that is sent to a host waits: after any steps, unless one of them has given it to a receiver
  -- or stopped its goroutine, a receiver whose last host is this one can get it.
  pub send_offer_init-receive :
      (q : Queue C A E) (host uuid sdp : String) (trickle : Bool) (deadline : ℕ)
      (vs : List (Event C A E)) (hosts : List String)
      → IsFresh q
      → take_any q.next_exchange vs ≡ false
      → let p = run (send_offer_init q host uuid sdp trickle deadline) vs in
        let l = recv_offer p (hosts ++ host ∷ []) in
        receive l.0 l.1 q.next_exchange ≡ some (change l.0 q.next_exchange sent)
  unfolding receive recv_offer
  send_offer_init-receive q host uuid sdp trickle deadline vs hosts fresh away =
      let p = run (send_offer_init q host uuid sdp trickle deadline) vs in
      let (k, start) = send_offer_init-IsWaiting q host uuid sdp trickle deadline fresh in
      let w =
        run-IsWaiting (send_offer_init q host uuid sdp trickle deadline) vs host k q.next_exchange
          away start in
      let same = recv_offer-last p hosts host k w.owns in
      let l = get_or_make_hosts_queue p (hosts ++ host ∷ []) in
      let kept =
        ap (λ f. goal_of (f q.next_exchange))
          (get_or_make_hosts_queue-exchanges p (hosts ++ host ∷ [])).0 in
      let ready =
        ap (λ j. waits_for j (l.0.exchanges q.next_exchange)) same
        ∙ waits_for-goal_of (l.0.exchanges q.next_exchange) k (kept ∙ w.waits) in
      ap (λ b. if b then some (change l.0 q.next_exchange sent) else none) ready
