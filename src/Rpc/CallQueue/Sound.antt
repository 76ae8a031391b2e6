-- ===== src/Rpc/CallQueue/Sound.antt =====
-- The offers that are active: under each uuid the exchange with this uuid.
use goutils.Common.{
  ℕ, String, ◌≡◌, refl, ◌∙◌, subst, Bool, true, false, Option, none, some, List, [], ◌∷◌, All,
  if◌then◌else◌, ◌==◌, str_eq, if_both, eq_iff, arith,
}
use goutils.Common.Dict.{Dict, put, remove, get}
use goutils.Common.Dict
use goutils.Rpc.CallQueue.{
  Error, Exchange, Queue, updated, last_known, missing, with_shared, get_or_make_hosts_queue,
  new_exchange, send_offer_init, send_offer_update, find, done_of, send_offer_done, is_caller_done,
  error_of, send_offer_error,
}
use goutils.Rpc.CallQueue.Answering.{
  recv_offer, waits_for, receive, stop_sending, candidate_taken, response_taken, answerer_done,
  deadline_passes, is_expired, live, expire_all, tick, close,
}
use goutils.Rpc.CallQueue.Fresh.{IsFresh, step-IsFresh}
use goutils.Rpc.CallQueue.Final.{step-Persists}
use goutils.Rpc.CallQueue.Steps.{
  Event, sends, updates, ends, fails, listens, receives, stops, takes_candidate, takes_response,
  answers, expires, ticks, closes, if_ready, step, run,
}

module _ {V : Type 0} where
  All-mono : (P Q : V → Type 0) (xs : List V) → ((x : V) → P x → Q x) → All P xs → All Q xs
  All-mono P Q [] f h = tt
  All-mono P Q (x ∷ xs) f (h, hs) = (f x h, All-mono P Q xs f hs)

module _ {V : Type 0} (P : String × V → Type 0) where
  All-put : (m : Dict V) (k : String) (v : V) → P (k, v) → All P m → All P (Dict.put m k v)
  unfolding put
  All-put [] k v p h = (p, tt)
  All-put ((j, w) ∷ m) k v p (h, hs) = if_both (All P) (str_eq j k) (p, hs) (h, All-put m k v p hs)

  All-remove : (m : Dict V) (k : String) → All P m → All P (Dict.remove m k)
  unfolding remove
  All-remove [] k h = tt
  All-remove ((j, w) ∷ m) k (h, hs) =
      if_both (All P) (str_eq j k) (All-remove m k hs) (h, All-remove m k hs)

  pub All-get : (m : Dict V) (k : String) (v : V) → All P m → Dict.get m k ≡ some v → P (k, v)
  unfolding get
  All-get [] k v h e = absurd (cc)
  All-get ((j, w) ∷ m) k v (h, hs) e = go (str_eq j k) refl (All-get m k v hs) e
    where
      go :
          (b : Bool)
          → str_eq j k ≡ b
          → (Dict.get m k ≡ some v → P (k, v))
          → (if b then some w else Dict.get m k) ≡ some v
          → P (k, v)
      go true p ih q =
          subst P
            (let a : j ≡ k = ground (arith, eq_iff j k) in let b : w ≡ v = cc in λ i. (a i, b i)) h
      go false p ih q = ih q

module _ {C A E : Type 0} where
  -- the exchange is in the store, and has the uuid
  abbrev pub IsOffer : (ℕ → Option (Exchange C A E)) → String × ℕ → Type 0
  IsOffer f (u, r) = (x : Exchange C A E) × (f r ≡ some x) × (x.uuid ≡ u)

  pub record IsSound (q : Queue C A E) : Type 0 where
    pub fresh : IsFresh q
    pub active : (k : ℕ) → All (IsOffer q.exchanges) (q.active_offers k)

  abbrev AllActive : (ℕ → Option (Exchange C A E)) → (ℕ → Dict ℕ) → Type 0
  AllActive f active = (k : ℕ) → All (IsOffer f) (active k)

  updated-AllActive :
      (f : ℕ → Option (Exchange C A E)) (active : ℕ → Dict ℕ) (k : ℕ) (m : Dict ℕ)
      → AllActive f active
      → All (IsOffer f) m
      → AllActive f (updated active k m)
  updated-AllActive f active k m h p j = if_both (All (IsOffer f)) (k == j) p (h j)

  pub get_or_make_hosts_queue-AllActive :
      (f : ℕ → Option (Exchange C A E)) (q : Queue C A E) (hosts : List String)
      → AllActive f q.active_offers
      → AllActive f (get_or_make_hosts_queue q hosts).0.active_offers
  unfolding get_or_make_hosts_queue
  get_or_make_hosts_queue-AllActive f q hosts h =
      go (missing q.host_queues hosts) (last_known q.host_queues hosts none)
    where
      go : (hs : List String) (o : Option ℕ) → AllActive f (with_shared q hs o).0.active_offers
      go hs none = updated-AllActive f q.active_offers q.next_queue [] h tt
      go hs (some k) = h

  live-All :
      (P : String × ℕ → Type 0) (xs : ℕ → Option (Exchange C A E)) (now : ℕ) (m : Dict ℕ)
      → All P m
      → All P (live xs now m)
  live-All P xs now [] h = tt
  live-All P xs now ((u, r) ∷ m) (h, hs) =
      if_both (All P) (is_expired (xs r) now) (live-All P xs now m hs) (h, live-All P xs now m hs)

  expire_all-AllActive :
      (f xs : ℕ → Option (Exchange C A E)) (now : ℕ) (hosts : Dict ℕ) (active : ℕ → Dict ℕ)
      → AllActive f active
      → AllActive f (expire_all xs now hosts active)
  expire_all-AllActive f xs now [] active h = h
  expire_all-AllActive f xs now ((host, k) ∷ hosts) active h =
      expire_all-AllActive f xs now hosts (updated active k (live xs now (active k))) (
        updated-AllActive f active k (live xs now (active k)) h
          (live-All (IsOffer f) xs now (active k) (h k)))

  done_of-AllActive :
      (f : ℕ → Option (Exchange C A E)) (p : Queue C A E) (uuid : String) (o : Option ℕ)
      → AllActive f p.active_offers
      → AllActive f (done_of p uuid o).0.active_offers
  done_of-AllActive f p uuid none h = h
  done_of-AllActive f p uuid (some r) h = h

  error_of-AllActive :
      (f : ℕ → Option (Exchange C A E)) (p : Queue C A E) (k : ℕ) (uuid : String) (e : Option E)
      (o : Option ℕ)
      → AllActive f p.active_offers
      → AllActive f (error_of (p, k) uuid e o).0.active_offers
  error_of-AllActive f p k uuid e none h = h
  error_of-AllActive f p k uuid e (some r) h =
      if_both (λ (out : Queue C A E × Option Error). AllActive f out.0.active_offers)
        (is_caller_done (p.exchanges r)) h
        (updated-AllActive f p.active_offers k (Dict.remove (p.active_offers k) uuid) h
          (All-remove (IsOffer f) (p.active_offers k) uuid (h k)))

  receive-AllActive :
      (f : ℕ → Option (Exchange C A E)) (q : Queue C A E) (k r : ℕ)
      → AllActive f q.active_offers
      → AllActive f (if_ready q (receive q k r)).active_offers
  unfolding receive
  receive-AllActive f q k r h =
      if_both (λ o. AllActive f (if_ready q o).active_offers) (waits_for k (q.exchanges r)) h h

  later-AllActive :
      (q : Queue C A E) (v : Event C A E) (active : ℕ → Dict ℕ)
      → IsFresh q
      → AllActive q.exchanges active
      → AllActive (step q v).exchanges active
  later-AllActive q v active fresh h k =
      All-mono (IsOffer q.exchanges) (IsOffer (step q v).exchanges) (active k) one (h k)
    where
      one : (e : String × ℕ) → IsOffer q.exchanges e → IsOffer (step q v).exchanges e
      one (u, r) (x, f, same) =
          let (y, g, later) = step-Persists q v r x fresh f in (y, g, later.same.0 ∙ same)

  added :
      (f : ℕ → Option (Exchange C A E)) (n : ℕ) (x : Exchange C A E)
      → updated f n (some x) n ≡ some x
  added f n x = go (n == n) (ground arith)
    where
      go : (b : Bool) → b ≡ true → (if b then some x else f n) ≡ some x
      go true e = refl
      go false e = absurd (cc)

  step-IsSound : (q : Queue C A E) (v : Event C A E) → IsSound q → IsSound (step q v)
  unfolding step send_offer_init send_offer_update send_offer_done send_offer_error recv_offer
      stop_sending candidate_taken response_taken answerer_done deadline_passes tick close
  step-IsSound q v sound = record {
    fresh = step-IsFresh q v sound.fresh;
    active = go v (later-AllActive q v q.active_offers sound.fresh sound.active);
  }
    where
      go :
          (v : Event C A E)
          → AllActive (step q v).exchanges q.active_offers
          → AllActive (step q v).exchanges (step q v).active_offers
      go (sends host uuid sdp trickle deadline) h =
          let f = (step q (sends host uuid sdp trickle deadline)).exchanges in
          let s = get_or_make_hosts_queue q (host ∷ []) in
          let new = new_exchange q.closed uuid sdp trickle deadline s.1 in
          let p = get_or_make_hosts_queue-AllActive f q (host ∷ []) h in
          updated-AllActive f s.0.active_offers s.1
            (Dict.put (s.0.active_offers s.1) uuid s.0.next_exchange) p
            (All-put (IsOffer f) (s.0.active_offers s.1) uuid s.0.next_exchange
              (new, added s.0.exchanges s.0.next_exchange new, refl) (p s.1))
      go (updates host uuid) h =
          get_or_make_hosts_queue-AllActive (step q (updates host uuid)).exchanges q (host ∷ []) h
      go (ends host uuid) h =
          let f = (step q (ends host uuid)).exchanges in
          let s = get_or_make_hosts_queue q (host ∷ []) in
          done_of-AllActive f s.0 uuid (find s uuid)
            (get_or_make_hosts_queue-AllActive f q (host ∷ []) h)
      go (fails host uuid e) h =
          let f = (step q (fails host uuid e)).exchanges in
          let s = get_or_make_hosts_queue q (host ∷ []) in
          error_of-AllActive f s.0 s.1 uuid e (find s uuid)
            (get_or_make_hosts_queue-AllActive f q (host ∷ []) h)
      go (listens hosts) h =
          get_or_make_hosts_queue-AllActive (step q (listens hosts)).exchanges q hosts h
      go (receives k r) h = receive-AllActive (step q (receives k r)).exchanges q k r h
      go (stops r) h = h
      go (takes_candidate r c) h = h
      go (takes_response r a) h = h
      go (answers r) h = h
      go (expires r) h = h
      go (ticks now) h =
          expire_all-AllActive q.exchanges q.exchanges now q.host_queues q.active_offers h
      go closes h = h

  -- Whatever the steps, the active offers of each queue are exchanges of the store, each under its own
  -- uuid, and no reference is in use before it is given out.
  pub run-IsSound : (q : Queue C A E) (vs : List (Event C A E)) → IsSound q → IsSound (run q vs)
  unfolding step
  run-IsSound q [] sound = sound
  run-IsSound q (v ∷ vs) sound = run-IsSound (step q v) vs (step-IsSound q v sound)
