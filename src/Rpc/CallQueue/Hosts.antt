-- ===== src/Rpc/CallQueue/Hosts.antt =====
-- Which queue a host has: getOrMakeHostsQueue of rpc/wrtc_call_queue_memory.go.
use goutils.Common.{
  ℕ, String, ◌≡◌, ◌≢◌, refl, sym, ap, ◌∙◌, Bool, true, false, ◌&&◌, ◌||◌, Option, none, some, List,
  [], ◌∷◌, ◌++◌, if◌then◌else◌, is_in, str_eq, eq_iff, arith,
}
use goutils.Common.Dict.{Dict, get-put}
use goutils.Common.Dict
use goutils.Rpc.CallQueue.{
  Exchange, Queue, last_known, missing, put_all, with_shared, get_or_make_hosts_queue,
}
use goutils.Rpc.CallQueue.Answering.{recv_offer, waits_for, receive}

abbrev is_none : Option ℕ → Bool
is_none none = true
is_none (some k) = false

get-put_all :
    (m : Dict ℕ) (hs : List String) (k : ℕ) (h : String)
    → Dict.get (put_all m hs k) h ≡ (if is_in hs h then some k else Dict.get m h)
get-put_all m [] k h = refl
get-put_all m (x ∷ hs) k h =
    ground (arith, get-put_all (Dict.put m x k) hs k h, get-put m x h k, eq_iff x h)

missing-is_in :
    (m : Dict ℕ) (hs : List String) (h : String)
    → is_in (missing m hs) h ≡ (is_in hs h && is_none (Dict.get m h))
missing-is_in m [] h = refl
missing-is_in m (x ∷ hs) h = go (Dict.get m x) refl (str_eq x h) refl (missing-is_in m hs h)
  where
    same : str_eq x h ≡ true → Dict.get m h ≡ Dict.get m x
    same p = ap (Dict.get m) (ground (arith, eq_iff x h))

    go :
        (o : Option ℕ)
        → Dict.get m x ≡ o
        → (b : Bool) → str_eq x h ≡ b
        → is_in (missing m hs) h ≡ (is_in hs h && is_none (Dict.get m h))
        → is_in (elim o [ none ↦ x ∷ missing m hs | some k ↦ missing m hs ]) h
          ≡ ((str_eq x h || is_in hs h) && is_none (Dict.get m h))
    go none e true p ih = let s = same p ∙ e in ground arith
    go none e false p ih = ground arith
    go (some k) e true p ih = let s = same p ∙ e in ground arith
    go (some k) e false p ih = ground arith

last_known-append :
    (m : Dict ℕ) (hs : List String) (h : String) (k : ℕ) (o : Option ℕ)
    → Dict.get m h ≡ some k
    → last_known m (hs ++ h ∷ []) o ≡ some k
last_known-append m [] h k o e = ap (λ r. elim r [ none ↦ o | some j ↦ some j ]) e
last_known-append m (x ∷ hs) h k o e =
    last_known-append m hs h k (elim (Dict.get m x) [ none ↦ o | some j ↦ some j ]) e

module _ {C A E : Type 0} where
  -- A host that has a queue keeps it. The hosts of the call that have none get the queue that the call
  -- answers, and the others still have none.
  pub get_or_make_hosts_queue-get :
      (q : Queue C A E) (hosts : List String) (host : String)
      → Dict.get (get_or_make_hosts_queue q hosts).0.host_queues host
        ≡ elim (Dict.get q.host_queues host) [
          | some k ↦ some k
          | none ↦ if is_in hosts host then some (get_or_make_hosts_queue q hosts).1 else none
        ]
  unfolding get_or_make_hosts_queue
  get_or_make_hosts_queue-get q hosts host = go (last_known q.host_queues hosts none)
    where
      known :
          (k : ℕ)
          → Dict.get (put_all q.host_queues (missing q.host_queues hosts) k) host
            ≡ elim (Dict.get q.host_queues host) [
              | some j ↦ some j
              | none ↦ if is_in hosts host then some k else none
            ]
      known k = ground (
        arith,
        get-put_all q.host_queues (missing q.host_queues hosts) k host,
        missing-is_in q.host_queues hosts host,
      )

      go :
          (o : Option ℕ)
          → Dict.get (with_shared q (missing q.host_queues hosts) o).0.host_queues host
            ≡ elim (Dict.get q.host_queues host) [
              | some j ↦ some j
              | none ↦
                  if is_in hosts host
                  then some (with_shared q (missing q.host_queues hosts) o).1
                  else none
            ]
      go none = known q.next_queue
      go (some k) = known k

  pub recv_offer-last :
      (q : Queue C A E) (hosts : List String) (host : String) (k : ℕ)
      → Dict.get q.host_queues host ≡ some k
      → (recv_offer q (hosts ++ host ∷ [])).1 ≡ k
  unfolding recv_offer get_or_make_hosts_queue
  recv_offer-last q hosts host k e =
      ap (λ o. (with_shared q (missing q.host_queues (hosts ++ host ∷ [])) o).1)
        (last_known-append q.host_queues hosts host k none e)

  -- A receiver for several hosts, the last of which has a queue, listens to this queue alone: it does
  -- not get an offer that waits for another queue, also where that is the queue of one of its hosts.
  pub recv_offer-receive :
      (q : Queue C A E) (hosts : List String) (host : String) (k j r : ℕ) (x : Exchange C A E)
      → Dict.get q.host_queues host ≡ some k
      → q.exchanges r ≡ some x
      → x.sends_to ≡ some j
      → j ≢ k
      → ((recv_offer q (hosts ++ host ∷ [])).1 ≡ k) × (receive q k r ≡ none)
  unfolding receive
  recv_offer-receive q hosts host k j r x e f g ne =
      let quiet : waits_for k (q.exchanges r) ≡ false = ap (waits_for k) f ∙ ground (arith) in
      (recv_offer-last q hosts host k e, rw quiet)

  -- the host of the call has the queue that the call answers
  pub get_or_make_hosts_queue-own :
      (q : Queue C A E) (host : String)
      → Dict.get (get_or_make_hosts_queue q (host ∷ [])).0.host_queues host
        ≡ some (get_or_make_hosts_queue q (host ∷ [])).1
  unfolding recv_offer
  get_or_make_hosts_queue-own q host =
      get_or_make_hosts_queue-get q (host ∷ []) host ∙ own (Dict.get q.host_queues host) refl
    where
      own :
          (o : Option ℕ)
          → Dict.get q.host_queues host ≡ o
          → (elim o [
            | some j ↦ some j
            | none ↦
                if is_in (host ∷ []) host
                then some (get_or_make_hosts_queue q (host ∷ [])).1
                else none
          ])
            ≡ some (get_or_make_hosts_queue q (host ∷ [])).1
      own (some j) e = ap some (sym (recv_offer-last q [] host j e))
      own none e = ground (arith, eq_iff host host)
