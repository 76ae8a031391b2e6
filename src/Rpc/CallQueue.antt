-- ===== src/Rpc/CallQueue.antt =====
-- rpc/wrtc_call_queue_memory.go: the queue of calls in memory. The caller of an offer and the one who
-- answers it share the exchange, and hosts share a queue: both are references into a store. A
-- method that holds a lock is one step, and so is each choice of a select. Time and the text of
-- a uuid are arguments; C are the candidates, A the answers and E the errors of callers.
pub mod Hosts
pub mod Answering
pub mod Steps
pub mod Fresh
pub mod Final
pub mod Delivery
pub mod Goals
pub mod Waiting
pub mod Sound
pub mod Phases
mod Tests
use goutils.Common.{
  ℕ, zero, suc, ◌+◌, ◌<◌, String, Bool, true, false, Option, none, some, List, [], ◌∷◌, ◌++◌,
  if◌then◌else◌, ◌==◌, ltb,
}
use goutils.Common.Dict.{Dict}
use goutils.Common.Dict

-- the errors of a context
pub data DoneError : Type 0 where
  canceled : DoneError
  deadline_exceeded : DoneError

pub data Error : Type 0 where
  inactive_offer : String → Error
  context : DoneError → Error

-- memoryWebRTCCallOfferExchange with its memoryWebRTCCallOfferInit. A context is the error that it
-- is done with. `sends_to` is the queue that the goroutine of SendOfferInit waits to send it to.
pub record Exchange (C A E : Type 0) : Type 0 where
  pub uuid : String
  pub sdp : String
  pub disable_trickle : Bool
  pub deadline : ℕ
  pub candidates : List C
  pub responses : List A
  pub answerer_done : Option DoneError
  pub caller_done : Option DoneError
  pub caller_err : Option E
  pub sends_to : Option ℕ

-- memoryWebRTCCallQueue, with the store of the singleWebRTCHostQueues and of the exchanges
pub record Queue (C A E : Type 0) : Type 0 where
  pub host_queues : Dict ℕ
  pub next_queue : ℕ
  pub active_offers : ℕ → Dict ℕ
  pub next_exchange : ℕ
  pub exchanges : ℕ → Option (Exchange C A E)
  pub closed : Bool

abbrev pub updated {ℓ} : {V : Type ℓ} → (ℕ → V) → ℕ → V → ℕ → V
updated f k v j = if k == j then v else f j

-- the cancel function of a context
abbrev pub cancel : Option DoneError → DoneError → Option DoneError
cancel none e = some e
cancel (some d) e = some d

-- the loop of getOrMakeHostsQueue
abbrev pub last_known : Dict ℕ → List String → Option ℕ → Option ℕ
last_known m [] shared = shared
last_known m (h ∷ hs) shared =
    last_known m hs (elim (Dict.get m h) [ none ↦ shared | some k ↦ some k ])

abbrev pub missing : Dict ℕ → List String → List String
missing m [] = []
missing m (h ∷ hs) = elim (Dict.get m h) [ none ↦ h ∷ missing m hs | some k ↦ missing m hs ]

abbrev pub put_all : Dict ℕ → List String → ℕ → Dict ℕ
put_all m [] k = m
put_all m (h ∷ hs) k = put_all (Dict.put m h k) hs k

module _ {C A E : Type 0} where
  abbrev pub with_shared : Queue C A E → List String → Option ℕ → Queue C A E × ℕ
  with_shared q hs (some k) = (record q { host_queues = put_all q.host_queues hs k }, k)
  with_shared q hs none = (
    record q {
      host_queues = put_all q.host_queues hs q.next_queue;
      next_queue = suc q.next_queue;
      active_offers = updated q.active_offers q.next_queue [];
    },
    q.next_queue,
  )

  -- getOrMakeHostsQueue
  unfoldable pub get_or_make_hosts_queue : Queue C A E → List String → Queue C A E × ℕ
  get_or_make_hosts_queue q hosts =
      with_shared q (missing q.host_queues hosts) (last_known q.host_queues hosts none)

  -- a change of the exchange with this reference
  abbrev pub change : Queue C A E → ℕ → (Exchange C A E → Exchange C A E) → Queue C A E
  change q r f = record q {
    exchanges = λ j.
        if r == j
        then elim (q.exchanges j) [ none ↦ none | some x ↦ some (f x) ]
        else q.exchanges j;
  }

  abbrev pub new_exchange : Bool → String → String → Bool → ℕ → ℕ → Exchange C A E
  new_exchange closed uuid sdp disable_trickle deadline k = record {
    uuid = uuid;
    sdp = sdp;
    disable_trickle = disable_trickle;
    deadline = deadline;
    candidates = [];
    responses = [];
    answerer_done = if closed then some canceled else none;
    caller_done = none;
    caller_err = none;
    sends_to = some k;
  }

  abbrev pub add_offer : Queue C A E × ℕ → Exchange C A E → Queue C A E
  add_offer (q, k) x = record q {
    next_exchange = suc q.next_exchange;
    exchanges = updated q.exchanges q.next_exchange (some x);
    active_offers = updated q.active_offers k (Dict.put (q.active_offers k) x.uuid q.next_exchange);
  }

  -- SendOfferInit; the new exchange has the reference next_exchange
  unfoldable pub send_offer_init : Queue C A E → String → String → String → Bool → ℕ → Queue C A E
  unfolding get_or_make_hosts_queue
  send_offer_init q host uuid sdp disable_trickle deadline =
      let (p, k) = get_or_make_hosts_queue q (host ∷ []) in
      add_offer (p, k) (new_exchange q.closed uuid sdp disable_trickle deadline k)

  -- activeOffers[uuid] of the host's queue
  abbrev pub find : Queue C A E × ℕ → String → Option ℕ
  find (q, k) uuid = Dict.get (q.active_offers k) uuid

  -- SendOfferUpdate up to its select: the exchange whose answerer it offers the candidate to
  unfoldable pub send_offer_update : Queue C A E → String → String → Queue C A E × Option ℕ
  unfolding get_or_make_hosts_queue
  send_offer_update q host uuid =
      let (p, k) = get_or_make_hosts_queue q (host ∷ []) in (p, find (p, k) uuid)

  abbrev pub done_of : Queue C A E → String → Option ℕ → Queue C A E × Option Error
  done_of q uuid none = (q, some (inactive_offer uuid))
  done_of q uuid (some r) =
      (change q r (λ x. record x { caller_done = cancel x.caller_done canceled }), none)

  -- SendOfferDone
  unfoldable pub send_offer_done : Queue C A E → String → String → Queue C A E × Option Error
  unfolding get_or_make_hosts_queue
  send_offer_done q host uuid =
      let (p, k) = get_or_make_hosts_queue q (host ∷ []) in done_of p uuid (find (p, k) uuid)

  -- whether callerDoneCtx.Err() of the exchange is not nil
  abbrev pub is_caller_done : Option (Exchange C A E) → Bool
  is_caller_done none = false
  is_caller_done (some x) = elim x.caller_done [ none ↦ false | some d ↦ true ]

  abbrev pub error_of : Queue C A E × ℕ → String → Option E → Option ℕ → Queue C A E × Option Error
  error_of (q, k) uuid e none = (q, some (inactive_offer uuid))
  error_of (q, k) uuid e (some r) = if is_caller_done (q.exchanges r) then (q, none) else (
    record (change q r
        (λ x. record x { caller_err = e; caller_done = cancel x.caller_done canceled })) {
          active_offers = updated q.active_offers k (Dict.remove (q.active_offers k) uuid);
        },
    none,
  )

  -- SendOfferError
  unfoldable pub send_offer_error :
      Queue C A E → String → String → Option E → Queue C A E × Option Error
  unfolding get_or_make_hosts_queue
  send_offer_error q host uuid e =
      let (p, k) = get_or_make_hosts_queue q (host ∷ []) in
      error_of (p, k) uuid e (find (p, k) uuid)
