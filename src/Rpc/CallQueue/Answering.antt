-- ===== src/Rpc/CallQueue/Answering.antt =====
-- The other side of rpc/wrtc_call_queue_memory.go: RecvOffer, the exchange as the one who answers
-- uses it, the contexts, the ticker and Close. A choice of a select that is not ready is `none`.
use goutils.Common.{
  ℕ, String, Bool, true, false, Option, none, some, List, [], ◌∷◌, ◌++◌, if◌then◌else◌, ◌==◌, ltb,
}
use goutils.Common.Dict.{Dict}
use goutils.Rpc.CallQueue.{
  DoneError, canceled, deadline_exceeded, Exchange, Queue, updated, cancel, change,
  get_or_make_hosts_queue,
}

-- what CallerErr returns
pub data CallerError (E : Type 0) : Type 0 where
  given : E → CallerError E
  of_context : DoneError → CallerError E

abbrev pub caller_error : {E : Type 0} → Option DoneError → Option E → Option (CallerError E)
caller_error none e = none
caller_error (some d) (some e) = some (given e)
caller_error (some canceled) none = none
caller_error (some deadline_exceeded) none = some (of_context deadline_exceeded)

module _ {C A E : Type 0} where
  -- RecvOffer up to its select: the queue whose channel it receives from
  unfoldable pub recv_offer : Queue C A E → List String → Queue C A E × ℕ
  unfolding get_or_make_hosts_queue
  recv_offer q hosts = get_or_make_hosts_queue q hosts

  -- whether the goroutine of this exchange waits to send it to the queue k
  abbrev pub waits_for : ℕ → Option (Exchange C A E) → Bool
  waits_for k none = false
  waits_for k (some x) = elim x.sends_to [ none ↦ false | some j ↦ j == k ]

  abbrev pub sent : Exchange C A E → Exchange C A E
  sent x = record x { sends_to = none }

  -- the exchange r goes from its goroutine to a receiver of the queue k
  unfoldable pub receive : Queue C A E → ℕ → ℕ → Option (Queue C A E)
  receive q k r = if waits_for k (q.exchanges r) then some (change q r sent) else none

  -- the goroutine of SendOfferInit stops, where a context is done
  unfoldable pub stop_sending : Queue C A E → ℕ → Queue C A E
  stop_sending q r = change q r sent

  -- the two rendezvous of the exchange: a candidate of SendOfferUpdate, and an answer of AnswererRespond
  unfoldable pub candidate_taken : Queue C A E → ℕ → C → Queue C A E
  candidate_taken q r c = change q r (λ x. record x { candidates = x.candidates ++ c ∷ [] })

  unfoldable pub response_taken : Queue C A E → ℕ → A → Queue C A E
  response_taken q r a = change q r (λ x. record x { responses = x.responses ++ a ∷ [] })

  abbrev pub finish : DoneError → Exchange C A E → Exchange C A E
  finish e x = record x { answerer_done = cancel x.answerer_done e }

  -- AnswererDone, and the cancel function that SendOfferInit returns
  unfoldable pub answerer_done : Queue C A E → ℕ → Queue C A E
  answerer_done q r = change q r (finish canceled)

  -- the deadline of sendCtx passes
  unfoldable pub deadline_passes : Queue C A E → ℕ → Queue C A E
  deadline_passes q r = change q r (finish deadline_exceeded)

  -- CallerErr
  abbrev pub caller_err : Exchange C A E → Option (CallerError E)
  caller_err x = caller_error x.caller_done x.caller_err

  -- whether the ticker at the time now drops the offer
  abbrev pub is_expired : Option (Exchange C A E) → ℕ → Bool
  is_expired none now = false
  is_expired (some x) now = ltb x.deadline now

  abbrev pub live : (ℕ → Option (Exchange C A E)) → ℕ → Dict ℕ → Dict ℕ
  live xs now [] = []
  live xs now ((uuid, r) ∷ m) =
      let rest = live xs now m in if is_expired (xs r) now then rest else (uuid, r) ∷ rest

  abbrev pub expire_all : (ℕ → Option (Exchange C A E)) → ℕ → Dict ℕ → (ℕ → Dict ℕ) → ℕ → Dict ℕ
  expire_all xs now [] active = active
  expire_all xs now ((host, k) ∷ hosts) active =
      expire_all xs now hosts (updated active k (live xs now (active k)))

  -- a tick of the goroutine that the queue starts with
  unfoldable pub tick : Queue C A E → ℕ → Queue C A E
  tick q now = record q { active_offers = expire_all q.exchanges now q.host_queues q.active_offers }

  -- Close: the contexts of all offers come from the one it cancels
  unfoldable pub close : Queue C A E → Queue C A E
  close q = record q {
    closed = true;
    exchanges = λ j. elim (q.exchanges j) [ none ↦ none | some x ↦ some (finish canceled x) ];
  }
