-- ===== src/Rpc/CallQueue/Steps.antt =====
-- The steps of a queue of calls in memory, in any order.
use goutils.Common.{ℕ, String, Bool, Option, none, some, List, [], ◌∷◌}
use goutils.Rpc.CallQueue.{
  Queue, send_offer_init, send_offer_update, send_offer_done, send_offer_error,
}
use goutils.Rpc.CallQueue.Answering.{
  recv_offer, receive, stop_sending, candidate_taken, response_taken, answerer_done,
  deadline_passes, tick, close,
}

-- a host, a queue or an exchange, and the arguments of the call
pub data Event (C A E : Type 0) : Type 0 where
  sends : String → String → String → Bool → ℕ → Event C A E
  updates : String → String → Event C A E
  ends : String → String → Event C A E
  fails : String → String → Option E → Event C A E
  listens : List String → Event C A E
  receives : ℕ → ℕ → Event C A E
  stops : ℕ → Event C A E
  takes_candidate : ℕ → C → Event C A E
  takes_response : ℕ → A → Event C A E
  answers : ℕ → Event C A E
  expires : ℕ → Event C A E
  ticks : ℕ → Event C A E
  closes : Event C A E

module _ {C A E : Type 0} where
  abbrev pub if_ready : Queue C A E → Option (Queue C A E) → Queue C A E
  if_ready q none = q
  if_ready q (some next) = next

  unfoldable pub step : Queue C A E → Event C A E → Queue C A E
  unfolding send_offer_init send_offer_update send_offer_done send_offer_error recv_offer receive
      stop_sending candidate_taken response_taken answerer_done deadline_passes tick close
  step q (sends host uuid sdp disable_trickle deadline) =
      send_offer_init q host uuid sdp disable_trickle deadline
  step q (updates host uuid) = (send_offer_update q host uuid).0
  step q (ends host uuid) = (send_offer_done q host uuid).0
  step q (fails host uuid e) = (send_offer_error q host uuid e).0
  step q (listens hosts) = (recv_offer q hosts).0
  step q (receives k r) = if_ready q (receive q k r)
  step q (stops r) = stop_sending q r
  step q (takes_candidate r c) = candidate_taken q r c
  step q (takes_response r a) = response_taken q r a
  step q (answers r) = answerer_done q r
  step q (expires r) = deadline_passes q r
  step q (ticks now) = tick q now
  step q closes = close q

  abbrev pub run : Queue C A E → List (Event C A E) → Queue C A E
  run q [] = q
  run q (v ∷ vs) = run (step q v) vs
