-- ===== src/Rpc/CallQueue/Tests.antt =====
-- The theorems about the queue of calls, on a queue that starts empty, with numbers for candidates,
-- answers and errors.
use goutils.Common.{
  ℕ, suc, ◌≤◌, String, ◌≡◌, refl, Bool, true, false, Option, none, some, List, [], ◌∷◌, ◌++◌,
}
use goutils.Rpc.CallQueue.{
  canceled, deadline_exceeded, context, Exchange, Queue, change, send_offer_init, send_offer_update,
  send_offer_done, send_offer_error,
}
use goutils.Rpc.CallQueue.Answering.{recv_offer, receive, sent, given, caller_err}
use goutils.Rpc.CallQueue.Steps.{
  Event, sends, updates, ends, fails, listens, receives, ticks, closes, step, run,
}
use goutils.Rpc.CallQueue.Final.{Later, run-Later}
use goutils.Rpc.CallQueue.Delivery.{deliveries}
use goutils.Rpc.CallQueue.Waiting.{send_offer_init-receive}
use goutils.Rpc.CallQueue.Sound.{IsSound, run-IsSound}
use goutils.Rpc.CallQueue.Phases.{update, fail, next_phase, answer, phase, call, call-next_phase}

abbrev Numbers : Type 0
Numbers = Queue ℕ ℕ ℕ

abbrev empty_queue : Numbers
empty_queue = record {
  host_queues = [];
  next_queue = 0;
  active_offers = λ k. [];
  next_exchange = 0;
  exchanges = λ r. none;
  closed = false;
}

empty_queue-IsSound : IsSound empty_queue
empty_queue-IsSound = record { fresh = λ r le. refl; active = λ k. tt }

abbrev one_call : List (Event ℕ ℕ ℕ)
one_call =
    sends "host" "uuid-1" "offer" false 10
    ∷ listens ("host" ∷ [])
    ∷ receives 0 0
    ∷ receives 0 0
    ∷ ends "host" "uuid-1"
    ∷ []

-- the state after the call, where the caller is done
abbrev called : Numbers
called = run empty_queue one_call

called-IsSound : IsSound called
called-IsSound = run-IsSound empty_queue one_call empty_queue-IsSound

run-IsSound_example : IsSound (run empty_queue one_call)
run-IsSound_example = run-IsSound empty_queue one_call empty_queue-IsSound

delivered_once : deliveries empty_queue 0 one_call ≡ 1
unfolding deliveries step send_offer_init recv_offer receive send_offer_done goutils.Common.Dict.get
    goutils.Common.Dict.put goutils.Rpc.CallQueue.get_or_make_hosts_queue
delivered_once = refl

abbrev one_exchange : Exchange ℕ ℕ ℕ
one_exchange = record {
  uuid = "uuid-1";
  sdp = "offer";
  disable_trickle = false;
  deadline = 10;
  candidates = [];
  responses = [];
  answerer_done = none;
  caller_done = some canceled;
  caller_err = none;
  sends_to = none;
}

one_done : called.exchanges 0 ≡ some one_exchange
unfolding step send_offer_init recv_offer receive send_offer_done goutils.Common.Dict.get
    goutils.Common.Dict.put goutils.Rpc.CallQueue.get_or_make_hosts_queue
one_done = refl

run-Later_example :
    (y : Exchange ℕ ℕ ℕ) × ((run called (fails "host" "uuid-1" (some 7) ∷ closes ∷ [])).exchanges 0
      ≡ some y)
    × Later one_exchange y
run-Later_example =
    run-Later called (fails "host" "uuid-1" (some 7) ∷ closes ∷ []) 0 one_exchange
      called-IsSound.fresh one_done

send_offer_init-receive_example :
    let p =
      run
        (send_offer_init empty_queue "host" "uuid-1" "offer" true 10)
        (updates "host" "uuid-1" ∷ ticks 4 ∷ []) in
    let l = recv_offer p (("other" ∷ []) ++ "host" ∷ []) in
    receive l.0 l.1 0 ≡ some (change l.0 0 sent)
send_offer_init-receive_example =
    send_offer_init-receive empty_queue "host" "uuid-1" "offer" true 10
      (updates "host" "uuid-1" ∷ ticks 4 ∷ []) ("other" ∷ []) (λ r le. refl) refl

call-next_phase_example :
    (phase (call called "host" "uuid-1" (fail (some 7))).0 "host" "uuid-1"
      ≡ next_phase {E = ℕ} (fail (some 7)) (phase called "host" "uuid-1"))
    × ((call called "host" "uuid-1" (fail (some 7))).1
        ≡ answer {E = ℕ} (fail (some 7)) "uuid-1" (phase called "host" "uuid-1"))
call-next_phase_example = call-next_phase called "host" "uuid-1" (fail (some 7)) called-IsSound

-- an update that runs out of time before the candidate is taken
update_times_out :
    (call {E = ℕ} called "host" "uuid-1" (update (some deadline_exceeded))).1
    ≡ some (context deadline_exceeded)
unfolding call send_offer_update step send_offer_init recv_offer receive send_offer_done
    goutils.Common.Dict.get goutils.Common.Dict.put goutils.Rpc.CallQueue.get_or_make_hosts_queue
update_times_out = refl

-- an error that the caller gives before it is done
abbrev failed : Numbers
failed =
    run empty_queue (sends "host" "uuid-1" "offer" false 10 ∷ fails "host" "uuid-1" (some 7) ∷ [])

abbrev error_at : Numbers → ℕ → Option ℕ
error_at q r = elim (q.exchanges r) [
  | none ↦ none
  | some x ↦ elim (caller_err x) [ none ↦ none | some (given e) ↦ some e | some y ↦ none ]
]

failed_error : error_at failed 0 ≡ some 7
unfolding step send_offer_init send_offer_error goutils.Common.Dict.get goutils.Common.Dict.put
    goutils.Rpc.CallQueue.get_or_make_hosts_queue
failed_error = refl
