-- ===== src/Rpc/ServerStream/Tickets.antt =====
-- The server's tickets and workers over the requests of all its streams.
use goutils.Common.{
  ℕ, suc, ◌+◌, ◌≤◌, String, ◌≡◌, refl, ap, subst, Bool, true, false, not, ◌&&◌, ◌||◌, List, [], ◌∷◌,
  if◌then◌else◌, ◌==◌, leb, arith,
}
use goutils.Rpc.ServerStream.{
  Server, ServerStream, is_handled, process_headers, handler_returns, stop, can_finish_stop,
}

-- A stream's first request with its method, a handler that returns, and Stop.
pub data Event : Type 0 where
  comes : String → ServerStream → Event
  returns stops : Event

unfoldable pub step : Event → Server → Server
step (comes method s) srv = (process_headers method (srv, s)).0
step returns srv = if srv.running == 0 then srv else handler_returns srv
step stops srv = stop srv

unfoldable pub run : List Event → Server → Server
unfolding step
run [] srv = srv
run (x ∷ xs) srv = run xs (step x srv)

-- whether a request is answered with "too many in-flight requests"
abbrev pub is_rejected : Server → Event → Bool
is_rejected srv (comes method s) =
    (is_handled srv.handlers method || srv.has_unknown_handler)
    && (not srv.cancelled && leb srv.capacity srv.tickets)
is_rejected srv returns = false
is_rejected srv stops = false

-- how many are, in all
abbrev pub rejected : List Event → Server → ℕ
rejected [] srv = 0
rejected (x ∷ xs) srv =
    let rest = rejected xs (step x srv) in if is_rejected srv x then suc rest else rest

-- The handlers that run hold the tickets; k workers more are counted.
pub record IsCounted (k : ℕ) (srv : Server) : Type 0 where
  pub held : srv.tickets ≡ srv.running
  pub within : srv.running ≤ srv.capacity
  pub counted : srv.workers ≡ srv.running + k

step-IsCounted :
    (k : ℕ) (x : Event) (srv : Server)
    → IsCounted k srv
    → IsCounted (if is_rejected srv x then suc k else k) (step x srv)
unfolding step process_headers handler_returns stop
step-IsCounted k (comes method s) srv v = record {
  held = ground (arith, v.held, v.within, v.counted);
  within = ground (arith, v.held, v.within, v.counted);
  counted = ground (arith, v.held, v.within, v.counted);
}
step-IsCounted k returns srv v = record {
  held = ground (arith, v.held, v.within, v.counted);
  within = ground (arith, v.held, v.within, v.counted);
  counted = ground (arith, v.held, v.within, v.counted);
}
step-IsCounted k stops srv v = record { held = v.held; within = v.within; counted = v.counted }

-- After any events, the handlers that run hold exactly the tickets that are taken and are at most as
-- many as the capacity, and processHeadersWorkers counts them and every request that was rejected
-- because no ticket was left.
pub run-IsCounted :
    (xs : List Event) (k : ℕ) (srv : Server)
    → IsCounted k srv
    → IsCounted (k + rejected xs srv) (run xs srv)
unfolding run
run-IsCounted [] k srv v = subst (λ n. IsCounted n srv) (omega arith) v
run-IsCounted (x ∷ xs) k srv v =
    subst (λ n. IsCounted n (run xs (step x srv))) (go (is_rejected srv x))
      (run-IsCounted xs (if is_rejected srv x then suc k else k) (step x srv)
        (step-IsCounted k x srv v))
  where
    go :
        (b : Bool)
        → (if b then suc k else k) + rejected xs (step x srv)
          ≡ k + (if b then suc (rejected xs (step x srv)) else rejected xs (step x srv))
    go true = omega arith
    go false = refl

-- Once every handler has returned, Stop can finish just where no request has ever been rejected:
-- after one rejection it waits for good.
pub stop-can_finish_stop :
    (xs : List Event) (srv : Server)
    → IsCounted 0 srv
    → (run xs srv).running ≡ 0
    → can_finish_stop (stop (run xs srv)) ≡ (rejected xs srv == 0)
unfolding stop can_finish_stop
stop-can_finish_stop xs srv v h =
    let w = run-IsCounted xs 0 srv v in let e = w.counted in ap (λ n. n == 0) (omega (arith, e, h))
