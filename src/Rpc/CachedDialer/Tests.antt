-- ===== src/Rpc/CachedDialer/Tests.antt =====
-- The theorems about the cached dialer, on one key.
use goutils.Common.{◌≡◌, refl, true, false, Option, none, some, List, [], ◌∷◌}
use goutils.Common.Dict.{get, put, remove}
use goutils.Common.Dict
use goutils.Utils.Ref.{ref, deref}
use goutils.Rpc.CachedDialer.{
  Wrapper, Conn, Dialer, new_dialer, ref_conn, insert, close_conn, close_actual, on_unref,
  dial_func, Dialed, given_out,
}
use goutils.Rpc.CachedDialer.Steps.{
  Event, refs, inserts, closes, closes_actual, unrefs, attempt, run,
}
use goutils.Rpc.CachedDialer.Counting.{IsCounted}
use goutils.Rpc.CachedDialer.Sharing.{run-shared}

new_dialer-IsCounted : IsCounted new_dialer
unfolding get
new_dialer-IsCounted = record {
  fresh = λ w le. refl;
  fits = λ w. refl;
  leads = λ k w e. absurd (cc);
  listed = λ w x e l. absurd (cc);
}

-- two references of which the first is closed
abbrev shared_once : List Event
shared_once = inserts "k" ∷ refs 0 ∷ closes 0 ∷ unrefs 0 ∷ []

abbrev second : Conn
second = record { wrapper = 0; closed = false }

run-shared_example :
    (x : Wrapper) × ((run new_dialer shared_once).wrappers 0 ≡ some x)
    × (x.is_open ≡ true)
    × (Dict.get (run new_dialer shared_once).conns x.key ≡ some 0)
unfolding run attempt insert ref_conn close_conn on_unref ref deref get put
run-shared_example = run-shared new_dialer shared_once 1 second new_dialer-IsCounted refl refl

-- the last reference is closed, and onUnref has not been called yet
abbrev half_closed : Dialer
half_closed = run new_dialer (inserts "k" ∷ closes 0 ∷ [])

-- the last reference is closed between the look-up and the Ref of a dial
abbrev held : Dialer
held = run new_dialer (inserts "k" ∷ [])

late_dial_panics : dial_func half_closed half_closed "k" true ≡ none
unfolding dial_func run attempt insert ref_conn close_conn on_unref ref deref get put
late_dial_panics = refl

-- and also where onUnref has been called too
overtaken_dial_panics :
    dial_func held (run held (closes 0 ∷ closes_actual 0 ∷ unrefs 0 ∷ [])) "k" true ≡ none
unfolding dial_func run attempt insert ref_conn close_conn close_actual on_unref ref deref get put
    remove
overtaken_dial_panics = refl

abbrev unreferred : Dialer
unreferred = run half_closed (closes_actual 0 ∷ unrefs 0 ∷ [])

abbrev answer_of : Option (Dialed × Dialer) → Option Dialed
answer_of none = none
answer_of (some (a, d)) = some a

-- a dial after onUnref makes a new connection
dials_again : answer_of (dial_func unreferred unreferred "k" true) ≡ some (given_out false)
unfolding dial_func run attempt insert ref_conn close_conn close_actual on_unref ref deref get put
    remove
dials_again = refl
