-- ===== src/Rpc/CachedDialer/Steps.antt =====
-- The steps of the callers of a cached dialer, in any order. A step that panics or whose turn has not
-- come changes nothing: the locks are released on the way.
use goutils.Common.{ℕ, String, Option, none, some, List, [], ◌∷◌}
use goutils.Rpc.CachedDialer.{Dialer, ref_conn, insert, close_conn, close_actual, on_unref}

pub data Event : Type 0 where
  refs : ℕ → Event
  inserts : String → Event
  closes : ℕ → Event
  closes_actual : ℕ → Event
  unrefs : ℕ → Event

abbrev pub if_possible : Dialer → Option Dialer → Dialer
if_possible d none = d
if_possible d (some next) = next

unfoldable pub attempt : Dialer → Event → Option Dialer
unfolding ref_conn insert close_conn close_actual on_unref
attempt d (refs w) = ref_conn d w
attempt d (inserts key) = insert d key
attempt d (closes i) = close_conn d i
attempt d (closes_actual w) = close_actual d w
attempt d (unrefs w) = on_unref d w

unfoldable pub run : Dialer → List Event → Dialer
unfolding attempt
run d [] = d
run d (v ∷ vs) = run (if_possible d (attempt d v)) vs
