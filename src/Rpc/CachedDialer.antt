-- ===== src/Rpc/CachedDialer.antt =====
-- cachedDialer of rpc/dialer.go with refCountedConnWrapper and reffedConn, over the counts of ref.go.
-- Each stretch that holds a lock is one step, and so is each close of a connection, so the steps of
-- several callers interleave. Wrappers are references into a store; a caller's reffedConn is its
-- place in the list of those given out. A panic is `none`. Dialing itself is input and output:
-- what is modelled is where its connection goes. What a close of a connection answers is left out.
pub mod Steps
pub mod Counting
pub mod Inserting
pub mod Closing
pub mod Runs
pub mod Sharing
mod Tests
use goutils.Common.{
  ℕ, zero, suc, String, Bool, true, false, Option, none, some, List, [], ◌∷◌, ◌++◌, ◌&&◌, not,
  if◌then◌else◌, ◌==◌, str_eq,
}
use goutils.Common.Dict.{Dict}
use goutils.Common.Dict
use goutils.Utils.Ref.{Count, new_count, counted, released, ref, deref}

-- refCountedConnWrapper: `is_open` is whether `actual` is not closed, and `pending` whether the last
-- Close of a reference has still to call onUnref
pub record Wrapper : Type 0 where
  pub key : String
  pub count : Count
  pub is_open : Bool
  pub pending : Bool

-- reffedConn, with its wrapper and whether derefOnce has run
pub record Conn : Type 0 where
  pub wrapper : ℕ
  pub closed : Bool

pub record Dialer : Type 0 where
  pub conns : Dict ℕ
  pub next : ℕ
  pub wrappers : ℕ → Option Wrapper
  pub given : List Conn

abbrev pub change : Dialer → ℕ → (Wrapper → Wrapper) → Dialer
change d w f = record d {
  wrappers = λ j.
      if w == j then elim (d.wrappers j) [ none ↦ none | some x ↦ some (f x) ] else d.wrappers j;
}

abbrev pub give : Dialer → ℕ → Option Count → Option Dialer
give d w none = none
give d w (some c) = some (record (change d w (λ x. record x { count = c })) {
  given = d.given ++ record { wrapper = w; closed = false } ∷ [];
})

abbrev pub ref_of : Dialer → ℕ → Option Wrapper → Option Dialer
ref_of d w none = none
ref_of d w (some x) = give d w (ref x.count)

-- refCountedConnWrapper.Ref
unfoldable pub ref_conn : Dialer → ℕ → Option Dialer
unfolding ref
ref_conn d w = ref_of d w (d.wrappers w)

-- newRefCountedConnWrapper
abbrev pub new_wrapper : String → Wrapper
new_wrapper key = record { key = key; count = new_count; is_open = true; pending = false }

abbrev pub insert_at : Dialer → String → Option ℕ → Option Dialer
insert_at d key (some w) = ref_conn d w
insert_at d key none =
    ref_conn
      (record d {
        conns = Dict.put d.conns key d.next;
        next = suc d.next;
        wrappers = λ j. if d.next == j then some (new_wrapper key) else d.wrappers j;
      })
      d.next

-- the second stretch of DialFunc under the lock; the connection that was dialed is closed at once
-- where another one is there
unfoldable pub insert : Dialer → String → Option Dialer
unfolding ref_conn
insert d key = insert_at d key (Dict.get d.conns key)

-- the first one: the connection that is there
abbrev pub look_up : Dialer → String → Option ℕ
look_up d key = Dict.get d.conns key

abbrev pub mark : ℕ → List Conn → List Conn
mark i [] = []
mark zero (c ∷ cs) = record c { closed = true } ∷ cs
mark (suc i) (c ∷ cs) = c ∷ mark i cs

abbrev pub conn_at : ℕ → List Conn → Option Conn
conn_at i [] = none
conn_at zero (c ∷ cs) = some c
conn_at (suc i) (c ∷ cs) = conn_at i cs

abbrev pub deref_with : Dialer → ℕ → ℕ → Option (Bool × Count) → Option Dialer
deref_with d i w none = none
deref_with d i w (some (last, c)) =
    some
      (record (change d w (λ x. record x { count = c; pending = last })) { given = mark i d.given })

abbrev pub deref_of : Dialer → ℕ → ℕ → Option Wrapper → Option Dialer
deref_of d i w none = none
deref_of d i w (some x) = deref_with d i w (deref x.count)

abbrev pub deref_at : Dialer → ℕ → Option Conn → Option Dialer
deref_at d i none = none
deref_at d i (some c) = if c.closed then some d else deref_of d i c.wrapper (d.wrappers c.wrapper)

-- reffedConn.Close up to its deref; after its first call it does nothing
unfoldable pub close_conn : Dialer → ℕ → Option Dialer
unfolding deref
close_conn d i = deref_at d i (conn_at i d.given)

-- whether the last Close of a reference to the wrapper goes on
abbrev pub is_pending : Option Wrapper → Bool
is_pending none = false
is_pending (some x) = x.pending

-- it closes the connection
unfoldable pub close_actual : Dialer → ℕ → Option Dialer
close_actual d w =
    if is_pending (d.wrappers w)
    then some (change d w (λ x. record x { is_open = false }))
    else none

abbrev pub unref_of : Dialer → ℕ → Option Wrapper → Option Dialer
unref_of d w none = none
unref_of d w (some x) =
    if x.pending && not x.is_open
    then some (record (change d w (λ y. record y { pending = false })) {
      conns = Dict.remove d.conns x.key;
    })
    else none

-- and then calls onUnref
unfoldable pub on_unref : Dialer → ℕ → Option Dialer
on_unref d w = unref_of d w (d.wrappers w)

abbrev pub new_dialer : Dialer
new_dialer = record { conns = []; next = 0; wrappers = λ j. none; given = [] }

-- What DialFunc answers: the error of dialNew, or a reference, with whether it is cached.
pub data Dialed : Type 0 where
  failed : Dialed
  given_out : Bool → Dialed

abbrev pub dialed : Dialed → Option Dialer → Option (Dialed × Dialer)
dialed a none = none
dialed a (some d) = some (a, d)

abbrev pub dial_at : Dialer → String → Bool → Option ℕ → Option (Dialed × Dialer)
dial_at d key can_dial (some w) = dialed (given_out true) (ref_conn d w)
dial_at d key true none = dialed (given_out false) (insert d key)
dial_at d key false none = some (failed, d)

-- DialFunc, from the dialer at its look-up and the one at its next step, since the lock is let go
-- between them; `can_dial` is whether dialNew answers a connection
unfoldable pub dial_func : Dialer → Dialer → String → Bool → Option (Dialed × Dialer)
unfolding ref_conn insert
dial_func d e key can_dial = dial_at e key can_dial (look_up d key)
