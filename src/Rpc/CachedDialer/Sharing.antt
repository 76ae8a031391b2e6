-- ===== src/Rpc/CachedDialer/Sharing.antt =====
-- What the users of a cached dialer can rely on, and when it panics.
use goutils.Common.{
  ℕ, ◌≤◌, String, ◌≡◌, refl, ap, subst, Bool, true, false, not, ◌||◌, Option, none, some, List,
  arith,
}
use goutils.Common.Dict.{Dict}
use goutils.Common.Dict
use goutils.Utils.Ref.{Count, counted, released}
use goutils.Rpc.CachedDialer.{Wrapper, Conn, Dialer, conn_at, is_pending}
use goutils.Rpc.CachedDialer.Steps.{Event, run}
use goutils.Rpc.CachedDialer.Counting.{live, live-pos, FitsCount, Fits, is_counted, IsCounted}
use goutils.Rpc.CachedDialer.Runs.{run-IsCounted}

-- a reference that is not closed, of a wrapper
shared :
    (d : Dialer) (w : ℕ) (o : Option Wrapper)
    → IsCounted d
    → d.wrappers w ≡ o
    → 1 ≤ live w d.given
    → (x : Wrapper) × (d.wrappers w ≡ some x)
      × (x.is_open ≡ true)
      × (Dict.get d.conns x.key ≡ some w)
shared d w none c e pos =
    absurd (let fit = subst (λ o. Fits o (live w d.given)) e (c.fits w) in omega (arith, fit, pos))
shared d w (some x) c e pos = go x.count refl (subst (λ o. Fits o (live w d.given)) e (c.fits w))
  where
    go :
        (k : Count)
        → x.count ≡ k
        → FitsCount x.count x.is_open x.pending (live w d.given)
        → (x : Wrapper) × (d.wrappers w ≡ some x)
          × (x.is_open ≡ true)
          × (Dict.get d.conns x.key ≡ some w)
    go (counted m) f fit =
        let (a, b, p) = subst (λ k. FitsCount k x.is_open x.pending (live w d.given)) f fit in
        (x, e, b, c.listed w x e (ap (λ k. is_counted k || x.pending) f))
    go released f fit = absurd (
        let none_live = subst (λ k. FitsCount k x.is_open x.pending (live w d.given)) f fit in
        omega (arith, none_live, pos))

-- However the steps of the callers interleave, a reference that its holder has not closed is one of a
-- connection that is open, the one that the dialer has for its key: so all such references for one
-- key share a connection. The dialer itself has not been closed.
pub run-shared :
    (d : Dialer) (vs : List Event) (i : ℕ) (c : Conn)
    → IsCounted d
    → conn_at i (run d vs).given ≡ some c
    → c.closed ≡ false
    → (x : Wrapper) × ((run d vs).wrappers c.wrapper ≡ some x)
      × (x.is_open ≡ true)
      × (Dict.get (run d vs).conns x.key ≡ some c.wrapper)
run-shared d vs i c fair at open_ =
    let e = run d vs in
    shared e c.wrapper (e.wrappers c.wrapper) (run-IsCounted d vs fair) refl
      (live-pos c.wrapper i e.given c at open_ refl)

-- whether the last reference for the key is closed and its entry is still there
abbrev closing_at : Dialer → Option ℕ → Bool
closing_at d none = false
closing_at d (some w) = is_pending (d.wrappers w)

abbrev pub is_closing : Dialer → String → Bool
is_closing d key = closing_at d (Dict.get d.conns key)

-- whether the last reference to a wrapper has been closed
abbrev pub is_given_up : Option Wrapper → Bool
is_given_up none = true
is_given_up (some x) = not (is_counted x.count)

-- whether that holds of the connection that DialFunc is to refer to, by what its look-up has found
abbrev pub finds_given_up : Dialer → String → Bool → Option ℕ → Bool
finds_given_up e key can_dial (some w) = is_given_up (e.wrappers w)
finds_given_up e key true none = is_closing e key
finds_given_up e key false none = false
