-- ===== src/Rpc/CachedDialer/Closing.antt =====
-- Close of a reference keeps the counts of a cached dialer, in each of its steps.
use goutils.Common.{
  ℕ, zero, suc, ◌≤◌, String, ◌≡◌, ◌≢◌, refl, sym, ap, ◌∙◌, subst, Bool, true, false, ◌&&◌, ◌||◌,
  not, Option, none, some, if◌then◌else◌, ◌==◌, str_eq, eq_iff, arith,
}
use goutils.Common.Dict.{Dict, get-put, get-remove}
use goutils.Common.Dict
use goutils.Utils.Ref.{Count, counted, released, deref}
use goutils.Rpc.CachedDialer.{
  Wrapper, Conn, Dialer, change, mark, conn_at, deref_with, deref_of, deref_at, close_conn,
  is_pending, close_actual, unref_of, on_unref,
}
use goutils.Rpc.CachedDialer.Steps.{if_possible}
use goutils.Rpc.CachedDialer.Counting.{
  live, FitsCount, Fits, is_counted, is_listed, Leads, IsCounted, live-mark, mapped,
  changed-IsCounted,
}

deref_of-IsCounted :
    (d : Dialer) (i w : ℕ) (conn : Conn) (o : Option Wrapper)
    → IsCounted d
    → conn_at i d.given ≡ some conn
    → conn.closed ≡ false
    → conn.wrapper ≡ w
    → d.wrappers w ≡ o
    → IsCounted (if_possible d (deref_of d i w o))
unfolding deref
deref_of-IsCounted d i w conn none c at open_ same h = c
deref_of-IsCounted d i w conn (some x) c at open_ same h = go x.count refl
  where
    fit : (k : Count) → x.count ≡ k → FitsCount k x.is_open x.pending (live w d.given)
    fit k e =
        subst (λ k. FitsCount k x.is_open x.pending (live w d.given)) e
          (subst (λ o. Fits o (live w d.given)) h (c.fits w))

    others : (j : ℕ) → w ≢ j → live j (mark i d.given) ≡ live j d.given
    others j ne = ground (arith, live-mark j i d.given conn at open_)

    fewer : suc (live w (mark i d.given)) ≡ live w d.given
    fewer = ground (arith, live-mark w i d.given conn at open_)

    go : (k : Count) → x.count ≡ k → IsCounted (if_possible d (deref_with d i w (deref k)))
    go released e = c
    go (counted zero) e = c
    go (counted (suc zero)) e =
        let (a, b, p) = fit (counted (suc zero)) e in
        changed-IsCounted d w (λ y. record y { count = released; pending = true }) x
          (mark i d.given) c h refl (ground arith) (omega (arith, fewer, a)) others
    go (counted (suc (suc n))) e =
        let (a, b, p) = fit (counted (suc (suc n))) e in
        changed-IsCounted d w (λ y. record y { count = counted (suc n); pending = false }) x
          (mark i d.given) c h refl (ground arith) (omega (arith, fewer, a), b, refl) others

pub close_conn-IsCounted :
    (d : Dialer) (i : ℕ) → IsCounted d → IsCounted (if_possible d (close_conn d i))
unfolding close_conn
close_conn-IsCounted d i c = go (conn_at i d.given) refl
  where
    go : (o : Option Conn) → conn_at i d.given ≡ o → IsCounted (if_possible d (deref_at d i o))
    go none e = c
    go (some conn) e = closed conn.closed refl
      where
        closed :
            (b : Bool)
            → conn.closed ≡ b
            → IsCounted (
                if_possible d
                  (if b then some d else deref_of d i conn.wrapper (d.wrappers conn.wrapper)))
        closed true f = c
        closed false f =
            deref_of-IsCounted d i conn.wrapper conn (d.wrappers conn.wrapper) c e f refl refl

pub close_actual-IsCounted :
    (d : Dialer) (w : ℕ) → IsCounted d → IsCounted (if_possible d (close_actual d w))
unfolding close_actual
close_actual-IsCounted d w c = go (d.wrappers w) refl
  where
    shut : Wrapper → Wrapper
    shut x = record x { is_open = false }

    pending_fits :
        (x : Wrapper) (k : Count) (n : ℕ)
        → x.pending ≡ true
        → FitsCount k x.is_open x.pending n
        → FitsCount k false x.pending n
    pending_fits x (counted m) n p (a, b, q) = absurd (cc)
    pending_fits x released n p a = a

    go :
        (o : Option Wrapper)
        → d.wrappers w ≡ o
        → IsCounted (if_possible d (if is_pending o then some (change d w shut) else none))
    go none e = c
    go (some x) e = shutting x.pending refl
      where
        shutting :
            (b : Bool)
            → x.pending ≡ b
            → IsCounted (if_possible d (if b then some (change d w shut) else none))
        shutting false p = c
        shutting true p =
            changed-IsCounted d w shut x d.given c e refl refl
              (pending_fits x x.count (live w d.given) p
                (subst (λ o. Fits o (live w d.given)) e (c.fits w)))
              (λ j ne. refl)

abbrev unpend : Wrapper → Wrapper
unpend y = record y { pending = false }

-- onUnref removes the entry of its key, which is its own
removed-IsCounted :
    (d : Dialer) (w : ℕ) (x : Wrapper)
    → IsCounted d
    → d.wrappers w ≡ some x
    → x.pending ≡ true
    → IsCounted (record (change d w unpend) { conns = Dict.remove d.conns x.key })
removed-IsCounted d w x c h pending = record {
  fresh = λ j le. fresh_at j le (w == j);
  fits = λ j. fits_at j (w == j) refl;
  leads = λ k j e. leads_at k j (str_eq x.key k) refl (sym (get-remove d.conns x.key k) ∙ e);
  listed = λ j y e l. listed_at j y (w == j) refl e l;
}
  where
    at : ℕ → Bool → Option Wrapper
    at j b =
        if b then elim (d.wrappers j) [ none ↦ none | some z ↦ some (unpend z) ] else d.wrappers j

    there : (j : ℕ) → (w == j) ≡ true → d.wrappers j ≡ some x
    there j p = ap d.wrappers (sym (ground arith)) ∙ h

    own : Dict.get d.conns x.key ≡ some w
    own = c.listed w x h (ap (λ b. is_counted x.count || b) pending ∙ or_true (is_counted x.count))
      where
        or_true : (b : Bool) → (b || true) ≡ true
        or_true true = refl
        or_true false = refl

    fresh_at : (j : ℕ) → d.next ≤ j → (b : Bool) → at j b ≡ none
    fresh_at j le true = ap (λ o. elim o [ none ↦ none | some z ↦ some (unpend z) ]) (c.fresh j le)
    fresh_at j le false = c.fresh j le

    fit : (k : Count) (n : ℕ) → FitsCount k x.is_open x.pending n → FitsCount k x.is_open false n
    fit (counted m) n (a, b, q) = absurd (cc)
    fit released n a = a

    fits_at : (j : ℕ) (b : Bool) → (w == j) ≡ b → Fits (at j b) (live j d.given)
    fits_at j true p =
        subst (λ o. Fits o (live j d.given)) (sym (mapped unpend (d.wrappers j) x (there j p)))
          (fit x.count (live j d.given)
            (subst (λ o. Fits o (live j d.given)) (there j p) (c.fits j)))
    fits_at j false p = c.fits j

    leads_at :
        (k : String) (j : ℕ) (b : Bool)
        → str_eq x.key k ≡ b
        → (if b then none else Dict.get d.conns k) ≡ some j
        → Leads k (at j (w == j))
    leads_at k j true q e = absurd (cc)
    leads_at k j false q e = other (w == j) refl
      where
        other : (b : Bool) → (w == j) ≡ b → Leads k (at j b)
        other true p =
            let same : x.key ≡ k = (subst (Leads k) (there j p) (c.leads k j e)).0 in
            absurd (ground (arith, eq_iff x.key k))
        other false p = c.leads k j e

    unlisted :
        (k : Count) (n : ℕ) → FitsCount k x.is_open x.pending n → (is_counted k || false) ≡ false
    unlisted (counted m) n (a, b, q) = absurd (cc)
    unlisted released n a = refl

    listed_at :
        (j : ℕ) (y : Wrapper) (b : Bool)
        → (w == j) ≡ b
        → at j b ≡ some y
        → is_listed y ≡ true
        → Dict.get (Dict.remove d.conns x.key) y.key ≡ some j
    listed_at j y true p e l =
        let same : unpend x ≡ y = cc (mapped unpend (d.wrappers j) x (there j p)) in
        let off =
          unlisted x.count (live w d.given) (subst (λ o. Fits o (live w d.given)) h (c.fits w)) in
        absurd (cc (ap is_listed same))
    listed_at j y false p e l = get-remove d.conns x.key y.key ∙ away (str_eq x.key y.key) refl
      where
        away :
            (b : Bool)
            → str_eq x.key y.key ≡ b
            → (if b then none else Dict.get d.conns y.key) ≡ some j
        away true q =
            let same : x.key ≡ y.key = ground (arith, eq_iff x.key y.key) in
            let one : some w ≡ some j = sym own ∙ ap (Dict.get d.conns) same ∙ c.listed j y e l in
            let wrong : w ≡ j = cc in absurd (ground arith)
        away false q = c.listed j y e l

pub on_unref-IsCounted :
    (d : Dialer) (w : ℕ) → IsCounted d → IsCounted (if_possible d (on_unref d w))
unfolding on_unref
on_unref-IsCounted d w c = go (d.wrappers w) refl
  where
    go : (o : Option Wrapper) → d.wrappers w ≡ o → IsCounted (if_possible d (unref_of d w o))
    go none e = c
    go (some x) e = removing (x.pending && not x.is_open) refl
      where
        next : Dialer
        next = record (change d w unpend) { conns = Dict.remove d.conns x.key }

        removing :
            (b : Bool)
            → (x.pending && not x.is_open) ≡ b
            → IsCounted (if_possible d (if b then some next else none))
        removing false p = c
        removing true p = removed-IsCounted d w x c e (ground arith)
