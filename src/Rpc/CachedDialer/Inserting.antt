-- ===== src/Rpc/CachedDialer/Inserting.antt =====
-- Ref and the insertion of a new connection keep the counts of a cached dialer.
use goutils.Common.{
  ℕ, suc, ◌≤◌, String, ◌≡◌, refl, sym, ap, ◌∙◌, subst, Bool, true, false, Option, none, some, [],
  ◌∷◌, ◌++◌, if◌then◌else◌, ◌==◌, str_eq, eq_iff, arith,
}
use goutils.Common.Dict.{Dict, get-put, get-remove}
use goutils.Common.Dict
use goutils.Utils.Ref.{Count, counted, released, ref}
use goutils.Rpc.CachedDialer.{Wrapper, Conn, Dialer, give, ref_of, ref_conn, new_wrapper, insert_at}
use goutils.Rpc.CachedDialer.Steps.{if_possible}
use goutils.Rpc.CachedDialer.Counting.{
  live, FitsCount, Fits, is_listed, Leads, IsCounted, live-append, changed-IsCounted,
}

ref_of-IsCounted :
    (d : Dialer) (w : ℕ) (o : Option Wrapper)
    → IsCounted d
    → d.wrappers w ≡ o
    → IsCounted (if_possible d (ref_of d w o))
unfolding ref
ref_of-IsCounted d w none c h = c
ref_of-IsCounted d w (some x) c h = go x.count refl
  where
    go : (k : Count) → x.count ≡ k → IsCounted (if_possible d (give d w (ref k)))
    go released e = c
    go (counted m) e =
        let fit = subst (λ o. Fits o (live w d.given)) h (c.fits w) in
        let (a, b, p) = subst (λ k. FitsCount k x.is_open x.pending (live w d.given)) e fit in
        let conn : Conn = record { wrapper = w; closed = false } in
        changed-IsCounted d w (λ y. record y { count = counted (suc m) }) x (d.given ++ conn ∷ []) c
          h refl (ground arith) (ground (arith, live-append w d.given conn), b, p)
          (λ j ne. ground (arith, live-append j d.given conn))

pub ref_conn-IsCounted :
    (d : Dialer) (w : ℕ) → IsCounted d → IsCounted (if_possible d (ref_conn d w))
unfolding ref_conn
ref_conn-IsCounted d w c = ref_of-IsCounted d w (d.wrappers w) c refl

-- the dialer with a new wrapper, before its first Ref
abbrev pub with_new : Dialer → String → Dialer
with_new d key = record d {
  conns = Dict.put d.conns key d.next;
  next = suc d.next;
  wrappers = λ j. if d.next == j then some (new_wrapper key) else d.wrappers j;
}

with_new-IsCounted :
    (d : Dialer) (key : String)
    → Dict.get d.conns key ≡ none
    → IsCounted d
    → IsCounted (with_new d key)
with_new-IsCounted d key free c = record {
  fresh = λ j le. fresh_at j le (d.next == j) refl;
  fits = λ j. fits_at j (d.next == j) refl;
  leads = λ k j e. leads_at k j (str_eq key k) refl (sym (get-put d.conns key k d.next) ∙ e);
  listed = λ j y e l. listed_at j y (d.next == j) refl e l;
}
  where
    at : ℕ → Bool → Option Wrapper
    at j b = if b then some (new_wrapper key) else d.wrappers j

    fresh_at : (j : ℕ) → suc d.next ≤ j → (b : Bool) → (d.next == j) ≡ b → at j b ≡ none
    fresh_at j le true p = absurd (ground arith)
    fresh_at j le false p = c.fresh j (omega arith)

    fits_at : (j : ℕ) (b : Bool) → (d.next == j) ≡ b → Fits (at j b) (live j d.given)
    fits_at j true p = (
      sym (subst (λ o. Fits o (live j d.given)) (c.fresh j (ground arith)) (c.fits j)),
      refl,
      refl,
    )
    fits_at j false p = c.fits j

    leads_at :
        (k : String) (j : ℕ) (b : Bool)
        → str_eq key k ≡ b
        → (if b then some d.next else Dict.get d.conns k) ≡ some j
        → Leads k (at j (d.next == j))
    leads_at k j true p e =
        let same : d.next ≡ j = cc in
        let found : (d.next == j) ≡ true = ground arith in
        subst (λ b. Leads k (at j b)) (sym found) (ground (arith, eq_iff key k), refl)
    leads_at k j false p e = old (d.next == j) refl
      where
        old : (b : Bool) → (d.next == j) ≡ b → Leads k (at j b)
        old true q = absurd (subst (Leads k) (c.fresh j (ground arith)) (c.leads k j e))
        old false q = c.leads k j e

    listed_at :
        (j : ℕ) (y : Wrapper) (b : Bool)
        → (d.next == j) ≡ b
        → at j b ≡ some y
        → is_listed y ≡ true
        → Dict.get (Dict.put d.conns key d.next) y.key ≡ some j
    listed_at j y true p e l =
        let same : new_wrapper key ≡ y = cc in
        let found : d.next ≡ j = ground arith in
        get-put d.conns key y.key d.next
        ∙ ap (λ k. if str_eq key k then some d.next else Dict.get d.conns k)
            (sym (ap Wrapper.key same))
        ∙ ground (arith, eq_iff key key)
    listed_at j y false p e l =
        let old = c.listed j y e l in
        get-put d.conns key y.key d.next ∙ away (str_eq key y.key) refl old
      where
        away :
            (b : Bool)
            → str_eq key y.key ≡ b
            → Dict.get d.conns y.key ≡ some j
            → (if b then some d.next else Dict.get d.conns y.key) ≡ some j
        away true q old =
            let same : key ≡ y.key = ground (arith, eq_iff key y.key) in
            absurd (cc (ap (Dict.get d.conns) same))
        away false q old = old

pub insert_at-IsCounted :
    (d : Dialer) (key : String) (o : Option ℕ)
    → Dict.get d.conns key ≡ o
    → IsCounted d
    → IsCounted (if_possible d (insert_at d key o))
unfolding ref_conn ref
insert_at-IsCounted d key (some w) e c = ref_conn-IsCounted d w c
insert_at-IsCounted d key none e c =
    subst (λ o. IsCounted (if_possible d o)) (sym first)
      (subst (λ o. IsCounted (if_possible (with_new d key) o)) first
        (ref_conn-IsCounted (with_new d key) d.next (with_new-IsCounted d key e c)))
  where
    made :
        (b : Bool)
        → b ≡ true
        → (if b then some (new_wrapper key) else d.wrappers d.next) ≡ some (new_wrapper key)
    made true h = refl
    made false h = absurd (cc)

    first :
        ref_conn (with_new d key) d.next ≡ ref_of (with_new d key) d.next (some (new_wrapper key))
    first = ap (ref_of (with_new d key) d.next) (made (d.next == d.next) (ground arith))
