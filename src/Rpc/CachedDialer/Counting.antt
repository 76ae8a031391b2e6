-- ===== src/Rpc/CachedDialer/Counting.antt =====
-- The counts of a cached dialer: how many references are out, and what that keeps.
use goutils.Common.{
  ℕ, zero, suc, ◌≤◌, String, ◌≡◌, ◌≢◌, refl, sym, ap, ◌∙◌, subst, Bool, true, false, ◌&&◌, ◌||◌,
  not, Option, none, some, List, [], ◌∷◌, ◌++◌, if◌then◌else◌, ◌==◌, arith,
}
use goutils.Common.Dict.{Dict, get-put, get-remove}
use goutils.Common.Dict
use goutils.Utils.Ref.{Count, counted, released}
use goutils.Rpc.CachedDialer.{Wrapper, Conn, Dialer, change, mark, conn_at}

-- the references to w that are not closed
abbrev pub is_live : ℕ → Conn → Bool
is_live w c = c.wrapper == w && not c.closed

abbrev pub live : ℕ → List Conn → ℕ
live w [] = 0
live w (c ∷ cs) = let rest = live w cs in if is_live w c then suc rest else rest

-- The count is that of the live references, and the connection is then open with no Close under way;
-- once it is released there are none.
abbrev pub FitsCount : Count → Bool → Bool → ℕ → Type 0
FitsCount (counted m) is_open pending n = (m ≡ n) × (is_open ≡ true) × (pending ≡ false)
FitsCount released is_open pending n = n ≡ 0

abbrev pub Fits : Option Wrapper → ℕ → Type 0
Fits none n = n ≡ 0
Fits (some x) n = FitsCount x.count x.is_open x.pending n

abbrev pub is_counted : Count → Bool
is_counted (counted n) = true
is_counted released = false

-- what a key leads to: a wrapper with this key that is counted or pending
abbrev pub is_listed : Wrapper → Bool
is_listed x = is_counted x.count || x.pending

abbrev pub Leads : String → Option Wrapper → Type 0
Leads key none = ⊥
Leads key (some x) = (x.key ≡ key) × (is_listed x ≡ true)

pub record IsCounted (d : Dialer) : Type 0 where
  pub fresh : (w : ℕ) → d.next ≤ w → d.wrappers w ≡ none
  pub fits : (w : ℕ) → Fits (d.wrappers w) (live w d.given)
  pub leads : (key : String) (w : ℕ) → Dict.get d.conns key ≡ some w → Leads key (d.wrappers w)
  pub listed :
      (w : ℕ) (x : Wrapper)
      → d.wrappers w ≡ some x
      → is_listed x ≡ true
      → Dict.get d.conns x.key ≡ some w

pub live-append :
    (w : ℕ) (cs : List Conn) (c : Conn)
    → live w (cs ++ c ∷ []) ≡ (if is_live w c then suc (live w cs) else live w cs)
live-append w [] c = refl
live-append w (d ∷ cs) c = ground (arith, live-append w cs c)

-- closing a live reference to w takes one away
pub live-mark :
    (w i : ℕ) (cs : List Conn) (c : Conn)
    → conn_at i cs ≡ some c
    → c.closed ≡ false
    → (if c.wrapper == w then suc (live w (mark i cs)) else live w (mark i cs)) ≡ live w cs
live-mark w i [] c h e = absurd (cc)
live-mark w zero (d ∷ cs) c h e =
    let same : d ≡ c = cc in
    subst
      (λ z.
        (if c.wrapper == w
          then suc (live w (record z { closed = true } ∷ cs))
          else live w (record z { closed = true } ∷ cs))
        ≡ live w (z ∷ cs))
      (sym same) (ground arith)
live-mark w (suc i) (d ∷ cs) c h e = ground (arith, live-mark w i cs c h e)

pub live-pos :
    (w i : ℕ) (cs : List Conn) (c : Conn)
    → conn_at i cs ≡ some c
    → c.closed ≡ false
    → c.wrapper ≡ w
    → 1 ≤ live w cs
live-pos w i [] c h e f = absurd (cc)
live-pos w zero (d ∷ cs) c h e f =
    let same : d ≡ c = cc in subst (λ z. 1 ≤ live w (z ∷ cs)) (sym same) (ground arith)
live-pos w (suc i) (d ∷ cs) c h e f = ground (arith, live-pos w i cs c h e f)

pub mapped :
    (f : Wrapper → Wrapper) (o : Option Wrapper) (x : Wrapper)
    → o ≡ some x
    → elim o [ none ↦ none | some z ↦ some (f z) ] ≡ some (f x)
mapped f none x e = absurd (cc)
mapped f (some z) x e = cc

-- a change of one wrapper that keeps its key and whether it is listed
pub changed-IsCounted :
    (d : Dialer) (w : ℕ) (f : Wrapper → Wrapper) (x : Wrapper) (given : List Conn)
    → IsCounted d
    → d.wrappers w ≡ some x
    → (f x).key ≡ x.key
    → is_listed (f x) ≡ is_listed x
    → Fits (some (f x)) (live w given)
    → ((j : ℕ) → w ≢ j → live j given ≡ live j d.given)
    → IsCounted (record (change d w f) { given = given })
changed-IsCounted d w f x given c h key listing fits others = record {
  fresh = λ j le. fresh_at j le (w == j);
  fits = λ j. fits_at j (w == j) refl;
  leads = λ k j e. leads_at k j e (w == j) refl;
  listed = λ j y e l. listed_at j y (w == j) refl e l;
}
  where
    at : ℕ → Bool → Option Wrapper
    at j b = if b then elim (d.wrappers j) [ none ↦ none | some z ↦ some (f z) ] else d.wrappers j

    there : (j : ℕ) → (w == j) ≡ true → d.wrappers j ≡ some x
    there j p = ap d.wrappers (sym (ground arith)) ∙ h

    fresh_at : (j : ℕ) → d.next ≤ j → (b : Bool) → at j b ≡ none
    fresh_at j le true = ap (λ o. elim o [ none ↦ none | some z ↦ some (f z) ]) (c.fresh j le)
    fresh_at j le false = c.fresh j le

    fits_at : (j : ℕ) (b : Bool) → (w == j) ≡ b → Fits (at j b) (live j given)
    fits_at j true p =
        let same : w ≡ j = ground arith in
        subst (λ o. Fits o (live j given)) (sym (mapped f (d.wrappers j) x (there j p)))
          (subst (λ i. Fits (some (f x)) (live i given)) same fits)
    fits_at j false p = subst (Fits (d.wrappers j)) (sym (others j (ground arith))) (c.fits j)

    leads_at :
        (k : String) (j : ℕ)
        → Dict.get d.conns k ≡ some j
        → (b : Bool) → (w == j) ≡ b
        → Leads k (at j b)
    leads_at k j e true p =
        let (a, b) = subst (Leads k) (there j p) (c.leads k j e) in
        subst (Leads k) (sym (mapped f (d.wrappers j) x (there j p))) (key ∙ a, listing ∙ b)
    leads_at k j e false p = c.leads k j e

    listed_at :
        (j : ℕ) (y : Wrapper) (b : Bool)
        → (w == j) ≡ b
        → at j b ≡ some y
        → is_listed y ≡ true
        → Dict.get d.conns y.key ≡ some j
    listed_at j y true p e l =
        let same : f x ≡ y = cc (mapped f (d.wrappers j) x (there j p)) in
        let old = c.listed j x (there j p) (sym listing ∙ ap is_listed same ∙ l) in
        ap (Dict.get d.conns) (sym (ap Wrapper.key same) ∙ key) ∙ old
    listed_at j y false p e l = c.listed j y e l
