-- ===== src/Utils/Ref.antt =====
-- ref.go: reference counts. The count -1 is `released`, and a panic is `none`. The mutex makes each
-- method one step.
use goutils.Common.{
  ℕ, zero, suc, ◌≡◌, ◌↔◌, refl, ap, sym, subst, ◌∙◌, Bool, true, false, Option, none, some, List,
  [], ◌∷◌,
}

pub data Count : Type 0 where
  counted : ℕ → Count
  released : Count

-- NewRefCountedValue
abbrev pub new_count : Count
new_count = counted 0

unfoldable pub ref : Count → Option Count
ref (counted n) = some (counted (suc n))
ref released = none

-- Deref: whether the value is unreferenced now
unfoldable pub deref : Count → Option (Bool × Count)
deref (counted zero) = none
deref (counted (suc zero)) = some (true, released)
deref (counted (suc (suc n))) = some (false, counted (suc n))
deref released = none

pub data Call : Type 0 where
  refs derefs : Call

abbrev prepend : Bool → Option (List Bool) → Option (List Bool)
prepend b none = none
prepend b (some bs) = some (b ∷ bs)

-- the answers of Deref over the calls
unfoldable pub run : List Call → Count → Option (List Bool)
unfolding ref deref
run [] c = some []
run (refs ∷ xs) c = elim (ref c) [ none ↦ none | some d ↦ run xs d ]
run (derefs ∷ xs) c = elim (deref c) [ none ↦ none | some r ↦ prepend r.0 (run xs r.1) ]

-- What users may do: every Deref has a Ref before it, and nothing follows the last Deref. The
-- answers are then those of Deref at each call.
pub data Fair : ℕ → List Call → List Bool → Type 0 where
  ends : (n : ℕ) → Fair n [] []
  takes : (n : ℕ) (xs : List Call) (bs : List Bool) → Fair (suc n) xs bs → Fair n (refs ∷ xs) bs
  gives :
      (n : ℕ) (xs : List Call) (bs : List Bool)
      → Fair (suc n) xs bs
      → Fair (suc (suc n)) (derefs ∷ xs) (false ∷ bs)
  last_one : Fair 1 (derefs ∷ []) (true ∷ [])

run-Fair : (n : ℕ) (xs : List Call) (bs : List Bool) → Fair n xs bs → run xs (counted n) ≡ some bs
unfolding run ref deref
run-Fair n [] bs (ends _) = refl
run-Fair n (refs ∷ xs) bs (takes _ _ _ f) = run-Fair (suc n) xs bs f
run-Fair (suc (suc n)) (derefs ∷ xs) (false ∷ bs) (gives _ _ _ f) =
    ap (prepend false) (run-Fair (suc n) xs bs f)
run-Fair (suc zero) (derefs ∷ []) (true ∷ []) last_one = refl
run-Fair zero (derefs ∷ xs) bs f = elim f [ ]
run-Fair (suc zero) (derefs ∷ []) [] f = elim f [ ]
run-Fair (suc zero) (derefs ∷ []) (false ∷ bs) f = elim f [ ]
run-Fair (suc zero) (derefs ∷ []) (true ∷ (_ ∷ _)) f = elim f [ ]
run-Fair (suc zero) (derefs ∷ (_ ∷ _)) bs f = elim f [ ]
run-Fair (suc (suc n)) (derefs ∷ xs) [] f = elim f [ ]
run-Fair (suc (suc n)) (derefs ∷ xs) (true ∷ bs) f = elim f [ ]

run_released : (xs : List Call) (bs : List Bool) → run xs released ≡ some bs → (xs ≡ []) × (bs ≡ [])
unfolding run ref deref
run_released [] bs e = (refl, cc)
run_released (refs ∷ xs) bs e = absurd (cc)
run_released (derefs ∷ xs) bs e = absurd (cc)

Fair-run : (n : ℕ) (xs : List Call) (bs : List Bool) → run xs (counted n) ≡ some bs → Fair n xs bs
unfolding run ref deref
Fair-run n [] bs e = subst (Fair n []) (cc) (ends n)
Fair-run n (refs ∷ xs) bs e = takes n xs bs (Fair-run (suc n) xs bs e)
Fair-run zero (derefs ∷ xs) bs e = absurd (cc)
Fair-run (suc zero) (derefs ∷ xs) bs e = go (run xs released) refl e
  where
    go :
        (o : Option (List Bool))
        → run xs released ≡ o
        → prepend true o ≡ some bs
        → Fair 1 (derefs ∷ xs) bs
    go none h k = absurd (cc)
    go (some cs) h k =
        let (p, q) = run_released xs cs h in
        let r : bs ≡ true ∷ cs = cc in
        subst (λ ys. Fair 1 (derefs ∷ ys) bs) (sym p)
          (subst (Fair 1 (derefs ∷ [])) (sym (r ∙ ap (λ ds. true ∷ ds) q)) last_one)
Fair-run (suc (suc n)) (derefs ∷ xs) bs e =
    go (λ cs h. Fair-run (suc n) xs cs h) (run xs (counted (suc n))) refl e
  where
    go :
        ((cs : List Bool) → run xs (counted (suc n)) ≡ some cs → Fair (suc n) xs cs)
        → (o : Option (List Bool)) → run xs (counted (suc n)) ≡ o
        → prepend false o ≡ some bs
        → Fair (suc (suc n)) (derefs ∷ xs) bs
    go ih none h k = absurd (cc)
    go ih (some cs) h k = subst (Fair (suc (suc n)) (derefs ∷ xs)) (cc) (gives n xs cs (ih cs h))

-- No call panics, and the answers of Deref are the given ones, just where every Deref has a Ref
-- before it, the Deref that gives up the last reference alone answers true, and no call follows it.
pub run_iff :
    (n : ℕ) (xs : List Call) (bs : List Bool) → (run xs (counted n) ≡ some bs) ↔ Fair n xs bs
run_iff n xs bs = (Fair-run n xs bs, run-Fair n xs bs)
