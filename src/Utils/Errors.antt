-- ===== src/Utils/Errors.antt =====
-- FilterOutError of error.go. The errors and what the libraries say of them are parameters: the list
-- that multierr.Errors answers, multierr.Combine, errors.Is, the text, and strings.Contains. A nil
-- error is `none`; the calls that are nested are counted by fuel.
use goutils.Common.{
  ℕ, zero, suc, String, ◌≡◌, ◌⊎◌, inl, inr, refl, ap, ◌∙◌, Bool, true, false, ◌||◌, Option, none,
  some, List, [], ◌∷◌, All, length, if◌then◌else◌, ◌==◌, arith,
}

pub record Library (E : Type 0) : Type 0 where
  pub errors : E → List E
  pub combine : List E → Option E
  pub is_error : E → E → Bool
  pub text : E → String
  pub contains : String → String → Bool

module _ {E : Type 0} (lib : Library E) where
  abbrev pub matches : E → E → Bool
  matches target e = lib.is_error e target || lib.contains (lib.text e) (lib.text target)

  -- one turn of the loop: what the nested call and the rest of the loop have answered
  abbrev pub kept : E → Option (Option E) → Option (List E) → Option (List E)
  kept e none rest = none
  kept e (some none) rest = rest
  kept e (some (some x)) none = none
  kept e (some (some x)) (some es) = some (e ∷ es)

  abbrev pub filter_all : (E → Option (Option E)) → List E → Option (List E)
  filter_all f [] = some []
  filter_all f (e ∷ es) = kept e (f e) (filter_all f es)

  abbrev pub combined : Option (List E) → Option (Option E)
  combined none = none
  combined (some es) = some (lib.combine es)

  -- FilterOutError; the outer `none` is that the fuel has run out
  unfoldable pub filter_out_error : ℕ → Option E → Option E → Option (Option E)
  filter_out_error fuel none target = some none
  filter_out_error fuel (some e) none = some (some e)
  filter_out_error zero (some e) (some target) = none
  filter_out_error (suc n) (some e) (some target) =
      let nested = filter_all (λ x. filter_out_error n (some x) (some target)) (lib.errors e) in
      if length (lib.errors e) == 1
      then (if matches target e then some none else some (some e))
      else combined nested

  -- the errors that do not match the target
  abbrev pub others : E → List E → List E
  others target [] = []
  others target (e ∷ es) =
      let rest = others target es in if matches target e then rest else e ∷ rest

  -- multierr flattens: an error is alone in its list, or its list has only errors that are.
  abbrev pub IsFlat : Type 0
  IsFlat = (e : E) → (length (lib.errors e) ≡ 1) ⊎ All (λ x. lib.errors x ≡ x ∷ []) (lib.errors e)

  filter_out_error-alone :
      (n : ℕ) (e target : E)
      → lib.errors e ≡ e ∷ []
      → filter_out_error (suc n) (some e) (some target)
        ≡ (if matches target e then some none else some (some e))
  unfolding filter_out_error
  filter_out_error-alone n e target h = rw h

  kept-others :
      (e target : E) (es : List E)
      → kept e (if matches target e then some none else some (some e)) (some (others target es))
        ≡ some (others target (e ∷ es))
  kept-others e target es = go (matches target e)
    where
      go :
          (b : Bool)
          → kept e (if b then some none else some (some e)) (some (others target es))
            ≡ some (if b then others target es else e ∷ others target es)
      go true = refl
      go false = refl

  filter_all-others :
      (n : ℕ) (target : E) (es : List E)
      → All (λ x. lib.errors x ≡ x ∷ []) es
      → filter_all (λ x. filter_out_error (suc n) (some x) (some target)) es
        ≡ some (others target es)
  filter_all-others n target [] flat = refl
  filter_all-others n target (e ∷ es) (h, hs) =
      ap (λ a. kept e a (filter_all (λ x. filter_out_error (suc n) (some x) (some target)) es))
        (filter_out_error-alone n e target h)
      ∙ ap (kept e (if matches target e then some none else some (some e)))
          (filter_all-others n target es hs)
      ∙ kept-others e target es

  -- FilterOutError ends: where the lists of errors are flat, calls nest at most two deep. An error that
  -- is not a combination is dropped just where it is the target or its text has that of the target; a
  -- combination becomes that of its errors that are neither.
  pub filter_out_error_lem :
      (n : ℕ) (e target : E)
      → IsFlat
      → filter_out_error (suc (suc n)) (some e) (some target)
        ≡ some (
            if length (lib.errors e) == 1
            then (if matches target e then none else some e)
            else lib.combine (others target (lib.errors e)))
  unfolding filter_out_error
  filter_out_error_lem n e target flat = go (length (lib.errors e) == 1) refl (flat e)
    where
      nested : Option (List E)
      nested = filter_all (λ x. filter_out_error (suc n) (some x) (some target)) (lib.errors e)

      alone :
          (b : Bool) → (if b then some none else some (some e)) ≡ some (if b then none else some e)
      alone true = refl
      alone false = refl

      go :
          (b : Bool)
          → (length (lib.errors e) == 1) ≡ b
          → (length (lib.errors e) ≡ 1) ⊎ All (λ x. lib.errors x ≡ x ∷ []) (lib.errors e)
          → (if b then (if matches target e then some none else some (some e)) else combined nested)
            ≡ some (
                if b
                then (if matches target e then none else some e)
                else lib.combine (others target (lib.errors e)))
      go true p h = alone (matches target e)
      go false p (inl one) = absurd (ground arith)
      go false p (inr hs) = ap combined (filter_all-others n target (lib.errors e) hs)
