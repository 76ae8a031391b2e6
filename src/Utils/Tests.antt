-- ===== src/Utils/Tests.antt =====
-- The theorems about reference counts and filtered errors, on short runs.
use goutils.Common.{String, List, ◌++◌, none, inr, refl, All, str_eq, ◌≡◌, [], ◌∷◌, some, false}
use goutils.Utils.Errors.{Library, IsFlat, filter_out_error, filter_out_error_lem}

-- combinations as lists of texts
abbrev flattened : List String → List (List String)
flattened [] = []
flattened (x ∷ xs) = (x ∷ []) ∷ flattened xs

abbrev joined : List (List String) → List String
joined [] = []
joined (e ∷ es) = e ++ joined es

abbrev text_of : List String → String
text_of [] = ""
text_of (x ∷ xs) = x

abbrev texts : Library (List String)
texts = record {
  errors = flattened;
  combine = λ es. elim (joined es) [ [] ↦ none | x ∷ xs ↦ some (x ∷ xs) ];
  is_error = λ e target. false;
  text = text_of;
  contains = str_eq;
}

flattened-All : (xs : List String) → All (λ x. flattened x ≡ x ∷ []) (flattened xs)
flattened-All [] = tt
flattened-All (x ∷ xs) = (refl, flattened-All xs)

texts-IsFlat : IsFlat texts
texts-IsFlat e = inr (flattened-All e)

filter_out_error_lem_example :
    filter_out_error texts 2 (some ("a" ∷ "b" ∷ "a" ∷ [])) (some ("a" ∷ []))
    ≡ some (some ("b" ∷ []))
filter_out_error_lem_example =
    filter_out_error_lem texts 0 ("a" ∷ "b" ∷ "a" ∷ []) ("a" ∷ []) texts-IsFlat
