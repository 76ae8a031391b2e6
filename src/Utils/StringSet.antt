-- ===== src/Utils/StringSet.antt =====
-- string.go: StringSet, a map to empty structs.
use goutils.Common.{
  is_in, ℕ, suc, ◌≡◌, refl, ◌∙◌, String, Bool, false, ◌||◌, ◌&&◌, not, List, [], ◌∷◌, if◌then◌else◌,
  str_eq, ◌==◌, eq_iff, arith,
}
use goutils.Common.Dict.{Dict}
use goutils.Common.Dict

abbrev pub StringSet : Type 0
StringSet = Dict Unit

-- the loop of NewStringSet
abbrev add_all : StringSet → List String → StringSet
add_all ss [] = ss
add_all ss (v ∷ vs) = add_all (Dict.put ss v tt) vs

unfoldable pub new_string_set : List String → StringSet
new_string_set values = add_all [] values

unfoldable pub add : StringSet → String → StringSet
add ss value = Dict.put ss value tt

unfoldable pub remove : StringSet → String → StringSet
remove ss value = Dict.remove ss value

unfoldable pub to_list : StringSet → List String
to_list [] = []
to_list ((k, u) ∷ ss) = k ∷ to_list ss

pub data Change : Type 0 where
  adds removes : String → Change

unfoldable pub run : List Change → StringSet → StringSet
unfolding add remove
run [] ss = ss
run (adds v ∷ cs) ss = run cs (add ss v)
run (removes v ∷ cs) ss = run cs (remove ss v)

-- The set that the changes leave, described by its members.
abbrev pub is_member : List Change → (String → Bool) → String → Bool
is_member [] f k = f k
is_member (adds v ∷ cs) f k = is_member cs (λ j. str_eq v j || f j) k
is_member (removes v ∷ cs) f k = is_member cs (λ j. not (str_eq v j) && f j) k

-- how often the string stands in the list
abbrev pub count : String → List String → ℕ
count k [] = 0
count k (x ∷ xs) = let rest = count k xs in if str_eq x k then suc rest else rest

abbrev pub Lists : StringSet → (String → Bool) → Type 0
Lists ss f = (k : String) → count k (to_list ss) ≡ (if f k then 1 else 0)

count-put :
    (ss : StringSet) (v k : String)
    → count k (to_list (Dict.put ss v tt))
      ≡ (if str_eq v k && (count k (to_list ss) == 0) then 1 else count k (to_list ss))
unfolding to_list Dict.put
count-put [] v k = ground arith
count-put ((j, u) ∷ ss) v k = ground (arith, count-put ss v k, eq_iff j v, eq_iff j k, eq_iff v k)

count-remove :
    (ss : StringSet) (v k : String)
    → count k (to_list (Dict.remove ss v)) ≡ (if str_eq v k then 0 else count k (to_list ss))
unfolding to_list Dict.remove
count-remove [] v k = ground arith
count-remove ((j, u) ∷ ss) v k =
    ground (arith, count-remove ss v k, eq_iff j v, eq_iff j k, eq_iff v k)

run-Lists :
    (cs : List Change) (ss : StringSet) (f : String → Bool)
    → Lists ss f
    → Lists (run cs ss) (is_member cs f)
unfolding run add remove
run-Lists [] ss f h = h
run-Lists (adds v ∷ cs) ss f h =
    run-Lists cs (add ss v) (λ j. str_eq v j || f j) (λ k. ground (arith, count-put ss v k, h k))
run-Lists (removes v ∷ cs) ss f h =
    run-Lists cs (remove ss v) (λ j. not (str_eq v j) && f j)
      (λ k. ground (arith, count-remove ss v k, h k))

add_all-Lists :
    (vs : List String) (ss : StringSet) (f : String → Bool)
    → Lists ss f
    → Lists (add_all ss vs) (λ k. is_in vs k || f k)
add_all-Lists [] ss f h = h
add_all-Lists (v ∷ vs) ss f h = λ k.
    add_all-Lists vs (Dict.put ss v tt) (λ j. str_eq v j || f j)
      (λ j. ground (arith, count-put ss v j, h j)) k
    ∙ ground arith

-- The list of a set that was made from values, duplicates and all, and then changed by Add and
-- Remove has each string once that is a member after these changes, and no other.
pub run_new-Lists :
    (vs : List String) (cs : List Change)
    → Lists (run cs (new_string_set vs)) (is_member cs (is_in vs))
unfolding new_string_set to_list
run_new-Lists vs cs =
    run-Lists cs (add_all [] vs) (is_in vs)
      (λ k. add_all-Lists vs [] (λ j. false) (λ j. refl) k ∙ ground arith)
