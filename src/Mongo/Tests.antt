-- ===== src/Mongo/Tests.antt =====
-- The theorem about restored names, on a database with two collections.
use mathlib.Core.List.Permᴰ.{swap}
use goutils.Common.{ℕ, String, ◌≡◌, refl, some, List, [], ◌∷◌, if◌then◌else◌, ◌==◌}
use goutils.Mongo.{
  Memory, Namespaces, RandomizedName, randomize_colls, randomize_namespaces, nothing_randomized,
  register_namespace, restore,
}
use goutils.Mongo.Restoring.{randomize_namespaces-restore}

abbrev names : Memory
names = λ p. if p == 0 then "db" else if p == 1 then "left" else if p == 2 then "right" else ""

abbrev draw : ℕ → String
draw = λ n. if n == 0 then "one" else if n == 1 then "two" else "three"

abbrev one_db : Namespaces
one_db = (0, 1 ∷ 2 ∷ []) ∷ []

registered_twice : register_namespace names 0 2 ((0, 1 ∷ []) ∷ []) ≡ some one_db
unfolding register_namespace
registered_twice = refl

abbrev old : ℕ → String → RandomizedName
old p s = record { ptr = p; from = s }

abbrev saved_names : List RandomizedName
saved_names = old 2 "right" ∷ old 1 "left" ∷ old 0 "db" ∷ []

abbrev other_order : List RandomizedName
other_order = old 1 "left" ∷ old 2 "right" ∷ old 0 "db" ∷ []

are_saved : (randomize_namespaces draw one_db (nothing_randomized names)).old ≡ saved_names
unfolding randomize_namespaces randomize_colls
are_saved = refl

randomize_namespaces-restore_example :
    restore other_order (randomize_namespaces draw one_db (nothing_randomized names)).memory 2
    ≡ "right"
unfolding randomize_namespaces randomize_colls
randomize_namespaces-restore_example =
    randomize_namespaces-restore draw names one_db other_order
      ((refl, (refl, tt)), ((refl, tt), (tt, tt))) (swap refl refl) 2

-- a collection that two databases share can be left with a random name
abbrev shared : Namespaces
shared = (0, 2 ∷ []) ∷ (1, 2 ∷ []) ∷ []

abbrev in_order : List RandomizedName
in_order = old 0 "db" ∷ old 2 "right" ∷ old 1 "left" ∷ old 2 "two" ∷ []

left_random :
    restore in_order (randomize_namespaces draw shared (nothing_randomized names)).memory 2 ≡ "two"
unfolding restore randomize_namespaces randomize_colls
left_random = refl
