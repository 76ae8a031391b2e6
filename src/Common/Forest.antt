-- ===== src/Common/Forest.antt =====
-- A hierarchy of named nodes: a leaf with a value, or a branch with a map from names to nodes.
-- It serves the artifact tree and the user's directory, with the order of a map as in Dict.
use Prim.Native.String.{String}
use mathlib.Core.Path.{◌≡◌, refl}
use mathlib.Core.Logic.{◌≢◌}
use mathlib.Core.Option.{Option, none, some}
use native.Mathlib.Omega.{arith}
use text.Mathlib.Text.{◌==◌ as str_eq}
use text.Mathlib.TextEquality.{eq_iff}
use text.Mathlib.TextPositions.{eq_refl}
use goutils.Common.Tests.{if◌then◌else◌}

mutual
  pub data Node (A : Type 0) : Type 0 where
    leaf : A → Node A
    branch : Forest A → Node A

  pub data Forest (A : Type 0) : Type 0 where
    empty : Forest A
    entry : String → Node A → Forest A → Forest A

module _ {A : Type 0} where
  unfoldable pub child : Forest A → String → Option (Node A)
  child empty k = none
  child (entry j n f) k = if str_eq j k then some n else child f k

  unfoldable pub put_child : Forest A → String → Node A → Forest A
  put_child empty k n = entry k n empty
  put_child (entry j m f) k n =
      let rest = put_child f k n in if str_eq j k then entry k n f else entry j m rest

  unfoldable pub remove_child : Forest A → String → Forest A
  remove_child empty k = empty
  remove_child (entry j n f) k =
      let rest = remove_child f k in if str_eq j k then rest else entry j n rest

  pub child-put_child :
      (f : Forest A) (k j : String) (n : Node A)
      → child (put_child f k n) j ≡ (if str_eq k j then some n else child f j)
  unfolding child put_child
  child-put_child empty k j n = refl
  child-put_child (entry i m f) k j n =
      ground (arith, eq_iff k j, eq_iff i k, eq_iff i j, child-put_child f k j n)

  pub child-remove_child :
      (f : Forest A) (k j : String)
      → child (remove_child f k) j ≡ (if str_eq k j then none else child f j)
  unfolding child remove_child
  child-remove_child empty k j = ground arith
  child-remove_child (entry i m f) k j =
      ground (arith, eq_iff k j, eq_iff i k, eq_iff i j, child-remove_child f k j)

  pub child-put_child_self :
      (f : Forest A) (k : String) (n : Node A) → child (put_child f k n) k ≡ some n
  child-put_child_self f k n = simp (child-put_child, eq_refl)

  pub child-put_child_ne :
      (f : Forest A) (k j : String) (n : Node A) → k ≢ j → child (put_child f k n) j ≡ child f j
  child-put_child_ne f k j n h = simp child-put_child (ground (arith, eq_iff k j))

pub ruleset forest_laws = (child-put_child, child-remove_child, eq_refl)
