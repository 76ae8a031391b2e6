-- ===== src/Artifact/Tree/Paths.antt =====
-- When one path is at or above another.
use goutils.Common.{
  String, ◌≡◌, ◌≢◌, Bool, true, false, ◌&&◌, List, [], ◌∷◌, ◌++◌, str_eq, eq_iff, arith,
}
use text.Mathlib.TextPositions.{eq_refl}

-- Whether the first path is the second, or names a node above it.
abbrev pub is_above : List String → List String → Bool
is_above [] q = true
is_above (x ∷ p) [] = false
is_above (x ∷ p) (y ∷ q) = str_eq x y && is_above p q

-- Neither path is the other, or lies below it.
abbrev pub Apart : List String → List String → Type 0
Apart p q = (is_above p q ≡ false) × (is_above q p ≡ false)

-- What is apart from a path is apart from all below it.
pub Apart-append : (p q r : List String) → Apart p q → Apart (p ++ r) q
Apart-append [] q r h = cc (h.0)
Apart-append (x ∷ p) [] r h = cc (h.1)
Apart-append (x ∷ p) (y ∷ q) r h = ground (arith, eq_iff x y, eq_iff y x, Apart-append p q r)

-- Paths that part ways at some name are apart.
pub Apart-siblings :
    (d : List String) (x y : String) (p q : List String) → x ≢ y → Apart (d ++ x ∷ p) (d ++ y ∷ q)
Apart-siblings [] x y p q h = ground (arith, eq_iff x y, eq_iff y x)
Apart-siblings (z ∷ d) x y p q h = ground (arith, eq_refl z, Apart-siblings d x y p q)
