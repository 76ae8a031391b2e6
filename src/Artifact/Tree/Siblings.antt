-- ===== src/Artifact/Tree/Siblings.antt =====
-- Paths that are apart from all children of a node.
use goutils.Common.{
  String, ◌≡◌, none, List, [], ◌∷◌, ◌++◌, str_eq, eq_iff, arith, inl, inr, Bool-cases,
}
use goutils.Common.Forest.{Forest, empty, entry, child}
use goutils.Artifact.Tree.Paths.{Apart, Apart-append, Apart-siblings}

-- The path is apart from each child of the node at `dst`.
abbrev pub NamesApart : {A : Type 0} → List String → Forest A → List String → Type 0
NamesApart dst empty q = Unit {0}
NamesApart dst (entry name n rest) q = Apart (dst ++ name ∷ []) q × NamesApart dst rest q

pub NamesApart-below :
    {A : Type 0} (dst : List String) (f : Forest A) (q : List String)
    → Apart dst q
    → NamesApart dst f q
NamesApart-below dst empty q h = tt
NamesApart-below dst (entry name n rest) q h =
    (Apart-append dst q (name ∷ []) h, NamesApart-below dst rest q h)

pub NamesApart-absent :
    {A : Type 0} (dst : List String) (f : Forest A) (name : String) (q : List String)
    → child f name ≡ none
    → NamesApart dst f (dst ++ name ∷ q)
unfolding child
NamesApart-absent dst empty name q h = tt
NamesApart-absent dst (entry j n rest) name q h = elim (Bool-cases (str_eq j name)) [
  | inl e ↦ absurd (ground (arith))
  | inr e ↦ (
    Apart-siblings dst j name [] q (λ x. ground (arith, eq_iff j name)),
    NamesApart-absent dst rest name q (ground arith),
  )
]
