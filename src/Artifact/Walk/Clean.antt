-- ===== src/Artifact/Walk/Clean.antt =====
-- What Clean leaves below the root directory.
use goutils.Common.{
  String, ◌≡◌, refl, subst, Bool, true, false, Option, none, some, List, [], ◌∷◌, if◌then◌else◌,
  eq_iff, arith,
}
use goutils.Common.Forest.{Node, Forest, leaf, branch, empty, entry, child}
use goutils.Artifact.Error.{Result, ok, err}
use goutils.Artifact.Stores.{Store}
use goutils.Artifact.Tree.{TreeNode, TreeNodeTree, lookup}
use goutils.Artifact.Tree.Lookup.{descend, lookup-entry}
use goutils.Artifact.Cache.{File, CachedStore}
use goutils.Artifact.Walk.{clean_node, clean_files, clean, keep_or_drop, after_child}

-- Whether the tree names the path, or has an artifact above it.
abbrev covers_from : (TreeNodeTree → Bool) → Option TreeNode → Bool
covers_from go none = false
covers_from go (some (leaf e)) = true
covers_from go (some (branch g)) = go g

unfoldable pub covers : List String → TreeNodeTree → Bool
covers [] t = true
covers (x ∷ p) t = covers_from (covers p) (child t x)

-- The file at a path, if it is one.
abbrev pub file_of : Option (Node File) → Option File
file_of none = none
file_of (some (leaf file)) = some file
file_of (some (branch files)) = none

abbrev pub file_at : Forest File → List String → Option File
file_at files p = file_of (lookup (some files) p)

-- The files of the second hierarchy are those of the first that the tree covers.
abbrev Cleaned : TreeNodeTree → Forest File → Forest File → Type 0
Cleaned t files files' =
    (y : String) (q : List String)
    → file_at files' (y ∷ q) ≡ (if covers (y ∷ q) t then file_at files (y ∷ q) else none)

abbrev CleanedNode : TreeNodeTree → Node File → Node File → Type 0
CleanedNode t n n' =
    (q : List String)
    → file_of (descend (some n') q) ≡ (if covers q t then file_of (descend (some n) q) else none)

abbrev Success : {A : Type 0} → (A → Type 0) → Result Unit × A → Type 0
Success P (ok u, a) = P a
Success P (err e, a) = Unit

covers-cons :
    (y : String) (q : List String) (t : TreeNodeTree)
    → covers (y ∷ q) t ≡ covers_from (covers q) (child t y)
unfolding covers
covers-cons y q t = refl

entry-Cleaned :
    (t : TreeNodeTree) (name : String) (node node' : Node File) (rest f : Forest File)
    (o : Option TreeNode)
    → child t name ≡ o
    → ((q : List String)
        → file_of (descend (some node') q)
          ≡ (if covers_from (covers q) o then file_of (descend (some node) q) else none))
    → Cleaned t rest f
    → Cleaned t (entry name node rest) (entry name node' f)
entry-Cleaned t name node node' rest f o c h k y q = ground (
  arith,
  lookup-entry name node' f y q,
  lookup-entry name node rest y q,
  k y q,
  h q,
  eq_iff name y,
  covers-cons y q t,
)

-- One round of the loop, by what the tree has under the name.
round-Cleaned :
    (t : TreeNodeTree) (name : String) (node : Node File) (rest : Forest File) (o : Option TreeNode)
    (r : Result Unit × Forest File)
    → child t name ≡ o
    → ((g : TreeNodeTree) → Success (CleanedNode g node) (clean_node g node))
    → Success (Cleaned t rest) r
    → Success
        (Cleaned t (entry name node rest))
        (keep_or_drop o (λ g. clean_node g node) name node rest r)
unfolding keep_or_drop
round-Cleaned t name node rest none (err m, f) c h k = tt
round-Cleaned t name node rest none (ok u, f) c h k =
    λ y q. ground (arith, lookup-entry name node rest y q, k y q, eq_iff name y, covers-cons y q t)
round-Cleaned t name node rest (some (leaf e)) (err m, f) c h k = tt
round-Cleaned t name node rest (some (leaf e)) (ok u, f) c h k =
    entry-Cleaned t name node node rest f (some (leaf e)) c (λ q. refl) k
round-Cleaned t name node rest (some (branch g)) r c h k =
    child-Cleaned (clean_node g node) r (h g) k
  where
    child-Cleaned :
        (m : Result Unit × Node File) (r : Result Unit × Forest File)
        → Success (CleanedNode g node) m
        → Success (Cleaned t rest) r
        → Success (Cleaned t (entry name node rest)) (after_child name rest m r)
    child-Cleaned (err m, n') r h k = tt
    child-Cleaned (ok u, n') (err m, f) h k = tt
    child-Cleaned (ok u, n') (ok v, f) h k =
        entry-Cleaned t name node n' rest f (some (branch g)) c h k

branch-CleanedNode :
    (g : TreeNodeTree) (files : Forest File) (r : Result Unit × Forest File)
    → Success (Cleaned g files) r
    → Success (CleanedNode g (branch files)) (r.0, branch r.1)
unfolding descend covers
branch-CleanedNode g files (err m, f) h = tt
branch-CleanedNode g files (ok u, f) h = go
  where
    go : CleanedNode g (branch files) (branch f)
    go [] = refl
    go (y ∷ q) = h y q

empty-Cleaned : (t : TreeNodeTree) → Cleaned t empty empty
unfolding lookup child
empty-Cleaned t y q = ground arith

mutual
  unfolding clean_node clean_files

  clean_node-Cleaned :
      (g : TreeNodeTree) (n : Node File) → Success (CleanedNode g n) (clean_node g n)
  clean_node-Cleaned g (leaf file) = tt
  clean_node-Cleaned g (branch files) =
      branch-CleanedNode g files (clean_files g files) (clean_files-Cleaned g files)

  clean_files-Cleaned :
      (t : TreeNodeTree) (files : Forest File) → Success (Cleaned t files) (clean_files t files)
  clean_files-Cleaned t empty = empty-Cleaned t
  clean_files-Cleaned t (entry name node rest) =
      round-Cleaned t name node rest (child t name) (clean_files t rest) refl
        (λ g. clean_node-Cleaned g node) (clean_files-Cleaned t rest)

module _ {S : Type 0} ⦃ops : Store S⦄ where
  clean-Success :
      (s : CachedStore S) → Success (λ s'. Cleaned s.config.tree s.root s'.root) (clean s)
  unfolding clean
  clean-Success s = go (clean_files s.config.tree s.root) (clean_files-Cleaned s.config.tree s.root)
    where
      go :
          (r : Result Unit × Forest File)
          → Success (Cleaned s.config.tree s.root) r
          → Success
              (λ (s' : CachedStore S). Cleaned s.config.tree s.root s'.root)
              (r.0, record s { root = r.1 })
      go (ok u, f) h = h
      go (err m, f) h = tt

  -- After Clean has succeeded, the files below the root directory are those that were there and
  -- that the tree covers: a path that the tree names, or that lies below an artifact. Each of them
  -- is as it was, and no other is left.
  pub clean-file_at :
      (s s' : CachedStore S) (y : String) (q : List String)
      → clean s ≡ (ok tt, s')
      → file_at s'.root (y ∷ q)
        ≡ (if covers (y ∷ q) s.config.tree then file_at s.root (y ∷ q) else none)
  clean-file_at s s' y q run =
      (subst (Success (λ s'. Cleaned s.config.tree s.root s'.root)) run (clean-Success s)) y q
