-- ===== src/Artifact/Config/Paths.antt =====
-- Config finds by path what it stored, and only that changes.
use Prim.Native.Char.{code}
use mathlib.Core.List.{append-nil}
use goutils.Common.{
  ℕ, String, ◌≡◌, refl, ap, subst, sym, false, some, List, [], ◌∷◌, str_eq, inl, inr, Bool-cases,
  ◌==◌,
}
use goutils.Common.Forest.{leaf}
use goutils.Artifact.Error.{ok, err, not_found_path}
use goutils.Artifact.Tree.{TreeNode, TreeNodeExternal, store_hash}
use goutils.Artifact.Tree
use goutils.Artifact.Tree.Paths.{Apart}
use goutils.Artifact.Tree.Lookup.{
  lookup-store_node, lookup-store_node-Apart, lookup-remove_path, lookup-remove_path-Apart,
}
use goutils.Artifact.Config.{Config, split, lookup, remove_path, store_hash_at, or_not_found}

-- strings.Split gives at least one piece.
split-cons : (s : String) → (x : String) × (p : List String) × (split s ≡ x ∷ p)
unfolding split
split-cons String.[] = (String.[], [], refl)
split-cons (String.◌∷◌ c s) = elim (Bool-cases (code c == b'/')) [
  | inl e ↦ (String.[], split s, rw e)
  | inr e ↦ (let (x, p, q) = split-cons s in (String.◌∷◌ c x, p, rw (e, q)))
]

lookup_lem :
    (c : Config) (path : String)
    → str_eq path "/" ≡ false
    → lookup c path ≡ or_not_found path (Tree.lookup (some c.tree) (split path))
unfolding lookup
lookup_lem c path h = rw h

-- A path to which StoreHash has associated a hash leads to the external node with that hash and
-- size; at a path that is apart from it, neither the same nor one above the other, Lookup answers
-- as before. The path "/" stands for the root and is left aside.
pub lookup-store_hash_at :
    (c : Config) (hash : String) (size : ℕ) (path other : String)
    → str_eq path "/" ≡ false
    → str_eq other "/" ≡ false
    → Apart (split path) (split other)
    → (lookup (store_hash_at c hash size (split path)) path
        ≡ ok (leaf (record { hash = hash; size = size })))
      × (lookup (store_hash_at c hash size (split path)) other ≡ lookup c other)
lookup-store_hash_at c hash size path other h k apart =
    let (x, p, e) = split-cons path in
    (
      rw (lookup_lem (store_hash_at c hash size (split path)) path h) (
          unfold store_hash_at store_hash in
          subst
            (λ ps.
              or_not_found path (Tree.lookup (some (store_hash c.tree hash size ps)) ps)
              ≡ ok (leaf (record { hash = hash; size = size })))
            (sym e)
            (ap (or_not_found path)
              (lookup-store_node c.tree (leaf (record { hash = hash; size = size })) x p))),
      rw (lookup_lem (store_hash_at c hash size (split path)) other k, lookup_lem c other k)
          (unfold store_hash_at store_hash in
            ap (or_not_found other) (
              lookup-store_node-Apart c.tree (leaf (record { hash = hash; size = size }))
                (split path) (split other) apart)),
    )

-- After RemovePath nothing is found at the path; a path that is apart from it is found as before.
pub lookup-remove_path_config :
    (c : Config) (path other : String)
    → str_eq path "/" ≡ false
    → str_eq other "/" ≡ false
    → Apart (split path) (split other)
    → (lookup (remove_path c path) path ≡ err (not_found_path path))
      × (lookup (remove_path c path) other ≡ lookup c other)
lookup-remove_path_config c path other h k apart =
    let (x, p, e) = split-cons path in
    (
      rw (lookup_lem (remove_path c path) path h) (
          unfold remove_path in
          subst
            (λ ps.
              or_not_found path (Tree.lookup (some (Tree.remove_path c.tree ps)) ps)
              ≡ err (not_found_path path))
            (sym e)
            (ap (or_not_found path)
              (rw (append-nil (x ∷ p)) at (lookup-remove_path c.tree x p [])))),
      rw (lookup_lem (remove_path c path) other k, lookup_lem c other k)
          (unfold remove_path in
            ap (or_not_found other)
              (lookup-remove_path-Apart c.tree (split path) (split other) apart)),
    )
