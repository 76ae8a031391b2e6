-- ===== src/Artifact/Walk/StatusEffect.antt =====
-- What Status does to the tree that it reports on, and what the next Remove then writes.
use goutils.Common.{String, none, some, [], ◌∷◌, ◌≡◌, refl, ap, ◌∙◌}
use goutils.Common.Forest.{leaf, branch, empty, entry}
use goutils.Artifact.Stores.{Store}
use goutils.Artifact.Tree.{TreeNodeExternal, lookup, store_node}
use goutils.Artifact.Tree.Lookup.{lookup-store_node, lookup-remove_path-Apart}
use goutils.Artifact.Tree.Paths.{Apart}
use goutils.Artifact.Config.{split, remove_path}
use goutils.Artifact.Cache.{CachedStore, commit}
use goutils.Artifact.Walk.{status, walk, walk_node, enter_dir, below_root, remove}

-- the store with an empty internal node at a name of its tree
abbrev emptied : {S : Type 0} → CachedStore S → String → CachedStore S
emptied s name = record s {
  config = record (s.config) { tree = store_node s.config.tree (branch empty) (name ∷ []) };
}

status-emptied :
    {S : Type 0} (s : CachedStore S) (name : String) (e : TreeNodeExternal)
    → s.root ≡ entry name (branch empty) empty
    → lookup (some s.config.tree) (name ∷ []) ≡ some (leaf e)
    → (status s).1 ≡ emptied s name
unfolding status walk walk_node enter_dir
status-emptied s name e r l = rw r (rw l refl)

-- Remove writes what else stands in the tree
remove-committed :
    {S : Type 0} ⦃ops : Store S⦄ (s : CachedStore S) (path name : String)
    → s.commit_error ≡ none
    → Apart (split (below_root s.root_dir path)) (name ∷ [])
    → lookup (some (remove path s).1.committed) (name ∷ [])
      ≡ lookup (some s.config.tree) (name ∷ [])
unfolding remove commit remove_path
remove-committed s path name e apart =
    rw e (
      lookup-remove_path-Apart s.config.tree (split (below_root s.root_dir path)) (name ∷ []) apart)

-- Where the root directory has just one entry, an empty directory with the name of an artifact, a Remove
-- of a path apart from it writes the artifact's node to tree.json; but where Status came before, it
-- writes an internal node without an artifact in its place.
pub status_replaces_artifact :
    {S : Type 0} ⦃ops : Store S⦄ (s : CachedStore S) (name path : String) (e : TreeNodeExternal)
    → s.root ≡ entry name (branch empty) empty
    → lookup (some s.config.tree) (name ∷ []) ≡ some (leaf e)
    → s.commit_error ≡ none
    → Apart (split (below_root s.root_dir path)) (name ∷ [])
    → (lookup (some (remove path s).1.committed) (name ∷ []) ≡ some (leaf e))
      × (lookup (some (remove path (status s).1).1.committed) (name ∷ []) ≡ some (branch empty))
status_replaces_artifact s name path e r l h apart = (
  remove-committed s path name h apart ∙ l,
  ap (λ t. lookup (some (remove path t).1.committed) (name ∷ [])) (status-emptied s name e r l)
      ∙ remove-committed (emptied s name) path name h apart
      ∙ lookup-store_node s.config.tree (branch empty) name [],
)
