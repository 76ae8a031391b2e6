-- ===== src/Artifact/Tests.antt =====
-- Runs of package artifact, and its theorems at concrete inputs.
use goutils.Common.{
  String, ◌≡◌, refl, true, inl, inr, Bool-cases, none, some, [], ◌∷◌, str_eq, eq_iff, if◌then◌else◌,
  arith,
}
use goutils.Common.Dict.{get, put}
use goutils.Common.Forest.{Forest, leaf, branch, empty, entry, child, put_child}
use goutils.Artifact.Error.{ok, err, not_found_hash, is_not_found_error}
use goutils.Artifact.Hash.{Bytes, compute_hash}
use goutils.Artifact.Stores.{Store, FsStore}
use goutils.Artifact.Stores
use goutils.Artifact.Tree.{TreeNodeExternal, TreeNodeTree, lookup, store_node, store_hash}
use goutils.Artifact.Tree.Maps.{is_map}
use goutils.Artifact.Config.{Config, split, store_hash_at}
use goutils.Artifact.Config
use goutils.Artifact.Config.Paths.{lookup-store_hash_at}
use goutils.Artifact.Cache.{
  File, readable, CachedStore, ensure, ensure_node, ensure_nodes, ensure_leaf, new_path,
  emplace_file, cache_store, source_load, blocked, commit,
}
use goutils.Artifact.Cache
use goutils.Artifact.Cache.Emplace.{IsAddressed, HasFile}
use goutils.Artifact.Cache.Ensure.{IsHonest}
use goutils.Artifact.Cache.EnsureTree.{ensure-CompleteBelow}
use goutils.Artifact.Walk.{
  clean, clean_files, write_through_user, status, below_root, remove, walk, walk_node, is_ignored,
}
use goutils.Artifact.Walk.Clean.{file_at, covers, clean-file_at}
use goutils.Artifact.Walk.WriteThrough.{
  Described, write_through_user-Described, status_after_write_through_user, no_changes,
}
use goutils.Artifact.Walk.StatusEffect.{status_replaces_artifact}

-- A source with one blob.
instance abbrev blob_source : Store Bytes
blob_source = record {
  contains = λ b h. if str_eq (compute_hash b) h then none else some (not_found_hash h);
  load = λ b h. if str_eq (compute_hash b) h then ok b else err (not_found_hash h);
  store = λ b h c. ok c;
}

blob_source-IsHonest : IsHonest blob_source
blob_source-IsHonest src h b e = elim (Bool-cases (str_eq (compute_hash src) h)) [
  | inl c ↦ ground (arith, eq_iff (compute_hash src) h)
  | inr c ↦ absurd (ground arith)
]

abbrev hash_of_a : String
hash_of_a = "d228cb696f1a8caf78912b704e4a8964"

abbrev node_of_a : TreeNodeExternal
node_of_a = record { hash = hash_of_a; size = 1 }

abbrev small_tree : TreeNodeTree
small_tree = entry "d" (branch (entry "f" (leaf node_of_a) empty)) empty

abbrev small_config : Config
small_config = record {
  cache = "";
  root = "";
  source_pull_size_limit = 4;
  ignore_set = "x" ∷ [];
  tree = small_tree;
}

abbrev empty_cache : FsStore
empty_cache = record { files = []; list_error = none; write_error = none }

-- The cache is empty, the source has the blob "a", and there are no user files.
abbrev fresh : CachedStore Bytes
fresh = record {
  cache = empty_cache;
  source = some (b'a' ∷ []);
  config = small_config;
  root_dir = "/r";
  root = empty;
  committed = empty;
  commit_error = none;
}

empty_cache-IsAddressed : IsAddressed empty_cache
unfolding get
empty_cache-IsAddressed = record { addressed = λ h b e. absurd (cc) }

-- Two files, one of which the tree does not know.
abbrev user_files : Forest File
user_files =
    entry "d" (branch (entry "f" (leaf (readable (b'a' ∷ []))) empty))
      (entry "new" (leaf (readable (b'b' ∷ []))) (entry "x" (leaf (readable [])) empty))

abbrev edited : CachedStore Bytes
edited = record fresh { root = user_files }

lookup-store_hash_at_example :
    (Config.lookup (store_hash_at small_config "h" 3 ("a" ∷ "b" ∷ [])) "a/b"
      ≡ ok (leaf (record { hash = "h"; size = 3 })))
    × (Config.lookup (store_hash_at small_config "h" 3 ("a" ∷ "b" ∷ [])) "d/f"
        ≡ Config.lookup small_config "d/f")
unfolding split
lookup-store_hash_at_example =
    lookup-store_hash_at small_config "h" 3 "a/b" "d/f" refl refl (refl, refl)

abbrev ensured : CachedStore Bytes
ensured = record fresh {
  cache = record empty_cache { files = (hash_of_a, b'a' ∷ []) ∷ [] };
  root = entry "d" (branch (entry "f" (leaf (readable (b'a' ∷ []))) empty)) empty;
}

ensure_run : ensure "d" true fresh ≡ (ok (some ("d" ∷ [])), ensured)
unfolding ensure ensure_node ensure_leaf emplace_file cache_store source_load blocked Config.lookup
    split new_path lookup child store_node put_child Stores.contains Stores.load Stores.store get
    put compute_hash is_not_found_error
ensure_run = refl

ensure-CompleteBelow_example : HasFile ensured ("d" ∷ "f" ∷ []) hash_of_a
unfolding split new_path Config.lookup lookup child is_map
ensure-CompleteBelow_example =
    ensure-CompleteBelow blob_source-IsHonest "d" (entry "f" (leaf node_of_a) empty) fresh ensured
      (some ("d" ∷ [])) empty_cache-IsAddressed refl refl ensure_run "f" [] node_of_a refl

abbrev cleaned : CachedStore Bytes
cleaned = record edited {
  root = entry "d" (branch (entry "f" (leaf (readable (b'a' ∷ []))) empty)) empty;
}

clean_run : clean edited ≡ (ok tt, cleaned)
unfolding clean clean_files child
clean_run = refl

clean-file_at_example : file_at cleaned.root ("new" ∷ []) ≡ none
unfolding covers child
clean-file_at_example = clean-file_at edited cleaned "new" [] clean_run

abbrev written : CachedStore Bytes
written = (write_through_user edited).1

write_run : write_through_user edited ≡ (ok tt, written)
unfolding write_through_user walk walk_node is_ignored Config.store_hash_at store_hash lookup child
    store_node put_child Cache.store Stores.store get put compute_hash commit
write_run = refl

-- The file that was new is in the tree, in the cache and, as `store` ends there, at the source.
write_lookup :
    lookup (some written.config.tree) ("new" ∷ [])
    ≡ some (leaf (record { hash = compute_hash (b'b' ∷ []); size = 1 }))
unfolding write_through_user walk walk_node is_ignored Config.store_hash_at store_hash lookup child
    store_node put_child Cache.store Stores.store get put compute_hash commit
write_lookup = refl

user_files-is_map : is_map user_files ≡ true
unfolding is_map child
user_files-is_map = refl

write_through_user-Described_example : Described ("x" ∷ []) user_files written
write_through_user-Described_example =
    write_through_user-Described edited written user_files-is_map write_run

status_after_write_through_user_example : status written ≡ (ok no_changes, written)
status_after_write_through_user_example =
    status_after_write_through_user edited written user_files-is_map write_run

-- The user has replaced the file f by an empty directory.
abbrev replaced : CachedStore Bytes
replaced = record fresh {
  config = record small_config { tree = entry "f" (leaf node_of_a) empty };
  root = entry "f" (branch empty) empty;
}

replaced_lookup : lookup (some replaced.config.tree) ("f" ∷ []) ≡ some (leaf node_of_a)
unfolding lookup child
replaced_lookup = refl

status_replaces_artifact_example :
    (lookup (some (remove "/r/g" replaced).1.committed) ("f" ∷ []) ≡ some (leaf node_of_a))
    × (lookup (some (remove "/r/g" (status replaced).1).1.committed) ("f" ∷ [])
        ≡ some (branch empty))
unfolding below_root split
status_replaces_artifact_example =
    status_replaces_artifact replaced "f" "/r/g" node_of_a refl replaced_lookup refl (refl, refl)
