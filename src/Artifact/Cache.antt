-- ===== src/Artifact/Cache.antt =====
-- artifact/cache.go: cachedStore, and emplaceFile of artifact/file.go. The mutex makes each method
-- one step. The user's files below the root directory are a hierarchy, `root`; paths into it are
-- lists of names. `committed` is the content of tree.json, which commitFn writes.
pub mod Emplace
pub mod Ensure
pub mod Frame
pub mod EnsureTree
use goutils.Common.{
  String, Bool, false, not, ◌&&◌, Option, none, some, List, [], ◌∷◌, ◌++◌, if◌then◌else◌, ltb, ◌==◌,
  str_eq,
}
use goutils.Common.Forest.{Node, Forest, leaf, branch, empty, entry, child}
use goutils.Artifact.Error.{Error, Result, ok, err, failure, wrap, is_not_found_error}
use goutils.Artifact.Hash.{Bytes, compute_hash}
use goutils.Artifact.Exec.{Exec, pure, raise, ◌>>◌}
use goutils.Artifact.Stores.{Store, FsStore}
use goutils.Artifact.Stores
use goutils.Artifact.Tree.{TreeNode, TreeNodeTree, TreeNodeExternal, is_last}
use goutils.Artifact.Tree
use goutils.Artifact.Config.{Config, split}
use goutils.Artifact.Config

-- A file that can be read, one that cannot be opened, and a link that leads nowhere.
pub data File : Type 0 where
  readable : Bytes → File
  unopenable dangling : File

-- `source` is `none` where no source store is configured: the cache's own store is then the source.
pub record CachedStore (S : Type 0) : Type 0 where
  pub cache : FsStore
  pub source : Option S
  pub config : Config
  pub root_dir : String
  pub root : Forest File
  pub committed : TreeNodeTree
  pub commit_error : Option String

-- filepath.Join(s.rootDir, to), as the names below the root directory; the last name first
abbrev push_part : List String → String → List String
push_part acc part =
    if str_eq part ""
    then acc
    else if str_eq part "."
    then acc
    else if str_eq part ".."
    then parent acc
    else part ∷ acc
  where
    parent : List String → List String
    parent [] = []
    parent (x ∷ xs) = xs

abbrev clean_parts : List String → List String → List String
clean_parts acc [] = acc
clean_parts acc (x ∷ xs) = clean_parts (push_part acc x) xs

abbrev reversed : List String → List String → List String
reversed out [] = out
reversed out (x ∷ xs) = reversed (x ∷ out) xs

unfoldable pub new_path : String → List String
unfolding split
new_path to = reversed [] (clean_parts [] (split to))

-- whether a file stands where MkdirAll wants a directory above the path
unfoldable pub blocked : Forest File → List String → Bool
blocked f [] = false
blocked f (name ∷ rest) = elim (child f name) [
  | none ↦ false
  | some (leaf file) ↦ not (is_last rest)
  | some (branch g) ↦ blocked g rest
]

module _ {S : Type 0} ⦃ops : Store S⦄ where
  unfoldable pub source_contains : CachedStore S → String → Option Error
  source_contains s hash = elim s.source [
    | none ↦ Stores.contains s.cache hash
    | some src ↦ ops.contains src hash
  ]

  unfoldable pub source_load : CachedStore S → String → Result Bytes
  source_load s hash = elim s.source [
    | none ↦ Stores.load s.cache hash
    | some src ↦ ops.load src hash
  ]

  abbrev with_cache : CachedStore S → Result FsStore → Result Unit × CachedStore S
  with_cache s (ok cache) = (ok tt, record s { cache = cache })
  with_cache s (err e) = (err e, s)

  abbrev with_source : CachedStore S → Result S → Result Unit × CachedStore S
  with_source s (ok src) = (ok tt, record s { source = some src })
  with_source s (err e) = (err e, s)

  unfoldable pub cache_store : String → Bytes → Exec (CachedStore S) Unit
  cache_store hash bytes s = with_cache s (Stores.store s.cache hash bytes)

  unfoldable pub source_store : String → Bytes → Exec (CachedStore S) Unit
  source_store hash bytes s = elim s.source [
    | none ↦ with_cache s (Stores.store s.cache hash bytes)
    | some src ↦ with_source s (ops.store src hash bytes)
  ]

  -- Contains
  unfoldable pub contains : CachedStore S → String → Option Error
  contains s hash = elim (Stores.contains s.cache hash) [
    | none ↦ none
    | some e ↦ if is_not_found_error e then source_contains s hash else some e
  ]

  -- Load
  unfoldable pub load : CachedStore S → String → Result Bytes
  load s hash = elim (Stores.load s.cache hash) [
    | ok bytes ↦ ok bytes
    | err e ↦ if is_not_found_error e then source_load s hash else err e
  ]

  -- Store and store
  unfoldable pub store : String → Bytes → Exec (CachedStore S) Unit
  unfolding source_store cache_store
  store hash bytes = do source_store hash bytes; cache_store hash bytes

  place : List String → CachedStore S → Result Bytes → Result Unit × CachedStore S
  place path s (err e) = (err e, s)
  place path s (ok bytes) =
      (ok tt, record s { root = Tree.store_node s.root (leaf (readable bytes)) path })

  emplace_new : String → List String → Exec (CachedStore S) Unit
  emplace_new hash path s =
      if blocked s.root path
      then (err (failure "not a directory"), s)
      else place path s (Stores.load s.cache hash)

  -- by what is open at the path
  emplace_over : String → List String → Option (Node File) → Exec (CachedStore S) Unit
  emplace_over hash path (some (leaf (readable bytes))) s =
      if str_eq (compute_hash bytes) hash
      then (ok tt, s)
      else emplace_new hash path (record s { root = Tree.remove_path s.root path })
  emplace_over hash path (some (branch f)) s = (err (failure "is a directory"), s)
  emplace_over hash path _ s = emplace_new hash path s

  -- emplaceFile(s.cache, hash, path)
  unfoldable pub emplace_file : String → List String → Exec (CachedStore S) Unit
  unfolding emplace_over emplace_new place
  emplace_file hash path s = elim (Stores.contains s.cache hash) [
    | some e ↦ (err e, s)
    | none ↦ emplace_over hash path (Tree.lookup (some s.root) path) s
  ]

  abbrev wrapped : String → Result Unit × CachedStore S → Result Unit × CachedStore S
  wrapped m (ok u, s) = (ok u, s)
  wrapped m (err e, s) = (err (wrap m e), s)

  emplace : String → List String → Exec (CachedStore S) (Option (List String))
  unfolding emplace_file
  emplace hash dst = do
    (λ s. wrapped "error emplacing into file system cache" (emplace_file hash dst s))
    pure (some dst)

  pulled :
      TreeNodeExternal → List String → Result Bytes → Exec (CachedStore S) (Option (List String))
  unfolding emplace cache_store
  pulled e dst (err x) = raise (wrap "error loading from source cache" x)
  pulled e dst (ok bytes) = do
    (λ s. wrapped "error storing into file system cache" (cache_store e.hash bytes s))
    emplace e.hash dst

  pull : Bool → TreeNodeExternal → List String → Exec (CachedStore S) (Option (List String))
  unfolding pulled
  pull ignore_limit e dst s =
      let limit = s.config.source_pull_size_limit in
      if not ignore_limit && (not (limit == 0) && ltb limit e.size)
      then (ok none, s)
      else pulled e dst (source_load s e.hash) s

  -- ensureNode at an external node; `none` is the empty path of an artifact over the limit
  unfoldable pub ensure_leaf :
      Bool → TreeNodeExternal → List String → Exec (CachedStore S) (Option (List String))
  unfolding emplace pull
  ensure_leaf ignore_limit e dst s = elim (Stores.contains s.cache e.hash) [
    | none ↦ emplace e.hash dst s
    | some x ↦
        if is_not_found_error x
        then pull ignore_limit e dst s
        else (err (wrap "error checking if hash is in file system cache" x), s)
  ]

  unfoldable mutual
    unfolding ensure_leaf

    -- ensureNode
    pub ensure_node : Bool → List String → TreeNode → Exec (CachedStore S) (Option (List String))
    ensure_node ignore_limit dst (leaf e) = ensure_leaf ignore_limit e dst
    ensure_node ignore_limit dst (branch f) = do ensure_nodes ignore_limit dst f; pure (some dst)

    -- its loop over the children
    pub ensure_nodes : Bool → List String → TreeNodeTree → Exec (CachedStore S) Unit
    ensure_nodes ignore_limit dst empty = pure tt
    ensure_nodes ignore_limit dst (entry name node rest) = do
      ensure_node ignore_limit (dst ++ name ∷ []) node
      ensure_nodes ignore_limit dst rest

  ensure_found : Bool → List String → Result TreeNode → Exec (CachedStore S) (Option (List String))
  ensure_found ignore_limit dst (err e) = raise e
  ensure_found ignore_limit dst (ok node) = ensure_node ignore_limit dst node

  -- Ensure
  unfoldable pub ensure : String → Bool → Exec (CachedStore S) (Option (List String))
  unfolding ensure_found
  ensure path ignore_limit s =
      ensure_found ignore_limit (new_path path) (Config.lookup s.config path) s

  -- commitFn
  unfoldable pub commit : Exec (CachedStore S) Unit
  commit s = elim s.commit_error [
    | some e ↦ (err (failure e), s)
    | none ↦ (ok tt, record s { committed = s.config.tree })
  ]
