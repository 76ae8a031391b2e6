-- ===== src/Artifact/Walk.antt =====
-- artifact/cache.go: the methods of cachedStore that go through the user's files: Remove, Clean,
-- WriteThroughUser and Status. The walk is at the map that stands in the tree at its path, so
-- `tree[name]` is looked up, and written, in the whole tree. A link to a directory and a directory
-- that cannot be listed are not modelled.
pub mod Clean
pub mod Synced
pub mod Writes
pub mod WriteThrough
pub mod StatusEffect
use goutils.Common.{
  ℕ, String, Bool, true, false, ◌||◌, ◌&&◌, not, Option, none, some, List, [], ◌∷◌, ◌++◌,
  if◌then◌else◌, str_eq, length, after_prefix, trim_prefix,
}
use goutils.Common.Forest.{Node, Forest, leaf, branch, empty, entry, child, remove_child, put_child}
use goutils.Artifact.Error.{Error, Result, ok, err, failure, wrap}
use goutils.Artifact.Hash.{Bytes, compute_hash}
use goutils.Artifact.Exec.{Exec, pure, raise, continue, ◌>>=◌, ◌>>◌}
use goutils.Artifact.Stores.{Store}
use goutils.Artifact.Tree.{TreeNode, TreeNodeTree, TreeNodeExternal, is_internal}
use goutils.Artifact.Tree
use goutils.Artifact.Config.{Config}
use goutils.Artifact.Config
use goutils.Artifact.Cache.{File, readable, unopenable, dangling, CachedStore, commit}
use goutils.Artifact.Cache

pub data ChangeType : Type 0 where
  unstored modified : ChangeType

pub record Status : Type 0 where
  pub unstored_paths : List (List String)
  pub modified_paths : List (List String)

-- what a visit of the walk may change
pub record Walk (S : Type 0) : Type 0 where
  pub store : CachedStore S
  pub status : Status

abbrev pub tree_of : {S : Type 0} → Walk S → TreeNodeTree
tree_of w = w.store.config.tree

abbrev pub with_tree : {S : Type 0} → TreeNodeTree → Walk S → Walk S
with_tree t w = record w { store = record w.store { config = record w.store.config { tree = t } } }

-- s.config.ignoreSet[name]
unfoldable pub is_ignored : List String → String → Bool
is_ignored [] name = false
is_ignored (x ∷ xs) name = str_eq x name || is_ignored xs name

abbrev pub Visit : Type 0 → Type 0
Visit S = ChangeType → String → List String → Bytes → Exec (Walk S) Unit

abbrev pub change_of : Option TreeNode → ChangeType
change_of none = unstored
change_of (some n) = modified

-- hasExistingNode && !existingNode.IsInternal() && existingNode.external.Hash == nodeHash
abbrev pub is_stored : Option TreeNode → String → Bool
is_stored none hash = false
is_stored (some (leaf e)) hash = str_eq e.hash hash
is_stored (some (branch f)) hash = false

-- whether `tree[name]` is to be replaced by an empty map before the walk goes down
abbrev pub needs_map : Option TreeNode → Bool
needs_map none = true
needs_map (some n) = not (is_internal n)

module _ {S : Type 0} (visit : Visit S) where
  open_file : List String → File → Exec (Walk S) Unit
  open_file path dangling w = (err (failure "no such file"), w)
  open_file path unopenable w =
      (err (wrap "error opening file to write through cache" (failure "permission denied")), w)
  open_file path (readable bytes) w =
      let existing = Tree.lookup (some (tree_of w)) path in
      if is_stored existing (compute_hash bytes)
      then (ok tt, w)
      else visit (change_of existing) (compute_hash bytes) path bytes w

  -- the body of the loop at a file
  unfoldable pub walk_file : List String → String → File → Exec (Walk S) Unit
  unfolding open_file
  walk_file path name file w =
      if is_ignored w.store.config.ignore_set name then (ok tt, w) else open_file path file w

  -- the map that the walk goes down into
  unfoldable pub enter_dir : List String → Exec (Walk S) Unit
  enter_dir path w =
      if needs_map (Tree.lookup (some (tree_of w)) path)
      then (ok tt, with_tree (Tree.store_node (tree_of w) (branch empty) path) w)
      else (ok tt, w)

  -- walkUserTreeUncached
  unfoldable mutual
    unfolding walk_file enter_dir

    pub walk_node : List String → String → Node File → Exec (Walk S) Unit
    walk_node path name (leaf file) = walk_file path name file
    walk_node path name (branch files) = do enter_dir path; walk path files

    pub walk : List String → Forest File → Exec (Walk S) Unit
    walk path empty = pure tt
    walk path (entry name node rest) = do walk_node (path ++ name ∷ []) name node; walk path rest

abbrev start : {S : Type 0} → CachedStore S → Walk S
start s = record { store = s; status = record { unstored_paths = []; modified_paths = [] } }

abbrev finish : {S A B : Type 0} → (Walk S → A → B) → Result A × Walk S → Result B × CachedStore S
finish f (ok a, w) = (ok (f w a), w.store)
finish f (err e, w) = (err e, w.store)

-- the visit of status
unfoldable pub record_change : {S : Type 0} → Visit S
record_change unstored hash path bytes w = (
  ok tt,
  record w { status = record w.status { unstored_paths = w.status.unstored_paths ++ path ∷ [] } },
)
record_change modified hash path bytes w = (
  ok tt,
  record w { status = record w.status { modified_paths = w.status.modified_paths ++ path ∷ [] } },
)

-- Status and status
unfoldable pub status : {S : Type 0} → Exec (CachedStore S) Status
unfolding record_change
status s = finish (λ w _. w.status) (walk record_change [] s.root (start s))

-- The path that Remove takes away, without the root directory and a leading slash.
unfoldable pub below_root : String → String → String
below_root root_dir path =
    let below : String = elim (after_prefix root_dir path) [
      | none ↦ path
      | some rest ↦ elim (after_prefix "/" rest) [ none ↦ path | some inner ↦ inner ]
    ] in
    if str_eq below "/" then below else trim_prefix below "/"

-- An error ends the loop; what stands behind the child is then not looked at.
abbrev after_child :
    String
    → Forest File
    → Result Unit × Node File
    → Result Unit × Forest File
    → Result Unit × Forest File
after_child name rest (ok u, node) (r, rest') = (r, entry name node rest')
after_child name rest (err e, node) (r, rest') = (err e, entry name node rest)

-- The body of the loop, by what the tree has under the name.
unfoldable pub keep_or_drop :
    Option TreeNode
    → (TreeNodeTree → Result Unit × Node File)
    → String
    → Node File
    → Forest File
    → Result Unit × Forest File
    → Result Unit × Forest File
keep_or_drop none cleaned name node rest (r, rest') = (r, rest')
keep_or_drop (some (leaf e)) cleaned name node rest (r, rest') = (r, entry name node rest')
keep_or_drop (some (branch g)) cleaned name node rest after =
    after_child name rest (cleaned g) after

-- An internal node at a place where the user has a file is an error of ReadDir.
unfoldable mutual
  unfolding keep_or_drop

  pub clean_node : TreeNodeTree → Node File → Result Unit × Node File
  clean_node t (leaf file) = (err (failure "not a directory"), leaf file)
  clean_node t (branch files) = let (r, files') = clean_files t files in (r, branch files')

  pub clean_files : TreeNodeTree → Forest File → Result Unit × Forest File
  clean_files t empty = (ok tt, empty)
  clean_files t (entry name node rest) =
      keep_or_drop (child t name) (λ g. clean_node g node) name node rest (clean_files t rest)

module _ {S : Type 0} ⦃ops : Store S⦄ where
  abbrev in_walk : Walk S → Result Unit × CachedStore S → Result Unit × Walk S
  in_walk w (r, s) = (r, record w { store = s })

  -- s.config.StoreHash
  abbrev hash_stored : String → ℕ → List String → Exec (Walk S) Unit
  hash_stored hash size path w =
      (ok tt, with_tree (Config.store_hash_at w.store.config hash size path).tree w)

  -- the visit of writeThroughUserTree
  unfoldable pub write_change : Visit S
  unfolding Config.store_hash_at
  write_change change hash path bytes = do
    (λ w. in_walk w (Cache.store hash bytes w.store))
    hash_stored hash (length bytes) path

  -- WriteThroughUser
  unfoldable pub write_through_user : Exec (CachedStore S) Unit
  unfolding write_change
  write_through_user = do (λ s. finish (λ w u. u) (walk write_change [] s.root (start s))); commit

  -- Remove
  unfoldable pub remove : String → Exec (CachedStore S) Unit
  unfolding Config.remove_path
  remove path = do
    (λ s. (ok tt, record s { config = Config.remove_path s.config (below_root s.root_dir path) }))
    commit

  -- Clean and cleanTree
  unfoldable pub clean : Exec (CachedStore S) Unit
  unfolding clean_files
  clean s = let (r, files) = clean_files s.config.tree s.root in (r, record s { root = files })
