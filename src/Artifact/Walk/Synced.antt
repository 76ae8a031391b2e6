-- ===== src/Artifact/Walk/Synced.antt =====
-- When the tree describes the user's files: what WriteThroughUser brings about.
use mathlib.Core.List.{append_assoc, append-nil}
use goutils.Common.{
  String, ◌≡◌, refl, ap, ◌∙◌, inl, inr, ◌⊎◌, true, some, List, [], ◌∷◌, ◌++◌, eq_iff, arith,
}
use goutils.Common.Forest.{Node, Forest, leaf, branch, empty, entry}
use goutils.Artifact.Error.{Result, ok}
use goutils.Artifact.Hash.{Bytes, compute_hash}
use goutils.Artifact.Exec.{continue}
use goutils.Artifact.Tree.{TreeNodeTree, TreeNodeExternal, lookup}
use goutils.Artifact.Cache.{File, readable}
use goutils.Artifact.Walk.{Walk, Visit, tree_of, is_ignored, walk_file, enter_dir, walk_node, walk}

-- A file is ignored, or an external node at its path has the hash of its content. A directory has
-- an internal node, and so on below it.
unfoldable mutual
  pub SyncedNode : List String → TreeNodeTree → List String → String → Node File → Type 0
  SyncedNode ignored t path name (leaf file) =
      (is_ignored ignored name ≡ true)
      ⊎ ((b : Bytes) × (e : TreeNodeExternal) × (file ≡ readable b)
          × (lookup (some t) path ≡ some (leaf e))
          × (e.hash ≡ compute_hash b))
  SyncedNode ignored t path name (branch files) =
      ((f : TreeNodeTree) × (lookup (some t) path ≡ some (branch f))) × Synced ignored t path files

  pub Synced : List String → TreeNodeTree → List String → Forest File → Type 0
  Synced ignored t path empty = Unit {0}
  Synced ignored t path (entry name node rest) =
      SyncedNode ignored t (path ++ name ∷ []) name node × Synced ignored t path rest

-- Only what the tree has at and below the path matters.
abbrev pub SameBelow : TreeNodeTree → TreeNodeTree → List String → Type 0
SameBelow t t' path = (q : List String) → lookup (some t') (path ++ q) ≡ lookup (some t) (path ++ q)

same_at :
    (t t' : TreeNodeTree) (path : List String)
    → SameBelow t t' path
    → lookup (some t') path ≡ lookup (some t) path
same_at t t' path same = rw (append-nil path) at (same [])

SameBelow-child :
    (t t' : TreeNodeTree) (path : List String) (name : String)
    → SameBelow t t' path
    → SameBelow t t' (path ++ name ∷ [])
SameBelow-child t t' path name same q = rw (append_assoc path (name ∷ []) q) (same (name ∷ q))

mutual
  unfolding Synced SyncedNode

  pub SyncedNode-transfer :
      (i : List String) (t t' : TreeNodeTree) (path : List String) (name : String) (n : Node File)
      → SameBelow t t' path
      → SyncedNode i t path name n
      → SyncedNode i t' path name n
  SyncedNode-transfer i t t' path name (leaf file) same (inl h) = inl h
  SyncedNode-transfer i t t' path name (leaf file) same (inr (b, e, f, l, h)) =
      inr (b, e, f, same_at t t' path same ∙ l, h)
  SyncedNode-transfer i t t' path name (branch files) same ((f, l), h) =
      ((f, same_at t t' path same ∙ l), Synced-transfer i t t' path files same h)

  Synced-transfer :
      (i : List String) (t t' : TreeNodeTree) (path : List String) (files : Forest File)
      → SameBelow t t' path
      → Synced i t path files
      → Synced i t' path files
  Synced-transfer i t t' path empty same h = tt
  Synced-transfer i t t' path (entry name n rest) same (h, k) = (
    SyncedNode-transfer i t t' (path ++ name ∷ []) name n (SameBelow-child t t' path name same) h,
    Synced-transfer i t t' path rest same k,
  )

-- A walk over files that the tree describes visits nothing and changes nothing.
module _ {S : Type 0} (visit : Visit S) where
  walk_file-Synced :
      (path : List String) (name : String) (file : File) (w : Walk S)
      → SyncedNode w.store.config.ignore_set (tree_of w) path name (leaf file)
      → walk_file visit path name file w ≡ (ok tt, w)
  unfolding SyncedNode walk_file
  walk_file-Synced path name file w (inl h) = rw h
  walk_file-Synced path name file w (inr (b, e, f, l, h)) =
      ground (arith, eq_iff e.hash (compute_hash b))

  enter_dir-internal :
      (path : List String) (f : TreeNodeTree) (w : Walk S)
      → lookup (some (tree_of w)) path ≡ some (branch f)
      → enter_dir visit path w ≡ (ok tt, w)
  unfolding enter_dir
  enter_dir-internal path f w l = rw l

  mutual
    unfolding Synced SyncedNode walk walk_node

    walk_node-Synced :
        (path : List String) (name : String) (n : Node File) (w : Walk S)
        → SyncedNode w.store.config.ignore_set (tree_of w) path name n
        → walk_node visit path name n w ≡ (ok tt, w)
    walk_node-Synced path name (leaf file) w h = walk_file-Synced path name file w h
    walk_node-Synced path name (branch files) w h =
        ap (λ (r : Result Unit × Walk S). continue r.0 (λ _. walk visit path files) r.1)
          (enter_dir-internal path (h.0).0 w (h.0).1)
        ∙ walk-Synced path files w h.1

    pub walk-Synced :
        (path : List String) (files : Forest File) (w : Walk S)
        → Synced w.store.config.ignore_set (tree_of w) path files
        → walk visit path files w ≡ (ok tt, w)
    walk-Synced path empty w h = refl
    walk-Synced path (entry name n rest) w h =
        ap (λ (r : Result Unit × Walk S). continue r.0 (λ _. walk visit path rest) r.1)
          (walk_node-Synced (path ++ name ∷ []) name n w h.0)
        ∙ walk-Synced path rest w h.1
