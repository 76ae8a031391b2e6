-- ===== src/Artifact/Walk/WriteThrough.antt =====
-- WriteThroughUser makes the tree describe the user's files, and Status then has nothing to say.
use mathlib.Core.List.{append_assoc}
use goutils.Common.{
  String, ◌≡◌, refl, sym, subst, ap, ◌∙◌, inl, inr, true, false, Option, none, some, List, [], ◌∷◌,
  ◌++◌, eq_iff, arith, Bool-cases, Option-cases, length,
}
use goutils.Common.Forest.{Node, Forest, leaf, branch, empty, entry, child}
use goutils.Artifact.Error.{Result, ok, err}
use goutils.Artifact.Hash.{Bytes, compute_hash}
use goutils.Artifact.Exec.{continue}
use goutils.Artifact.Stores.{Store}
use goutils.Artifact.Tree.{TreeNode, TreeNodeTree, TreeNodeExternal, lookup, store_node, store_hash}
use goutils.Artifact.Tree.Maps.{is_map, is_map_node}
use goutils.Artifact.Tree.Siblings.{NamesApart, NamesApart-absent}
use goutils.Artifact.Tree.Lookup.{lookup-store_node}
use goutils.Artifact.Cache.{File, readable, unopenable, dangling, CachedStore, commit}
use goutils.Artifact.Cache
use goutils.Artifact.Config
use goutils.Artifact.Walk.Writes.{IsDir, walk-IsDir, walk-Apart, walk-Wrote, walk_node-Wrote}
use goutils.Artifact.Walk.Synced.{Synced, SyncedNode, SyncedNode-transfer, SameBelow, walk-Synced}
use goutils.Artifact.Walk.{
  in_walk, hash_stored, Walk, Status, start, finish, tree_of, with_tree, is_ignored, is_stored,
  needs_map, change_of, write_change, write_through_user, status, record_change, walk_file,
  open_file, enter_dir, walk_node, walk,
}

lookup-write :
    (d : List String) (x : String) (t : TreeNodeTree) (n : TreeNode)
    → lookup (some (store_node t n (d ++ x ∷ []))) (d ++ x ∷ []) ≡ some n
lookup-write [] x t n = lookup-store_node t n x []
lookup-write (y ∷ d) x t n = lookup-store_node t n y (d ++ x ∷ [])

-- the tree has the hash of the bytes at the path
abbrev Stored : List String → Bytes → TreeNodeTree → Type 0
Stored p b t =
    (e : TreeNodeExternal) × (lookup (some t) p ≡ some (leaf e)) × (e.hash ≡ compute_hash b)

is_stored-Stored :
    (p : List String) (b : Bytes) (t : TreeNodeTree) (o : Option TreeNode)
    → lookup (some t) p ≡ o
    → is_stored o (compute_hash b) ≡ true
    → Stored p b t
is_stored-Stored p b t none l h = absurd (cc)
is_stored-Stored p b t (some (leaf e)) l h = (e, l, (eq_iff e.hash (compute_hash b)).0 h)
is_stored-Stored p b t (some (branch f)) l h = absurd (cc)

internal_IsDir :
    (t : TreeNodeTree) (p : List String) (o : Option TreeNode)
    → lookup (some t) p ≡ o
    → needs_map o ≡ false
    → IsDir t p
internal_IsDir t p none l h = absurd (cc)
internal_IsDir t p (some (leaf e)) l h = absurd (cc)
internal_IsDir t p (some (branch f)) l h = (f, l)

abbrev pub no_changes : Status
no_changes = record { unstored_paths = []; modified_paths = [] }

module _ {S : Type 0} ⦃ops : Store S⦄ where
  -- after a success the property holds of the tree
  abbrev Gives : (TreeNodeTree → Type 0) → Result Unit × Walk S → Type 0
  Gives P (ok u, w) = P (tree_of w)
  Gives P (err e, w) = Unit

  Gives-map :
      (P Q : TreeNodeTree → Type 0) (r : Result Unit × Walk S)
      → ((t : TreeNodeTree) → P t → Q t)
      → Gives P r
      → Gives Q r
  Gives-map P Q (ok u, w) f h = f (tree_of w) h
  Gives-map P Q (err e, w) f h = tt

  after_write :
      (d : List String) (x : String) (b : Bytes) (w : Walk S) (r : Result Unit × CachedStore S)
      → Gives (Stored (d ++ x ∷ []) b) (
          continue
            (in_walk w r).0
            (λ _. hash_stored (compute_hash b) (length b) (d ++ x ∷ []))
            (in_walk w r).1)
  unfolding Config.store_hash_at store_hash
  after_write d x b w (ok u, s) = (_, lookup-write d x s.config.tree _, refl)
  after_write d x b w (err e, s) = tt

  walk_file-Gives :
      (d : List String) (x : String) (i : List String) (file : File) (w : Walk S)
      → w.store.config.ignore_set ≡ i
      → Gives
          (λ t. SyncedNode i t (d ++ x ∷ []) x (leaf file))
          (walk_file write_change (d ++ x ∷ []) x file w)
  unfolding walk_file SyncedNode write_change
  walk_file-Gives d x i file w c = elim (Bool-cases (is_ignored w.store.config.ignore_set x)) [
    | inl e ↦ rw e (inl (subst (λ j. is_ignored j x ≡ true) c e))
    | inr e ↦ rw e (opened file)
  ]
    where
      opened :
          (file : File)
          → Gives
              (λ t. SyncedNode i t (d ++ x ∷ []) x (leaf file))
              (open_file write_change (d ++ x ∷ []) file w)
      opened dangling = tt
      opened unopenable = tt
      opened (readable b) =
          elim (Bool-cases (is_stored (lookup (some (tree_of w)) (d ++ x ∷ [])) (compute_hash b))) [
            | inl e ↦ rw e (
                let (n, l, h) =
                  is_stored-Stored (d ++ x ∷ []) b (tree_of w)
                    (lookup (some (tree_of w)) (d ++ x ∷ [])) refl e in
                inr (b, n, refl, l, h))
            | inr e ↦ rw e (
                Gives-map (Stored (d ++ x ∷ []) b)
                  (λ t. SyncedNode i t (d ++ x ∷ []) x (leaf (readable b)))
                  (write_change (change_of (lookup (some (tree_of w)) (d ++ x ∷ [])))
                    (compute_hash b) (d ++ x ∷ []) b w)
                  (λ t m. inr (b, m.0, refl, m.1, m.2))
                  (after_write d x b w (Cache.store (compute_hash b) b w.store)))
          ]

  enter_dir-IsDir :
      (d : List String) (x : String) (w : Walk S)
      → (v : Walk S) × (enter_dir write_change (d ++ x ∷ []) w ≡ (ok tt, v))
        × IsDir (tree_of v) (d ++ x ∷ [])
        × (v.store.config.ignore_set ≡ w.store.config.ignore_set)
  unfolding enter_dir
  enter_dir-IsDir d x w = elim (Bool-cases (needs_map (lookup (some (tree_of w)) (d ++ x ∷ [])))) [
    | inl e ↦ (
      with_tree (store_node (tree_of w) (branch empty) (d ++ x ∷ [])) w,
      rw e,
      (empty, lookup-write d x (tree_of w) (branch empty)),
      refl,
    )
    | inr e ↦ (
      w,
      rw e,
      internal_IsDir (tree_of w) (d ++ x ∷ []) (lookup (some (tree_of w)) (d ++ x ∷ [])) refl e,
      refl,
    )
  ]

  -- one entry is described, and the walk over the others leaves it so
  both-Gives :
      (path : List String) (name : String) (n : Node File) (rest : Forest File) (i : List String)
      (v : Walk S) (r : Result Unit × Walk S)
      → SyncedNode i (tree_of v) (path ++ name ∷ []) name n
      → ((q : List String)
          → NamesApart path rest q
          → lookup (some (tree_of r.1)) q ≡ lookup (some (tree_of v)) q)
      → child rest name ≡ none
      → Gives (λ t. Synced i t path rest) r
      → Gives (λ t. SyncedNode i t (path ++ name ∷ []) name n × Synced i t path rest) r
  both-Gives path name n rest i v (err e, w) h same absent k = tt
  both-Gives path name n rest i v (ok u, w) h same absent k =
      (SyncedNode-transfer i (tree_of v) (tree_of w) (path ++ name ∷ []) name n below h, k)
    where
      below : SameBelow (tree_of v) (tree_of w) (path ++ name ∷ [])
      below q =
          rw (append_assoc path (name ∷ []) q)
            (same (path ++ name ∷ q) (NamesApart-absent path rest name q absent))

  seq-Gives :
      (path : List String) (name : String) (n : Node File) (rest : Forest File) (i : List String)
      (r : Result Unit × Walk S)
      → Gives (λ t. SyncedNode i t (path ++ name ∷ []) name n) r
      → r.1.store.config.ignore_set ≡ i
      → child rest name ≡ none
      → ((v : Walk S)
          → v.store.config.ignore_set ≡ i
          → Gives (λ t. Synced i t path rest) (walk write_change path rest v))
      → Gives
          (λ t. SyncedNode i t (path ++ name ∷ []) name n × Synced i t path rest)
          (continue r.0 (λ _. walk write_change path rest) r.1)
  seq-Gives path name n rest i (err e, v) h c absent k = tt
  seq-Gives path name n rest i (ok u, v) h c absent k =
      both-Gives path name n rest i v (walk write_change path rest v) h
        (λ q. walk-Apart path rest v q) absent (k v c)

  dir-Gives :
      (p : List String) (files : Forest File) (i : List String) (r : Result Unit × Walk S)
      → Gives (λ t. Synced i t p files) r
      → IsDir (tree_of r.1) p
      → Gives
          (λ t. ((f : TreeNodeTree) × (lookup (some t) p ≡ some (branch f))) × Synced i t p files)
          r
  dir-Gives p files i (err e, w) h d = tt
  dir-Gives p files i (ok u, w) h d = (d, h)

  enter-Gives :
      (d : List String) (x : String) (files : Forest File) (i : List String) (w : Walk S)
      → w.store.config.ignore_set ≡ i
      → ((v : Walk S)
          → v.store.config.ignore_set ≡ i
          → Gives (λ t. Synced i t (d ++ x ∷ []) files) (walk write_change (d ++ x ∷ []) files v))
      → Gives
          (λ t.
            ((f : TreeNodeTree) × (lookup (some t) (d ++ x ∷ []) ≡ some (branch f)))
            × Synced i t (d ++ x ∷ []) files)
          (continue
            (enter_dir write_change (d ++ x ∷ []) w).0
            (λ _. walk write_change (d ++ x ∷ []) files)
            (enter_dir write_change (d ++ x ∷ []) w).1)
  enter-Gives d x files i w c k =
      let (v, e, dir, same) = enter_dir-IsDir d x w in
      subst
        (λ (r : Result Unit × Walk S).
          Gives
            (λ t.
              ((f : TreeNodeTree) × (lookup (some t) (d ++ x ∷ []) ≡ some (branch f)))
              × Synced i t (d ++ x ∷ []) files)
            (continue r.0 (λ _. walk write_change (d ++ x ∷ []) files) r.1))
        (sym e)
        (dir-Gives (d ++ x ∷ []) files i (walk write_change (d ++ x ∷ []) files v) (k v (same ∙ c))
          (walk-IsDir d x files v dir))

  mutual
    unfolding walk walk_node is_map is_map_node Synced SyncedNode

    node-Gives :
        (d : List String) (x : String) (i : List String) (n : Node File) (w : Walk S)
        → is_map_node n ≡ true
        → w.store.config.ignore_set ≡ i
        → Gives (λ t. SyncedNode i t (d ++ x ∷ []) x n) (walk_node write_change (d ++ x ∷ []) x n w)
    node-Gives d x i (leaf file) w m c = walk_file-Gives d x i file w c
    node-Gives d x i (branch files) w m c =
        enter-Gives d x files i w c (λ v e. walk-Gives (d ++ x ∷ []) i files v m e)

    walk-Gives :
        (path : List String) (i : List String) (files : Forest File) (w : Walk S)
        → is_map files ≡ true
        → w.store.config.ignore_set ≡ i
        → Gives (λ t. Synced i t path files) (walk write_change path files w)
    walk-Gives path i empty w m c = tt
    walk-Gives path i (entry name n rest) w m c =
        seq-Gives path name n rest i (walk_node write_change (path ++ name ∷ []) name n w)
          (node-Gives path name i n w (ground arith) c)
          ((walk_node-Wrote (path ++ name ∷ []) name n w).1 ∙ c) (ground arith)
          (λ v e. walk-Gives path i rest v (ground arith) e)

  -- The tree, as it is in memory and on disk, describes the files, which are as they were.
  pub record Described (i : List String) (files : Forest File) (s : CachedStore S) : Type 0 where
    pub synced : Synced i s.config.tree [] files
    pub ignores : s.config.ignore_set ≡ i
    pub same_root : s.root ≡ files
    pub written : s.committed ≡ s.config.tree

  commit-Described :
      (i : List String) (files : Forest File) (s s' : CachedStore S)
      → Synced i s.config.tree [] files
      → s.config.ignore_set ≡ i
      → s.root ≡ files
      → commit s ≡ (ok tt, s')
      → Described i files s'
  unfolding commit
  commit-Described i files s s' h c d run = elim (Option-cases s.commit_error) [
    | inr (m, e) ↦ absurd (ground arith)
    | inl e ↦
        subst (Described i files)
          (let q : record s { committed = s.config.tree } ≡ s' = ground arith in q)
          (record { synced = h; ignores = c; same_root = d; written = refl })
  ]

  finish-Described :
      (i : List String) (files : Forest File) (r : Result Unit × Walk S) (s' : CachedStore S)
      → Gives (λ t. Synced i t [] files) r
      → r.1.store.config.ignore_set ≡ i
      → r.1.store.root ≡ files
      → continue (finish (λ w u. u) r).0 (λ _. commit) (finish (λ w u. u) r).1 ≡ (ok tt, s')
      → Described i files s'
  finish-Described i files (err e, w) s' h c d run = absurd (cc)
  finish-Described i files (ok u, w) s' h c d run = commit-Described i files w.store s' h c d run

  -- When WriteThroughUser succeeds, every file below the root directory that is not ignored is in
  -- the tree with the hash of its content, every directory is an internal node, the tree on disk
  -- is the one in memory, and the files themselves have not changed.
  pub write_through_user-Described :
      (s s' : CachedStore S)
      → is_map s.root ≡ true
      → write_through_user s ≡ (ok tt, s')
      → Described s.config.ignore_set s.root s'
  unfolding write_through_user
  write_through_user-Described s s' m run =
      finish-Described s.config.ignore_set s.root (walk write_change [] s.root (start s)) s'
        (walk-Gives [] s.config.ignore_set s.root (start s) m refl)
        (walk-Wrote [] s.root (start s)).1 (walk-Wrote [] s.root (start s)).2 run

  status-Described :
      (i : List String) (s : CachedStore S)
      → Synced s.config.ignore_set s.config.tree [] s.root
      → status s ≡ (ok no_changes, s)
  unfolding status
  status-Described i s h =
      ap (λ (r : Result Unit × Walk S). finish (λ w _. w.status) r)
        (walk-Synced record_change [] s.root (start s) h)

  -- Right after WriteThroughUser has succeeded, Status reports no file and changes nothing.
  pub status_after_write_through_user :
      (s s' : CachedStore S)
      → is_map s.root ≡ true
      → write_through_user s ≡ (ok tt, s')
      → status s' ≡ (ok no_changes, s')
  status_after_write_through_user s s' m run =
      let d = write_through_user-Described s s' m run in
      status-Described [] s' (rw (d.ignores, d.same_root) d.synced)
