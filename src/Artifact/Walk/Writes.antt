-- ===== src/Artifact/Walk/Writes.antt =====
-- What a walk that writes through may change in the tree.
use mathlib.Core.List.{append_assoc, append-nil}
use goutils.Common.{
  String, ◌≡◌, refl, sym, subst, ap, ◌∙◌, inl, inr, some, List, [], ◌∷◌, ◌++◌, arith, Bool-cases,
  length,
}
use goutils.Common.Forest.{Node, Forest, leaf, branch, empty, entry}
use goutils.Artifact.Error.{Result, ok, err}
use goutils.Artifact.Hash.{Bytes, compute_hash}
use goutils.Artifact.Exec.{Exec, continue}
use goutils.Artifact.Stores.{Store}
use goutils.Artifact.Tree.{TreeNode, TreeNodeTree, lookup, store_node, store_hash}
use goutils.Artifact.Tree.Paths.{Apart, Apart-append}
use goutils.Artifact.Tree.Siblings.{NamesApart}
use goutils.Artifact.Tree.Lookup.{lookup-store_node-Apart, lookup-store_node_above}
use goutils.Artifact.Cache.{File, readable, unopenable, dangling, CachedStore}
use goutils.Artifact.Cache
use goutils.Artifact.Config
use goutils.Artifact.Walk.{
  in_walk, hash_stored, Walk, ChangeType, tree_of, is_ignored, is_stored, needs_map, change_of,
  write_change, walk_file, open_file, enter_dir, walk_node, walk,
}

-- A run of writes at a path and below it.
pub data Writes (p : List String) (t : TreeNodeTree) : TreeNodeTree → Type 0 where
  done : Writes p t t
  wrote :
      {u v : TreeNodeTree} (n : TreeNode) (r : List String)
      → Writes p t u
      → v ≡ store_node u n (p ++ r)
      → Writes p t v

Writes-trans : {p : List String} {t u v : TreeNodeTree} → Writes p t u → Writes p u v → Writes p t v
Writes-trans a done = a
Writes-trans a (wrote n r b e) = wrote n r (Writes-trans a b) e

Writes-child :
    (p : List String) (x : String) {t u : TreeNodeTree} → Writes (p ++ x ∷ []) t u → Writes p t u
Writes-child p x done = done
Writes-child p x (wrote {u = u} n r a e) =
    wrote n (x ∷ r) (Writes-child p x a) (e ∙ ap (store_node u n) (append_assoc p (x ∷ []) r))

Writes-Apart :
    {p : List String} {t u : TreeNodeTree} (q : List String)
    → Writes p t u
    → Apart p q
    → lookup (some u) q ≡ lookup (some t) q
Writes-Apart q done h = refl
Writes-Apart {p} q (wrote {u = u} n r a e) h =
    rw e (lookup-store_node-Apart u n (p ++ r) q (Apart-append p q r h) ∙ Writes-Apart q a h)

-- An internal node stands at the path.
abbrev pub IsDir : TreeNodeTree → List String → Type 0
IsDir t p = (f : TreeNodeTree) × (lookup (some t) p ≡ some (branch f))

store_node-IsDir :
    (t : TreeNodeTree) (n : TreeNode) (d : List String) (x y : String) (q : List String)
    → IsDir (store_node t n (d ++ x ∷ y ∷ q)) (d ++ x ∷ [])
store_node-IsDir t n [] x y q = lookup-store_node_above t n x [] y q
store_node-IsDir t n (z ∷ d) x y q =
    rw (← append_assoc (z ∷ d) (x ∷ []) (y ∷ q)) (lookup-store_node_above t n z (d ++ x ∷ []) y q)

Writes-IsDir :
    (d : List String) (x y : String) {t u : TreeNodeTree}
    → Writes ((d ++ x ∷ []) ++ y ∷ []) t u
    → IsDir t (d ++ x ∷ [])
    → IsDir u (d ++ x ∷ [])
Writes-IsDir d x y done h = h
Writes-IsDir d x y (wrote {u = u} n r a e) h =
    rw (e, append_assoc (d ++ x ∷ []) (y ∷ []) r, append_assoc d (x ∷ []) (y ∷ r))
      (store_node-IsDir u n d x y r)

-- one write at the path itself
write_at :
    (p : List String) {t u v : TreeNodeTree} (n : TreeNode)
    → u ≡ t
    → v ≡ store_node u n p
    → Writes p t v
write_at p {t} n e f =
    wrote n [] done (f ∙ ap (λ x. store_node x n p) e ∙ ap (store_node t n) (sym (append-nil p)))

module _ {S : Type 0} ⦃ops : Store S⦄ where
  -- from one state of the walk to a later one
  abbrev pub Wrote : List String → Walk S → Walk S → Type 0
  Wrote p w w' =
      Writes p (tree_of w) (tree_of w')
      × (w'.store.config.ignore_set ≡ w.store.config.ignore_set)
      × (w'.store.root ≡ w.store.root)

  Wrote-refl : (p : List String) (w : Walk S) → Wrote p w w
  Wrote-refl p w = (done, refl, refl)

  Wrote-trans : (p : List String) (u v w : Walk S) → Wrote p u v → Wrote p v w → Wrote p u w
  Wrote-trans p u v w (a, b, c) (a', b', c') = (Writes-trans a a', b' ∙ b, c' ∙ c)

  config-store :
      (hash : String) (bytes : Bytes) (s : CachedStore S)
      → ((Cache.store hash bytes s).1.config ≡ s.config)
        × ((Cache.store hash bytes s).1.root ≡ s.root)
  unfolding Cache.store
  config-store hash bytes s = ground arith

  stored-Wrote :
      (hash : String) (path : List String) (bytes : Bytes) (w : Walk S)
      (r : Result Unit × CachedStore S)
      → (r.1.config ≡ w.store.config) × (r.1.root ≡ w.store.root)
      → Wrote path w
          (continue (in_walk w r).0 (λ _. hash_stored hash (length bytes) path) (in_walk w r).1).1
  unfolding Config.store_hash_at store_hash
  stored-Wrote hash path bytes w (err e, s) (c, d) =
      (subst (Writes path (tree_of w)) (ap (λ x. x.tree) (sym c)) done, ap (λ x. x.ignore_set) c, d)
  stored-Wrote hash path bytes w (ok u, s) (c, d) = (
    write_at path (leaf (record { hash = hash; size = length bytes })) (ap (λ x. x.tree) c) refl,
    ap (λ x. x.ignore_set) c,
    d,
  )

  write_change-Wrote :
      (c : ChangeType) (hash : String) (path : List String) (bytes : Bytes) (w : Walk S)
      → Wrote path w (write_change c hash path bytes w).1
  unfolding write_change
  write_change-Wrote c hash path bytes w =
      stored-Wrote hash path bytes w (Cache.store hash bytes w.store)
        (config-store hash bytes w.store)

  walk_file-Wrote :
      (path : List String) (name : String) (file : File) (w : Walk S)
      → Wrote path w (walk_file write_change path name file w).1
  unfolding walk_file
  walk_file-Wrote path name file w = elim (Bool-cases (is_ignored w.store.config.ignore_set name)) [
    | inl e ↦ rw e (Wrote-refl path w)
    | inr e ↦ rw e (opened file)
  ]
    where
      opened : (file : File) → Wrote path w (open_file write_change path file w).1
      opened dangling = Wrote-refl path w
      opened unopenable = Wrote-refl path w
      opened (readable b) =
          elim (Bool-cases (is_stored (lookup (some (tree_of w)) path) (compute_hash b))) [
            | inl e ↦ rw e (Wrote-refl path w)
            | inr e ↦ rw e (
                write_change-Wrote (change_of (lookup (some (tree_of w)) path)) (compute_hash b)
                  path b w)
          ]

  pub enter_dir-Wrote :
      (path : List String) (w : Walk S) → Wrote path w (enter_dir write_change path w).1
  unfolding enter_dir
  enter_dir-Wrote path w = elim (Bool-cases (needs_map (lookup (some (tree_of w)) path))) [
    | inl e ↦ rw e (write_at path (branch empty) refl refl, refl, refl)
    | inr e ↦ rw e (Wrote-refl path w)
  ]

  Wrote-child :
      (p : List String) (x : String) (w w' : Walk S) → Wrote (p ++ x ∷ []) w w' → Wrote p w w'
  Wrote-child p x w w' (a, b, c) = (Writes-child p x a, b, c)

  -- a step and then the rest
  seq-Wrote :
      (p : List String) (w : Walk S) (r : Result Unit × Walk S) (m : Exec (Walk S) Unit)
      → Wrote p w r.1
      → ((v : Walk S) → Wrote p v (m v).1)
      → Wrote p w (continue r.0 (λ _. m) r.1).1
  seq-Wrote p w (ok u, v) m a b = Wrote-trans p w v (m v).1 a (b v)
  seq-Wrote p w (err e, v) m a b = a

  mutual
    unfolding walk walk_node

    pub walk_node-Wrote :
        (path : List String) (name : String) (n : Node File) (w : Walk S)
        → Wrote path w (walk_node write_change path name n w).1
    walk_node-Wrote path name (leaf file) w = walk_file-Wrote path name file w
    walk_node-Wrote path name (branch files) w =
        seq-Wrote path w (enter_dir write_change path w) (walk write_change path files)
          (enter_dir-Wrote path w) (λ v. walk-Wrote path files v)

    pub walk-Wrote :
        (path : List String) (files : Forest File) (w : Walk S)
        → Wrote path w (walk write_change path files w).1
    walk-Wrote path empty w = Wrote-refl path w
    walk-Wrote path (entry name n rest) w =
        seq-Wrote path w (walk_node write_change (path ++ name ∷ []) name n w)
          (walk write_change path rest)
          (Wrote-child path name w (walk_node write_change (path ++ name ∷ []) name n w).1
            (walk_node-Wrote (path ++ name ∷ []) name n w))
          (λ v. walk-Wrote path rest v)

  seq-Apart :
      (q : List String) (w : Walk S) (r : Result Unit × Walk S) (m : Exec (Walk S) Unit)
      → lookup (some (tree_of r.1)) q ≡ lookup (some (tree_of w)) q
      → ((v : Walk S) → lookup (some (tree_of (m v).1)) q ≡ lookup (some (tree_of v)) q)
      → lookup (some (tree_of (continue r.0 (λ _. m) r.1).1)) q ≡ lookup (some (tree_of w)) q
  seq-Apart q w (ok u, v) m a b = b v ∙ a
  seq-Apart q w (err e, v) m a b = a

  -- The loop keeps what is apart from all its names.
  pub walk-Apart :
      (path : List String) (files : Forest File) (w : Walk S) (q : List String)
      → NamesApart path files q
      → lookup (some (tree_of (walk write_change path files w).1)) q ≡ lookup (some (tree_of w)) q
  unfolding walk
  walk-Apart path empty w q h = refl
  walk-Apart path (entry name n rest) w q (h, k) =
      seq-Apart q w (walk_node write_change (path ++ name ∷ []) name n w)
        (walk write_change path rest)
        (Writes-Apart q ((walk_node-Wrote (path ++ name ∷ []) name n w).0) h)
        (λ v. walk-Apart path rest v q k)

  seq-IsDir :
      (p : List String) (r : Result Unit × Walk S) (m : Exec (Walk S) Unit)
      → IsDir (tree_of r.1) p
      → ((v : Walk S) → IsDir (tree_of v) p → IsDir (tree_of (m v).1) p)
      → IsDir (tree_of (continue r.0 (λ _. m) r.1).1) p
  seq-IsDir p (ok u, v) m a b = b v a
  seq-IsDir p (err e, v) m a b = a

  -- The loop over a directory keeps the directory's own internal node.
  pub walk-IsDir :
      (d : List String) (x : String) (files : Forest File) (w : Walk S)
      → IsDir (tree_of w) (d ++ x ∷ [])
      → IsDir (tree_of (walk write_change (d ++ x ∷ []) files w).1) (d ++ x ∷ [])
  unfolding walk
  walk-IsDir d x empty w h = h
  walk-IsDir d x (entry name n rest) w h =
      seq-IsDir (d ++ x ∷ []) (walk_node write_change ((d ++ x ∷ []) ++ name ∷ []) name n w)
        (walk write_change (d ++ x ∷ []) rest)
        (Writes-IsDir d x name ((walk_node-Wrote ((d ++ x ∷ []) ++ name ∷ []) name n w).0) h)
        (λ v. walk-IsDir d x rest v)
