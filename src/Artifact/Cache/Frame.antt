-- ===== src/Artifact/Cache/Frame.antt =====
-- ensureNode changes nothing below the root directory but what lies at or below its path.
use goutils.Common.{String, ◌≡◌, refl, ◌∙◌, Bool, some, List, [], ◌∷◌, ◌++◌, arith}
use goutils.Common.Forest.{leaf, branch, empty, entry}
use goutils.Artifact.Error.{Result, ok, err}
use goutils.Artifact.Hash.{Bytes}
use goutils.Artifact.Exec.{Exec, pure, continue, ◌>>=◌}
use goutils.Artifact.Stores.{Store, FsStore}
use goutils.Artifact.Stores
use goutils.Artifact.Tree.{TreeNode, TreeNodeTree, TreeNodeExternal, lookup}
use goutils.Artifact.Tree.Siblings.{NamesApart, NamesApart-below}
use goutils.Artifact.Tree.Paths.{Apart}
use goutils.Artifact.Cache.{
  CachedStore, emplace, wrapped, with_cache, pulled, pull, ensure_leaf, ensure_node, ensure_nodes,
  source_load, cache_store,
}
use goutils.Artifact.Cache.Emplace.{emplace_file-Apart}

module _ {S : Type 0} ⦃ops : Store S⦄ where
  abbrev pub Same : List String → CachedStore S → CachedStore S → Type 0
  Same q s t = lookup (some t.root) q ≡ lookup (some s.root) q

  emplace-Apart :
      (hash : String) (dst q : List String) (s : CachedStore S)
      → Apart dst q
      → Same q s (emplace hash dst s).1
  unfolding emplace
  emplace-Apart hash dst q s h = ground (arith, emplace_file-Apart hash dst q s h)

  pulled-Apart :
      (e : TreeNodeExternal) (dst q : List String) (r : Result Bytes) (s : CachedStore S)
      → Apart dst q
      → Same q s (pulled e dst r s).1
  unfolding pulled cache_store
  pulled-Apart e dst q (err m) s h = refl
  pulled-Apart e dst q (ok b) s h = go (Stores.store s.cache e.hash b)
    where
      go :
          (r : Result FsStore)
          → Same q s
              (((λ t. wrapped "error storing into file system cache" (with_cache t r))
                  >>= (λ _. emplace e.hash dst))
                s).1
      go (ok c) = emplace-Apart e.hash dst q (record s { cache = c }) h
      go (err m) = refl

  pull-Apart :
      (i : Bool) (e : TreeNodeExternal) (dst q : List String) (s : CachedStore S)
      → Apart dst q
      → Same q s (pull i e dst s).1
  unfolding pull
  pull-Apart i e dst q s h = ground (arith, pulled-Apart e dst q (source_load s e.hash) s h)

  ensure_leaf-Apart :
      (i : Bool) (e : TreeNodeExternal) (dst q : List String) (s : CachedStore S)
      → Apart dst q
      → Same q s (ensure_leaf i e dst s).1
  unfolding ensure_leaf
  ensure_leaf-Apart i e dst q s h =
      ground (arith, emplace-Apart e.hash dst q s h, pull-Apart i e dst q s h)

  seq-Apart :
      {A B : Type 0} (q : List String) (s : CachedStore S) (r : Result A × CachedStore S)
      (m : Exec (CachedStore S) B)
      → Same q s r.1
      → ((t : CachedStore S) → Same q t (m t).1)
      → Same q s (continue r.0 (λ _. m) r.1).1
  seq-Apart q s (ok a, t) m h k = k t ∙ h
  seq-Apart q s (err e, t) m h k = h

  mutual
    unfolding ensure_node ensure_nodes

    pub node-Apart :
        (i : Bool) (dst : List String) (n : TreeNode) (q : List String) (s : CachedStore S)
        → Apart dst q
        → Same q s (ensure_node i dst n s).1
    node-Apart i dst (leaf e) q s h = ensure_leaf-Apart i e dst q s h
    node-Apart i dst (branch f) q s h =
        seq-Apart q s (ensure_nodes i dst f s) (pure (some dst))
          (nodes_apart i dst f q s (NamesApart-below dst f q h)) (λ t. refl)

    pub nodes_apart :
        (i : Bool) (dst : List String) (f : TreeNodeTree) (q : List String) (s : CachedStore S)
        → NamesApart dst f q
        → Same q s (ensure_nodes i dst f s).1
    nodes_apart i dst empty q s h = refl
    nodes_apart i dst (entry name n rest) q s h =
        seq-Apart q s (ensure_node i (dst ++ name ∷ []) n s) (ensure_nodes i dst rest)
          (node-Apart i (dst ++ name ∷ []) n q s h.0) (λ t. nodes_apart i dst rest q t h.1)
