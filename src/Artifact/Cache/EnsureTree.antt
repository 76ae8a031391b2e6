-- ===== src/Artifact/Cache/EnsureTree.antt =====
-- ensureNode at an internal node: every artifact below it is put in place.
use mathlib.Core.List.{append_assoc, append-nil}
use goutils.Common.{
  String, ◌≡◌, ◌≢◌, refl, sym, subst, ◌∙◌, inl, inr, Bool, true, Option, none, some, List, [], ◌∷◌,
  ◌++◌, str_eq, eq_iff, arith, Bool-cases,
}
use goutils.Common.Forest.{leaf, branch, empty, entry, child}
use goutils.Artifact.Error.{Result, ok, err}
use goutils.Artifact.Hash.{Bytes}
use goutils.Artifact.Exec.{pure, continue}
use goutils.Artifact.Stores.{Store}
use goutils.Artifact.Tree.{TreeNode, TreeNodeTree, TreeNodeExternal, lookup}
use goutils.Artifact.Tree.Lookup.{descend, lookup-entry}
use goutils.Artifact.Tree.Maps.{is_map, is_map_node}
use goutils.Artifact.Cache.{
  CachedStore, emplace, wrapped, pulled, pull, ensure_leaf, ensure_node, ensure_nodes, source_load,
  cache_store, ensure, ensure_found, new_path,
}
use goutils.Artifact.Cache.Emplace.{IsAddressed, HasFile}
use goutils.Artifact.Tree.Siblings.{NamesApart, NamesApart-absent}
use goutils.Artifact.Cache.Frame.{Same, nodes_apart}
use goutils.Artifact.Config
use goutils.Artifact.Cache.Ensure.{IsHonest, Ensured, ensure_leaf-Ensured}

module _ {S : Type 0} ⦃ops : Store S⦄ (honest : IsHonest ops) where
  -- the artifacts below a node are in place
  abbrev Complete : List String → TreeNode → CachedStore S → Type 0
  Complete dst n s =
      (q : List String) (e : TreeNodeExternal)
      → descend (some n) q ≡ some (leaf e)
      → HasFile s (dst ++ q) e.hash

  abbrev CompleteBelow : List String → TreeNodeTree → CachedStore S → Type 0
  CompleteBelow dst f s =
      (y : String) (q : List String) (e : TreeNodeExternal)
      → lookup (some f) (y ∷ q) ≡ some (leaf e)
      → HasFile s (dst ++ y ∷ q) e.hash

  -- after a success P holds; the cache stays sound in any case
  abbrev After : {A : Type 0} → (CachedStore S → Type 0) → Result A × CachedStore S → Type 0
  After P (ok a, s) = IsAddressed s.cache × P s
  After P (err e, s) = IsAddressed s.cache × Unit

  emplace-ne-none :
      (hash : String) (dst : List String) (s : CachedStore S) → (emplace hash dst s).0 ≢ ok none
  unfolding emplace
  emplace-ne-none hash dst s = ground arith

  pulled-ne-none :
      (e : TreeNodeExternal) (dst : List String) (r : Result Bytes) (s : CachedStore S)
      → (pulled e dst r s).0 ≢ ok none
  unfolding pulled
  pulled-ne-none e dst (err m) s h = cc
  pulled-ne-none e dst (ok b) s h =
      go (wrapped "error storing into file system cache" (cache_store e.hash b s)) h
    where
      go :
          (r : Result Unit × CachedStore S)
          → (continue r.0 (λ _. emplace e.hash dst) r.1).0 ≢ ok none
      go (ok u, t) h = emplace-ne-none e.hash dst t h
      go (err m, t) h = cc

  -- ignoring the limit, no artifact is left out
  ensure_leaf-ne-none :
      (e : TreeNodeExternal) (dst : List String) (s : CachedStore S)
      → (ensure_leaf true e dst s).0 ≢ ok none
  unfolding ensure_leaf pull
  ensure_leaf-ne-none e dst s =
      ground (arith, emplace-ne-none e.hash dst s, pulled-ne-none e dst (source_load s e.hash) s)

  at_leaf :
      (x : String) (p : List String) (e : TreeNodeExternal) (s : CachedStore S)
      → HasFile s (x ∷ p) e.hash
      → Complete (x ∷ p) (leaf e) s
  unfolding descend lookup
  at_leaf x p e s h [] e' l = rw append-nil (subst (HasFile s (x ∷ p)) (ground arith) h)
  at_leaf x p e s h (y ∷ q) e' l = absurd (cc)

  leaf-Complete :
      (x : String) (p : List String) (e : TreeNodeExternal)
      (r : Result (Option (List String)) × CachedStore S)
      → Ensured honest (x ∷ p) e.hash r
      → (r.0 ≢ ok none)
      → After (Complete (x ∷ p) (leaf e)) r
  leaf-Complete x p e (ok (some d), s) h ne = (h.0, at_leaf x p e s h.1)
  leaf-Complete x p e (ok none, s) h ne = absurd (ne refl)
  leaf-Complete x p e (err m, s) h ne = h

  below-Complete :
      (dst : List String) (f : TreeNodeTree) (s : CachedStore S)
      → CompleteBelow dst f s
      → Complete dst (branch f) s
  unfolding descend
  below-Complete dst f s h [] e l = absurd (cc)
  below-Complete dst f s h (y ∷ q) e l = h y q e l

  branch-Complete :
      (dst : List String) (f : TreeNodeTree) (r : Result Unit × CachedStore S)
      → After (CompleteBelow dst f) r
      → After (Complete dst (branch f)) (continue r.0 (λ _. pure (some dst)) r.1)
  branch-Complete dst f (ok u, s) h = (h.0, below-Complete dst f s h.1)
  branch-Complete dst f (err m, s) h = h

  both-Complete :
      (dst : List String) (name : String) (n : TreeNode) (rest : TreeNodeTree) (s : CachedStore S)
      → Complete (dst ++ name ∷ []) n s
      → CompleteBelow dst rest s
      → CompleteBelow dst (entry name n rest) s
  both-Complete dst name n rest s h k y q e l = elim (Bool-cases (str_eq name y)) [
    | inl c ↦
        subst (λ z. HasFile s (dst ++ z ∷ q) e.hash) ((eq_iff name y).0 c)
          (rw (append_assoc dst (name ∷ []) q) at
            (h q e (ground (arith, lookup-entry name n rest y q))))
    | inr c ↦ k y q e (ground (arith, lookup-entry name n rest y q))
  ]

  -- One child and then the others: what the first put in place stays.
  both-After :
      (dst : List String) (name : String) (n : TreeNode) (rest : TreeNodeTree) (t : CachedStore S)
      (r : Result Unit × CachedStore S)
      → Complete (dst ++ name ∷ []) n t
      → ((q : List String) → NamesApart dst rest q → Same q t r.1)
      → child rest name ≡ none
      → After (CompleteBelow dst rest) r
      → After (CompleteBelow dst (entry name n rest)) r
  both-After dst name n rest t (err m, s) h same absent a = a
  both-After dst name n rest t (ok u, s) h same absent a =
      (a.0, both-Complete dst name n rest s kept a.1)
    where
      kept : Complete (dst ++ name ∷ []) n s
      kept q e l =
          let (b, f, c) = h q e l in
          (
            b,
            rw (append_assoc dst (name ∷ []) q)
                  (same (dst ++ name ∷ q) (NamesApart-absent dst rest name q absent))
                ∙ f,
            c,
          )

  seq-After :
      (dst : List String) (name : String) (n : TreeNode) (rest : TreeNodeTree)
      (r : Result (Option (List String)) × CachedStore S)
      → After (Complete (dst ++ name ∷ []) n) r
      → child rest name ≡ none
      → ((t : CachedStore S)
          → IsAddressed t.cache
          → After (CompleteBelow dst rest) (ensure_nodes true dst rest t))
      → After
          (CompleteBelow dst (entry name n rest))
          (continue r.0 (λ _. ensure_nodes true dst rest) r.1)
  seq-After dst name n rest (err m, t) a absent k = a
  seq-After dst name n rest (ok o, t) a absent k =
      both-After dst name n rest t (ensure_nodes true dst rest t) a.1
        (λ q h. nodes_apart true dst rest q t h) absent (k t a.0)

  child_leaf :
      (dst : List String) (name : String) (e : TreeNodeExternal) (s : CachedStore S)
      → IsAddressed s.cache
      → After (Complete (dst ++ name ∷ []) (leaf e)) (ensure_leaf true e (dst ++ name ∷ []) s)
  child_leaf [] name e s v =
      leaf-Complete name [] e (ensure_leaf true e (name ∷ []) s)
        (ensure_leaf-Ensured honest true name [] e s v) (ensure_leaf-ne-none e (name ∷ []) s)
  child_leaf (x ∷ dst) name e s v =
      leaf-Complete x (dst ++ name ∷ []) e (ensure_leaf true e (x ∷ dst ++ name ∷ []) s)
        (ensure_leaf-Ensured honest true x (dst ++ name ∷ []) e s v)
        (ensure_leaf-ne-none e (x ∷ dst ++ name ∷ []) s)

  empty-CompleteBelow : (dst : List String) (s : CachedStore S) → CompleteBelow dst empty s
  unfolding lookup child
  empty-CompleteBelow dst s y q e l = absurd (cc)

  mutual
    unfolding ensure_node ensure_nodes is_map is_map_node

    child-After :
        (dst : List String) (name : String) (n : TreeNode) (s : CachedStore S)
        → is_map_node n ≡ true
        → IsAddressed s.cache
        → After (Complete (dst ++ name ∷ []) n) (ensure_node true (dst ++ name ∷ []) n s)
    child-After dst name (leaf e) s m v = child_leaf dst name e s v
    child-After dst name (branch f) s m v =
        branch-Complete (dst ++ name ∷ []) f (ensure_nodes true (dst ++ name ∷ []) f s)
          (children-After (dst ++ name ∷ []) f s m v)

    children-After :
        (dst : List String) (f : TreeNodeTree) (s : CachedStore S)
        → is_map f ≡ true
        → IsAddressed s.cache
        → After (CompleteBelow dst f) (ensure_nodes true dst f s)
    children-After dst empty s m v = (v, empty-CompleteBelow dst s)
    children-After dst (entry name n rest) s m v =
        seq-After dst name n rest (ensure_node true (dst ++ name ∷ []) n s)
          (child-After dst name n s (ground arith) v) (ground arith)
          (λ t w. children-After dst rest t (ground arith) w)

  -- the same for a run that is known to have succeeded
  After-ok :
      {A : Type 0} (P : CachedStore S → Type 0) (r : Result A × CachedStore S) (a : A)
      (s : CachedStore S)
      → After P r
      → r ≡ (ok a, s)
      → P s
  After-ok P r a s h e = (subst (After P) e h).1

  ensure-found :
      (path : String) (i : Bool) (s : CachedStore S) (n : TreeNode)
      → Config.lookup s.config path ≡ ok n
      → ensure path i s ≡ ensure_node i (new_path path) n s
  unfolding ensure ensure_found
  ensure-found path i s n found = rw found

  -- When Ensure succeeds at the path of an internal node, ignoring the size limit, then each
  -- artifact below that node is a file below the path, with the content that its hash names. The
  -- cache's own files have the hashes that are their names, the source answers with what was asked
  -- for, and the tree's maps hold each name once.
  pub ensure-CompleteBelow :
      (path : String) (t : TreeNodeTree) (s s' : CachedStore S) (d : Option (List String))
      → IsAddressed s.cache
      → is_map t ≡ true
      → Config.lookup s.config path ≡ ok (branch t)
      → ensure path true s ≡ (ok d, s')
      → CompleteBelow (new_path path) t s'
  unfolding ensure_node descend
  ensure-CompleteBelow path t s s' d v m found run y q =
      (After-ok (Complete (new_path path) (branch t)) _ d s'
          (branch-Complete (new_path path) t (ensure_nodes true (new_path path) t s)
            (children-After (new_path path) t s m v))
          (sym (ensure-found path true s (branch t) found) ∙ run))
        (y ∷ q)
