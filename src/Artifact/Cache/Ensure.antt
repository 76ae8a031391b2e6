-- ===== src/Artifact/Cache/Ensure.antt =====
-- What Ensure guarantees: the artifacts below a node are in place, with the content that their
-- hashes name, and nothing else below the root directory changes.
use goutils.Common.{
  String, ◌≡◌, refl, sym, subst, inl, inr, Bool, not, ◌&&◌, Option, none, some, List, ◌∷◌, ltb,
  ◌==◌, arith, Bool-cases, Option-cases,
}
use goutils.Artifact.Error.{Result, ok, err, is_not_found_error}
use goutils.Artifact.Hash.{Bytes, compute_hash}
use goutils.Artifact.Exec.{pure, ◌>>=◌}
use goutils.Artifact.Stores.{Store, FsStore}
use goutils.Artifact.Stores
use goutils.Artifact.Tree.{TreeNodeExternal}
use goutils.Artifact.Cache.{
  CachedStore, emplace_file, emplace, wrapped, with_cache, pulled, pull, ensure_leaf, source_load,
  cache_store,
}
use goutils.Artifact.Cache.Emplace.{
  IsAddressed, HasFile, Placed, load-hash, store-IsAddressed, cache-emplace_file,
  emplace_file-Placed,
}

-- What the source store promises: a blob that it returns has the hash that was asked for.
abbrev pub IsHonest : {S : Type 0} → Store S → Type 0
IsHonest {S} ops =
    (src : S) (hash : String) (b : Bytes) → ops.load src hash ≡ ok b → compute_hash b ≡ hash

module _ {S : Type 0} ⦃ops : Store S⦄ (honest : IsHonest ops) where
  -- the state of the cache and, after a success that is not over the limit, the file
  abbrev pub Ensured : List String → String → Result (Option (List String)) × CachedStore S → Type 0
  Ensured dst hash (ok (some d), s) = IsAddressed s.cache × HasFile s dst hash
  Ensured dst hash (ok none, s) = IsAddressed s.cache × Unit
  Ensured dst hash (err e, s) = IsAddressed s.cache × Unit

  emplace-Ensured :
      (x : String) (p : List String) (hash : String) (s : CachedStore S)
      → IsAddressed s.cache
      → Ensured (x ∷ p) hash (emplace hash (x ∷ p) s)
  unfolding emplace
  emplace-Ensured x p hash s v =
      go (emplace_file hash (x ∷ p) s) (emplace_file-Placed x p hash s v)
        (cache-emplace_file hash (x ∷ p) s)
    where
      go :
          (r : Result Unit × CachedStore S)
          → Placed (x ∷ p) hash r
          → r.1.cache ≡ s.cache
          → Ensured (x ∷ p) hash (
              ((λ t. wrapped "error emplacing into file system cache" r)
                  >>= (λ _. pure (some (x ∷ p))))
                s)
      go (ok u, t) h e = (subst IsAddressed (sym e) v, h)
      go (err m, t) h e = (subst IsAddressed (sym e) v, tt)

  source_load-hash :
      (s : CachedStore S) (hash : String) (b : Bytes)
      → IsAddressed s.cache
      → source_load s hash ≡ ok b
      → compute_hash b ≡ hash
  unfolding source_load
  source_load-hash s hash b v h = elim (Option-cases s.source) [
    | inl e ↦ load-hash s.cache hash b v (ground arith)
    | inr (src, e) ↦ honest src hash b (ground arith)
  ]

  pulled-Ensured :
      (x : String) (p : List String) (e : TreeNodeExternal) (s : CachedStore S) (r : Result Bytes)
      → IsAddressed s.cache
      → ((b : Bytes) → r ≡ ok b → compute_hash b ≡ e.hash)
      → Ensured (x ∷ p) e.hash (pulled e (x ∷ p) r s)
  unfolding pulled cache_store
  pulled-Ensured x p e s (err m) v h = (v, tt)
  pulled-Ensured x p e s (ok b) v h = go (Stores.store s.cache e.hash b) refl
    where
      go :
          (r : Result FsStore)
          → Stores.store s.cache e.hash b ≡ r
          → Ensured (x ∷ p) e.hash (
              ((λ t. wrapped "error storing into file system cache" (with_cache t r))
                  >>= (λ _. emplace e.hash (x ∷ p)))
                s)
      go (ok c) q =
          emplace-Ensured x p e.hash (record s { cache = c })
            (store-IsAddressed s.cache c e.hash b v (h b refl) q)
      go (err m) q = (v, tt)

  pull-Ensured :
      (ignore_limit : Bool) (x : String) (p : List String) (e : TreeNodeExternal)
      (s : CachedStore S)
      → IsAddressed s.cache
      → Ensured (x ∷ p) e.hash (pull ignore_limit e (x ∷ p) s)
  unfolding pull
  pull-Ensured ignore_limit x p e s v =
      elim (Bool-cases (
        not ignore_limit
        && (not (s.config.source_pull_size_limit == 0)
            && ltb s.config.source_pull_size_limit e.size))) [
              | inl c ↦ rw c (v, tt)
              | inr c ↦ rw c (
                  pulled-Ensured x p e s (source_load s e.hash) v
                    (λ b. source_load-hash s e.hash b v))
            ]

  pub ensure_leaf-Ensured :
      (ignore_limit : Bool) (x : String) (p : List String) (e : TreeNodeExternal)
      (s : CachedStore S)
      → IsAddressed s.cache
      → Ensured (x ∷ p) e.hash (ensure_leaf ignore_limit e (x ∷ p) s)
  unfolding ensure_leaf
  ensure_leaf-Ensured ignore_limit x p e s v =
      elim (Option-cases (Stores.contains s.cache e.hash)) [
        | inl c ↦ rw (c, ensure_leaf) (emplace-Ensured x p e.hash s v)
        | inr (m, c) ↦
            rw (c, ensure_leaf)
              (elim (Bool-cases (is_not_found_error m)) [
                | inl d ↦ rw d (pull-Ensured ignore_limit x p e s v)
                | inr d ↦ rw d (v, tt)
              ])
      ]
