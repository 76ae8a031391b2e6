-- ===== src/Artifact/Cache/Emplace.antt =====
-- What emplaceFile puts below the root directory, and what it leaves alone.
use goutils.Common.{
  String, ◌≡◌, refl, ◌∙◌, inl, inr, Option, some, List, ◌∷◌, str_eq, eq_iff, arith, Bool-cases,
  Option-cases,
}
use goutils.Common.Dict
use goutils.Common.Forest.{Node, leaf, branch}
use goutils.Artifact.Error.{Result, ok, err}
use goutils.Artifact.Hash.{Bytes, compute_hash}
use goutils.Artifact.Stores.{Store, FsStore}
use goutils.Artifact.Stores
use goutils.Artifact.Tree.{lookup}
use goutils.Artifact.Tree.Lookup.{
  lookup-store_node, lookup-store_node-Apart, lookup-remove_path-Apart,
}
use goutils.Artifact.Tree.Paths.{Apart}
use goutils.Artifact.Cache.{
  File, readable, CachedStore, place, emplace_new, emplace_over, emplace_file, blocked,
}

-- Every file of the store has the hash that is its name.
pub record IsAddressed (s : FsStore) : Type 0 where
  pub addressed :
      (hash : String) (bytes : Bytes)
      → Dict.get s.files hash ≡ some bytes
      → compute_hash bytes ≡ hash

pub load-hash :
    (s : FsStore) (hash : String) (bytes : Bytes)
    → IsAddressed s
    → Stores.load s hash ≡ ok bytes
    → compute_hash bytes ≡ hash
unfolding Stores.load
load-hash s hash bytes v h = v.addressed hash bytes (ground arith)

pub store-IsAddressed :
    (s s' : FsStore) (hash : String) (bytes : Bytes)
    → IsAddressed s
    → compute_hash bytes ≡ hash
    → Stores.store s hash bytes ≡ ok s'
    → IsAddressed s'
unfolding Stores.store
store-IsAddressed s s' hash bytes v e h = record {
  addressed =
      λ j b g. ground (arith, Dict.get-put s.files hash j bytes, eq_iff hash j, v.addressed j b);
}

module _ {S : Type 0} ⦃ops : Store S⦄ where
  -- A readable file with this hash stands at the path.
  abbrev pub HasFile : CachedStore S → List String → String → Type 0
  HasFile s path hash =
      (bytes : Bytes) × (lookup (some s.root) path ≡ some (leaf (readable bytes)))
      × (compute_hash bytes ≡ hash)

  abbrev pub Placed : List String → String → Result Unit × CachedStore S → Type 0
  Placed path hash (ok u, s) = HasFile s path hash
  Placed path hash (err e, s) = Unit

  place-Placed :
      (x : String) (p : List String) (hash : String) (s : CachedStore S) (r : Result Bytes)
      → ((b : Bytes) → r ≡ ok b → compute_hash b ≡ hash)
      → Placed (x ∷ p) hash (place (x ∷ p) s r)
  unfolding place
  place-Placed x p hash s (err e) h = tt
  place-Placed x p hash s (ok b) h = (b, lookup-store_node s.root (leaf (readable b)) x p, h b refl)

  emplace_new-Placed :
      (x : String) (p : List String) (hash : String) (s : CachedStore S)
      → IsAddressed s.cache
      → Placed (x ∷ p) hash (emplace_new hash (x ∷ p) s)
  unfolding emplace_new
  emplace_new-Placed x p hash s v = elim (Bool-cases (blocked s.root (x ∷ p))) [
    | inl e ↦ rw e tt
    | inr e ↦
        rw e (place-Placed x p hash s (Stores.load s.cache hash) (λ b. load-hash s.cache hash b v))
  ]

  emplace_over-Placed :
      (x : String) (p : List String) (hash : String) (s : CachedStore S) (o : Option (Node File))
      → IsAddressed s.cache
      → lookup (some s.root) (x ∷ p) ≡ o
      → Placed (x ∷ p) hash (emplace_over hash (x ∷ p) o s)
  unfolding emplace_over
  emplace_over-Placed x p hash s (some (leaf (readable b))) v e =
      elim (Bool-cases (str_eq (compute_hash b) hash)) [
        | inl h ↦ rw h (b, e, (eq_iff (compute_hash b) hash).0 h)
        | inr h ↦ rw h (emplace_new-Placed x p hash _ v)
      ]
  emplace_over-Placed x p hash s (some (branch f)) v e = tt
  emplace_over-Placed x p hash s _ v e = emplace_new-Placed x p hash s v

  pub emplace_file-Placed :
      (x : String) (p : List String) (hash : String) (s : CachedStore S)
      → IsAddressed s.cache
      → Placed (x ∷ p) hash (emplace_file hash (x ∷ p) s)
  unfolding emplace_file
  emplace_file-Placed x p hash s v = elim (Option-cases (Stores.contains s.cache hash)) [
    | inl e ↦
        rw (e, emplace_file) (emplace_over-Placed x p hash s (lookup (some s.root) (x ∷ p)) v refl)
    | inr (a, e) ↦ rw (e, emplace_file) tt
  ]

  -- emplaceFile changes the user's files alone, and there the given path alone.
  pub cache-emplace_file :
      (hash : String) (path : List String) (s : CachedStore S)
      → (emplace_file hash path s).1.cache ≡ s.cache
  unfolding emplace_file emplace_over emplace_new place
  cache-emplace_file hash path s = ground arith

  place-Apart :
      (path q : List String) (s : CachedStore S) (r : Result Bytes)
      → Apart path q
      → lookup (some (place path s r).1.root) q ≡ lookup (some s.root) q
  unfolding place
  place-Apart path q s (err e) h = refl
  place-Apart path q s (ok b) h = lookup-store_node-Apart s.root (leaf (readable b)) path q h

  emplace_new-Apart :
      (hash : String) (path q : List String) (s : CachedStore S)
      → Apart path q
      → lookup (some (emplace_new hash path s).1.root) q ≡ lookup (some s.root) q
  unfolding emplace_new
  emplace_new-Apart hash path q s h = elim (Bool-cases (blocked s.root path)) [
    | inl e ↦ rw e
    | inr e ↦ rw e (place-Apart path q s (Stores.load s.cache hash) h)
  ]

  emplace_over-Apart :
      (hash : String) (path q : List String) (s : CachedStore S) (o : Option (Node File))
      → Apart path q
      → lookup (some (emplace_over hash path o s).1.root) q ≡ lookup (some s.root) q
  unfolding emplace_over
  emplace_over-Apart hash path q s (some (leaf (readable b))) h =
      elim (Bool-cases (str_eq (compute_hash b) hash)) [
        | inl e ↦ rw e
        | inr e ↦
            rw e (emplace_new-Apart hash path q _ h ∙ lookup-remove_path-Apart s.root path q h)
      ]
  emplace_over-Apart hash path q s (some (branch f)) h = refl
  emplace_over-Apart hash path q s _ h = emplace_new-Apart hash path q s h

  pub emplace_file-Apart :
      (hash : String) (path q : List String) (s : CachedStore S)
      → Apart path q
      → lookup (some (emplace_file hash path s).1.root) q ≡ lookup (some s.root) q
  unfolding emplace_file
  emplace_file-Apart hash path q s h = elim (Option-cases (Stores.contains s.cache hash)) [
    | inl e ↦ rw (e, emplace_file) (emplace_over-Apart hash path q s (lookup (some s.root) path) h)
    | inr (a, e) ↦ rw (e, emplace_file)
  ]
