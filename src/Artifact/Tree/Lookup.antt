-- ===== src/Artifact/Tree/Lookup.antt =====
-- What lookup finds after a store or a removal.
use goutils.Common.{
  String, ◌≡◌, refl, ap, sym, ◌∙◌, true, false, Option, none, some, List, [], ◌∷◌, if◌then◌else◌,
  arith, eq_iff, str_eq, inl, inr, ◌⊎◌, Bool-cases, ◌++◌,
}
use text.Mathlib.TextPositions.{eq_refl}
use goutils.Common.Forest.{
  entry, Node, Forest, leaf, branch, child, put_child, remove_child, child-put_child,
  child-put_child_self, child-remove_child,
}
use goutils.Artifact.Tree.Paths.{Apart}
use goutils.Artifact.Tree.{lookup, store_node, remove_path, internal_or_new, internal}

Apart-tail :
    (x z : String) (p q : List String) → str_eq x z ≡ true → Apart (x ∷ p) (z ∷ q) → Apart p q
Apart-tail x z p q e h = ground (arith, eq_iff x z, eq_iff z x)

module _ {A : Type 0} where
  -- lookup from a node on
  unfoldable pub descend : Option (Node A) → List String → Option (Node A)
  descend none q = none
  descend (some n) [] = some n
  descend (some n) (y ∷ q) = lookup (internal n) (y ∷ q)

  pub lookup-cons :
      (t : Forest A) (x : String) (q : List String)
      → lookup (some t) (x ∷ q) ≡ descend (child t x) q
  unfolding lookup descend
  lookup-cons t x [] = ground arith
  lookup-cons t x (y ∷ q) = ground arith

  lookup-internal_or_new :
      (o : Option (Node A)) (y : String) (q : List String)
      → lookup (some (internal_or_new o)) (y ∷ q) ≡ descend o (y ∷ q)
  unfolding lookup descend child
  lookup-internal_or_new none y q = refl
  lookup-internal_or_new (some (leaf e)) y q = refl
  lookup-internal_or_new (some (branch f)) y q = refl

  pub lookup-store_node :
      (t : Forest A) (node : Node A) (x : String) (p : List String)
      → lookup (some (store_node t node (x ∷ p))) (x ∷ p) ≡ some node
  unfolding lookup store_node
  lookup-store_node t node x [] = ground (arith, child-put_child_self t x node)
  lookup-store_node t node x (y ∷ p) = ground (
    arith,
    child-put_child_self t x (branch (store_node (internal_or_new (child t x)) node (y ∷ p))),
    lookup-store_node (internal_or_new (child t x)) node y p,
  )

  -- one put at the first name changes what is found under that name alone
  lookup-put_child :
      (t : Forest A) (x : String) (n : Node A) (z : String) (q : List String)
      → lookup (some (put_child t x n)) (z ∷ q)
        ≡ (if str_eq x z then descend (some n) q else lookup (some t) (z ∷ q))
  lookup-put_child t x n z q =
      rw (lookup-cons (put_child t x n), lookup-cons t, child-put_child)
        (elim (Bool-cases (str_eq x z)) [ inl e ↦ rw e | inr e ↦ rw e ])

  store_node-cons :
      (t : Forest A) (node : Node A) (x y : String) (p : List String)
      → store_node t node (x ∷ y ∷ p)
        ≡ put_child t x (branch (store_node (internal_or_new (child t x)) node (y ∷ p)))
  unfolding store_node
  store_node-cons t node x y p = refl

  -- A path that is apart from the stored one has the node that it had.
  pub lookup-store_node-Apart :
      (t : Forest A) (node : Node A) (p q : List String)
      → Apart p q
      → lookup (some (store_node t node p)) q ≡ lookup (some t) q
  lookup-store_node-Apart t node [] q h = unfold store_node in refl
  lookup-store_node-Apart t node (x ∷ p) [] h = unfold lookup in refl
  lookup-store_node-Apart t node (x ∷ []) (z ∷ q) h =
      unfold store_node in rw lookup-put_child (ground arith)
  lookup-store_node-Apart t node (x ∷ y ∷ p) (z ∷ []) h =
      rw (store_node-cons, lookup-put_child) (ground (arith, eq_iff x z, eq_iff z x))
  lookup-store_node-Apart t node (x ∷ y ∷ p) (z ∷ w ∷ q) h =
      rw (store_node-cons, lookup-put_child)
        (below (Bool-cases (str_eq x z))
          (lookup-store_node-Apart (internal_or_new (child t x)) node (y ∷ p) (w ∷ q)))
    where
      below :
          (str_eq x z ≡ true) ⊎ (str_eq x z ≡ false)
          → (Apart (y ∷ p) (w ∷ q)
              → lookup (some (store_node (internal_or_new (child t x)) node (y ∷ p))) (w ∷ q)
                ≡ lookup (some (internal_or_new (child t x))) (w ∷ q))
          → (if str_eq x z
              then descend
                  (some (branch (store_node (internal_or_new (child t x)) node (y ∷ p))))
                  (w ∷ q)
              else lookup (some t) (z ∷ w ∷ q))
            ≡ lookup (some t) (z ∷ w ∷ q)
      below (inl e) ih = rw e (
          sym (
            lookup-internal_or_new
              (some (branch (store_node (internal_or_new (child t x)) node (y ∷ p)))) w q)
          ∙ ih (Apart-tail x z (y ∷ p) (w ∷ q) e h)
          ∙ lookup-internal_or_new (child t x) w q
          ∙ sym (lookup-cons t x (w ∷ q))
          ∙ ap (λ k. lookup (some t) (k ∷ w ∷ q)) ((eq_iff x z).0 e))
      below (inr e) ih = rw e

  -- Below a stored leaf there is nothing.
  pub lookup-store_node_below :
      (t : Forest A) (v : A) (x : String) (p : List String) (y : String) (q : List String)
      → lookup (some (store_node t (leaf v) (x ∷ p))) ((x ∷ p) ++ y ∷ q) ≡ none
  lookup-store_node_below t v x [] y q =
      unfold store_node in rw (lookup-put_child, eq_refl) (unfold descend lookup in refl)
  lookup-store_node_below t v x (z ∷ p) y q =
      rw (store_node-cons, lookup-put_child, eq_refl)
        (sym (
            lookup-internal_or_new
              (some (branch (store_node (internal_or_new (child t x)) (leaf v) (z ∷ p)))) z
              (p ++ y ∷ q))
          ∙ lookup-store_node_below (internal_or_new (child t x)) v z p y q)

  -- Above the stored node there are internal nodes.
  pub lookup-store_node_above :
      (t : Forest A) (n : Node A) (x : String) (p : List String) (y : String) (q : List String)
      → (f : Forest A) × (lookup (some (store_node t n ((x ∷ p) ++ y ∷ q))) (x ∷ p)
          ≡ some (branch f))
  lookup-store_node_above t n x [] y q = (
    store_node (internal_or_new (child t x)) n (y ∷ q),
    rw (store_node-cons, lookup-put_child, eq_refl) (unfold descend in refl),
  )
  lookup-store_node_above t n x (z ∷ p) y q =
      let (f, e) = lookup-store_node_above (internal_or_new (child t x)) n z p y q in
      (
        f,
        rw (store_node-cons, lookup-put_child, eq_refl)
            (sym (
                lookup-internal_or_new
                  (some (branch (store_node (internal_or_new (child t x)) n (z ∷ p ++ y ∷ q)))) z p)
              ∙ e),
      )

  -- lookup after a removal at the first name
  lookup-remove_child :
      (t : Forest A) (x z : String) (q : List String)
      → lookup (some (remove_child t x)) (z ∷ q)
        ≡ (if str_eq x z then none else lookup (some t) (z ∷ q))
  lookup-remove_child t x z q =
      rw (lookup-cons (remove_child t x), lookup-cons t, child-remove_child)
        (elim (Bool-cases (str_eq x z)) [ inl e ↦ rw e (unfold descend in refl) | inr e ↦ rw e ])

  Child-cases :
      (o : Option (Node A))
      → (o ≡ none) ⊎ ((a : A) × (o ≡ some (leaf a))) ⊎ ((f : Forest A) × (o ≡ some (branch f)))
  Child-cases none = inl refl
  Child-cases (some (leaf a)) = inr (inl (a, refl))
  Child-cases (some (branch f)) = inr (inr (f, refl))

  remove_path-last : (t : Forest A) (x : String) → remove_path t (x ∷ []) ≡ remove_child t x
  unfolding remove_path
  remove_path-last t x = ground arith

  remove_path-none :
      (t : Forest A) (x y : String) (p : List String)
      → child t x ≡ none
      → remove_path t (x ∷ y ∷ p) ≡ t
  unfolding remove_path
  remove_path-none t x y p e = rw (e, remove_path)

  remove_path-leaf :
      (t : Forest A) (x y : String) (p : List String) (a : A)
      → child t x ≡ some (leaf a)
      → remove_path t (x ∷ y ∷ p) ≡ t
  unfolding remove_path
  remove_path-leaf t x y p a e = rw (e, remove_path)

  remove_path-branch :
      (t : Forest A) (x y : String) (p : List String) (f : Forest A)
      → child t x ≡ some (branch f)
      → remove_path t (x ∷ y ∷ p) ≡ put_child t x (branch (remove_path f (y ∷ p)))
  unfolding remove_path
  remove_path-branch t x y p f e = rw (e, remove_path)

  descend-branch :
      (f : Forest A) (y : String) (q : List String)
      → descend (some (branch f)) (y ∷ q) ≡ lookup (some f) (y ∷ q)
  descend-branch f y q = sym (lookup-internal_or_new (some (branch f)) y q)

  -- the step of the frame of remove_path at an internal node
  at_branch :
      (t : Forest A) (x y : String) (p : List String) (z : String) (q : List String) (f : Forest A)
      → child t x ≡ some (branch f)
      → Apart (x ∷ y ∷ p) (z ∷ q)
      → ((q : List String)
          → Apart (y ∷ p) q
          → lookup (some (remove_path f (y ∷ p))) q ≡ lookup (some f) q)
      → (if str_eq x z
          then descend (some (branch (remove_path f (y ∷ p)))) q
          else lookup (some t) (z ∷ q))
        ≡ lookup (some t) (z ∷ q)
  at_branch t x y p z [] f c h ih = ground (arith, eq_iff x z, eq_iff z x)
  at_branch t x y p z (w ∷ q) f c h ih = elim (Bool-cases (str_eq x z)) [
    | inr e ↦ rw e
    | inl e ↦ rw e (
        descend-branch (remove_path f (y ∷ p)) w q
        ∙ ih (w ∷ q) (Apart-tail x z (y ∷ p) (w ∷ q) e h)
        ∙ sym (descend-branch f w q)
        ∙ ap (λ o. descend o (w ∷ q)) (sym c ∙ ap (child t) ((eq_iff x z).0 e))
        ∙ sym (lookup-cons t z (w ∷ q)))
  ]

  -- Nothing is found at a removed path, or below it.
  pub lookup-remove_path :
      (t : Forest A) (x : String) (p q : List String)
      → lookup (some (remove_path t (x ∷ p))) ((x ∷ p) ++ q) ≡ none
  lookup-remove_path t x [] q = rw (remove_path-last, lookup-remove_child, eq_refl)
  lookup-remove_path t x (y ∷ p) q = elim (Child-cases (child t x)) [
    | inl e ↦ rw (remove_path-none t x y p e, lookup-cons, e) (unfold descend in refl)
    | inr (inl (a, e)) ↦
        rw (remove_path-leaf t x y p a e, lookup-cons, e) (unfold descend lookup in refl)
    | inr (inr (f, e)) ↦
        rw (remove_path-branch t x y p f e, lookup-put_child, eq_refl, descend-branch)
          (lookup-remove_path f y p q)
  ]

  -- A path that is apart from the removed one has the node that it had.
  pub lookup-remove_path-Apart :
      (t : Forest A) (p q : List String)
      → Apart p q
      → lookup (some (remove_path t p)) q ≡ lookup (some t) q
  lookup-remove_path-Apart t [] q h = unfold remove_path in refl
  lookup-remove_path-Apart t (x ∷ p) [] h = unfold lookup in refl
  lookup-remove_path-Apart t (x ∷ []) (z ∷ q) h =
      rw (remove_path-last, lookup-remove_child) (ground arith)
  lookup-remove_path-Apart t (x ∷ y ∷ p) (z ∷ q) h = elim (Child-cases (child t x)) [
    | inl e ↦ rw (remove_path-none t x y p e)
    | inr (inl (a, e)) ↦ rw (remove_path-leaf t x y p a e)
    | inr (inr (f, e)) ↦
        rw (remove_path-branch t x y p f e, lookup-put_child)
          (at_branch t x y p z q f e h (lookup-remove_path-Apart f (y ∷ p)))
  ]

  -- the paths below one child, and those below its siblings
  pub lookup-entry :
      (name : String) (n : Node A) (rest : Forest A) (y : String) (q : List String)
      → lookup (some (entry name n rest)) (y ∷ q)
        ≡ (if str_eq name y then descend (some n) q else lookup (some rest) (y ∷ q))
  lookup-entry name n rest y q =
      rw (lookup-cons (entry name n rest), lookup-cons rest)
        (unfold child in (elim (Bool-cases (str_eq name y)) [ inl e ↦ rw e | inr e ↦ rw e ]))
