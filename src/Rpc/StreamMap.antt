-- ===== src/Rpc/StreamMap.antt =====
-- The map of streams of rpc/wrtc_server_channel.go and rpc/wrtc_client_channel.go.
use goutils.Common.{
  ℕ, suc, ◌≤◌, ◌≡◌, refl, false, Option, none, some, List, [], ◌∷◌, if◌then◌else◌, ◌==◌, length,
  arith, if_both, All, Bool-cases, inl, inr, sym, ap, ◌∙◌, ◌<◌,
}

module _ {A : Type 0} where
  unfoldable pub get : List (ℕ × A) → ℕ → Option A
  get [] id = none
  get ((i, s) ∷ m) id = if i == id then some s else get m id

  unfoldable pub put : List (ℕ × A) → ℕ → A → List (ℕ × A)
  put [] id s = (id, s) ∷ []
  put ((i, t) ∷ m) id s = let rest = put m id s in if i == id then (id, s) ∷ m else (i, t) ∷ rest

  -- removeStreamByID
  unfoldable pub remove : List (ℕ × A) → ℕ → List (ℕ × A)
  remove [] id = []
  remove ((i, t) ∷ m) id = let rest = remove m id in if i == id then rest else (i, t) ∷ rest

  pub length-put : (m : List (ℕ × A)) (id : ℕ) (s : A) → length (put m id s) ≤ suc (length m)
  unfolding put
  length-put [] id s = ground arith
  length-put ((i, t) ∷ m) id s = ground (arith, length-put m id s)

  pub length-put_found :
      (m : List (ℕ × A)) (id : ℕ) (s t : A) → get m id ≡ some t → length (put m id s) ≡ length m
  unfolding put get
  length-put_found [] id s t h = absurd (cc)
  length-put_found ((i, u) ∷ m) id s t h = ground (arith, length-put_found m id s t)

  pub get-put : (m : List (ℕ × A)) (id : ℕ) (s : A) → get (put m id s) id ≡ some s
  unfolding put get
  get-put [] id s = ground arith
  get-put ((i, u) ∷ m) id s = ground (arith, get-put m id s)

  pub length-remove : (m : List (ℕ × A)) (id : ℕ) → length (remove m id) ≤ length m
  unfolding remove
  length-remove [] id = ground arith
  length-remove ((i, t) ∷ m) id = ground (arith, length-remove m id)

  pub get-put_other :
      (m : List (ℕ × A)) (id j : ℕ) (s : A) → (id == j) ≡ false → get (put m id s) j ≡ get m j
  unfolding put get
  get-put_other [] id j s h = ground arith
  get-put_other ((i, t) ∷ m) id j s h = ground (arith, get-put_other m id j s)

  pub get-remove_other :
      (m : List (ℕ × A)) (id j : ℕ) → (id == j) ≡ false → get (remove m id) j ≡ get m j
  unfolding remove get
  get-remove_other [] id j h = ground arith
  get-remove_other ((i, t) ∷ m) id j h = ground (arith, get-remove_other m id j)

  pub put-All :
      (P : ℕ × A → Type 0) (m : List (ℕ × A)) (id : ℕ) (s : A)
      → All P m
      → P (id, s)
      → All P (put m id s)
  unfolding put
  put-All P [] id s h p = (p, tt)
  put-All P ((i, t) ∷ m) id s (q, h) p = if_both (All P) (i == id) (p, h) (q, put-All P m id s h p)

  pub remove-All : (P : ℕ × A → Type 0) (m : List (ℕ × A)) (id : ℕ) → All P m → All P (remove m id)
  unfolding remove
  remove-All P [] id h = tt
  remove-All P ((i, t) ∷ m) id (q, h) =
      if_both (All P) (i == id) (remove-All P m id h) (q, remove-All P m id h)

  pub get-below :
      (n : ℕ) (m : List (ℕ × A)) (id : ℕ) (s : A)
      → All (λ x. x.0 ≤ n) m
      → get m id ≡ some s
      → id ≤ n
  unfolding get
  get-below n [] id s h e = absurd (cc)
  get-below n ((i, t) ∷ m) id s (q, h) e = elim (Bool-cases (i == id)) [
    | inl k ↦ ground (arith, q)
    | inr k ↦ get-below n m id s h (sym (ap (λ b. if b then some t else get m id) k) ∙ e)
  ]

  -- an id that is above all of them is not in the map
  pub get-above :
      (n : ℕ) (m : List (ℕ × A)) (id : ℕ) → All (λ x. x.0 ≤ n) m → n < id → get m id ≡ none
  unfolding get
  get-above n [] id h k = refl
  get-above n ((i, t) ∷ m) id (q, h) k = ground (arith, get-above n m id h k)

  pub remove_absent : (m : List (ℕ × A)) (id : ℕ) → get m id ≡ none → remove m id ≡ m
  unfolding get remove
  remove_absent [] id h = refl
  remove_absent ((i, t) ∷ m) id h = elim (Bool-cases (i == id)) [
    | inl k ↦ absurd (cc (sym (ap (λ b. if b then some t else get m id) k) ∙ h))
    | inr k ↦
        ap (λ b. if b then remove m id else (i, t) ∷ remove m id) k
        ∙ ap (λ l. (i, t) ∷ l)
            (remove_absent m id (sym (ap (λ b. if b then some t else get m id) k) ∙ h))
  ]
