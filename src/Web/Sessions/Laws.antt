-- ===== src/Web/Sessions/Laws.antt =====
-- What a store promises the manager, that the store in memory keeps it, and what follows for users.
use goutils.Common.{
  String, [], ◌⊎◌, inl, inr, ◌≡◌, ◌≢◌, refl, sym, ap, ◌∙◌, subst, Bool, true, false, Option, none,
  some, if◌then◌else◌, str_eq, eq_iff, arith,
}
use goutils.Common.Dict
use goutils.Web.Sessions.{
  Session, no_session, failure, wrap, Got, session, nothing, refused, Store, MemoryStore,
  memory_store, memory_get, memory_delete, memory_save, got, ok, err, NewId, made, failed,
  new_session, with_new_id, create, from_store, manager_get, delete_session, save_session,
}

-- A stored session is found under its id, a deleted one is not, and neither touches other ids.
pub record IsStore {S D : Type 0} (store : Store S D) : Type 0 where
  pub get-save : (st : S) (s : Session D) → store.get (store.save st s).1 s.id ≡ session s
  pub get-delete :
      (st : S) (id : String)
      → (store.get (store.delete st id).1 id ≡ nothing)
        ⊎ (store.get (store.delete st id).1 id ≡ refused no_session)
  pub get-save_other :
      (st : S) (s t : Session D) (id : String)
      → s.id ≢ id
      → store.get st id ≡ session t
      → store.get (store.save st s).1 id ≡ session t

memory_save-get :
    {D : Type 0} (st : MemoryStore D) (s : Session D)
    → memory_get (memory_save st s).1 s.id ≡ session s
unfolding memory_get memory_save
memory_save-get none s = ap got (Dict.get-put_self [] s.id (some s))
memory_save-get (some m) s = ap got (Dict.get-put_self m s.id (some s))

-- a deleted session is nil, or the map is
memory_delete-get :
    {D : Type 0} (st : MemoryStore D) (id : String)
    → (memory_get (memory_delete st id).1 id ≡ nothing)
      ⊎ (memory_get (memory_delete st id).1 id ≡ refused no_session)
unfolding memory_get memory_delete
memory_delete-get none id = inr refl
memory_delete-get (some m) id = inl (ap got (Dict.get-put_self m id none))

memory_save-get_other :
    {D : Type 0} (st : MemoryStore D) (s t : Session D) (id : String)
    → s.id ≢ id
    → memory_get st id ≡ session t
    → memory_get (memory_save st s).1 id ≡ session t
unfolding memory_get memory_save
memory_save-get_other none s t id h e = absurd (cc)
memory_save-get_other (some m) s t id h e = ap got (Dict.get-put_ne m s.id id (some s) h) ∙ e

pub memory_store-IsStore : {D : Type 0} → IsStore (memory_store {D = D})
memory_store-IsStore = record {
  get-save = memory_save-get;
  get-delete = memory_delete-get;
  get-save_other = memory_save-get_other;
}

module _ {S D : Type 0} (store : Store S D) (laws : IsStore store) (empty : D) where
  -- With any store that keeps its promise, a request with the cookie of a session that was deleted
  -- gets no session, or with leave to create one a new one under the id of its cookie.
  pub delete_session-manager_get :
      (st : S) (id : String) (new : NewId)
      → str_eq id "" ≡ false
      → let st' = delete_session store st (some id) in
        (manager_get empty store st' (some id) false new ≡ err no_session)
        × (manager_get empty store st' (some id) true new ≡ ok (new_session empty id))
  unfolding manager_get delete_session
  delete_session-manager_get st id new h = elim (laws.get-delete st id) [
    | inl e ↦ (ap (from_store empty false new id) e, ap (from_store empty true new id) e ∙ rw h)
    | inr e ↦ (ap (from_store empty false new id) e, ap (from_store empty true new id) e ∙ rw h)
  ]

-- every session of the store in memory stands under its id, and is not new
abbrev pub IsKept : {D : Type 0} → MemoryStore D → Type 0
IsKept {D = D} st =
    (id : String) (s : Session D) → memory_get st id ≡ session s → (s.id ≡ id) × (s.is_new ≡ false)

memory_get-save_other :
    {D : Type 0} (st : MemoryStore D) (s : Session D) (id : String)
    → s.id ≢ id
    → (memory_get (memory_save st s).1 id ≡ memory_get st id)
      ⊎ ((memory_get (memory_save st s).1 id ≡ nothing) × (memory_get st id ≡ refused no_session))
unfolding memory_get memory_save Dict.get
memory_get-save_other none s id h = inr (ap got (Dict.get-put_ne [] s.id id (some s) h), refl)
memory_get-save_other (some m) s id h = inl (ap got (Dict.get-put_ne m s.id id (some s) h))

memory_save-IsKept :
    {D : Type 0} (st : MemoryStore D) (s : Session D)
    → IsKept st
    → s.is_new ≡ false
    → IsKept (memory_save st s).1
memory_save-IsKept st s kept old id t e = go (str_eq s.id id) refl
  where
    go : (b : Bool) → str_eq s.id id ≡ b → (t.id ≡ id) × (t.is_new ≡ false)
    go true h =
        let same : s.id ≡ id = (eq_iff s.id id).0 h in
        let found : memory_get (memory_save st s).1 id ≡ session s =
          subst (λ k. memory_get (memory_save st s).1 k ≡ session s) same (memory_save-get st s) in
        let own : s ≡ t = cc in (sym (ap Session.id own) ∙ same, sym (ap Session.is_new own) ∙ old)
    go false h = elim (memory_get-save_other st s id (ground (arith, eq_iff s.id id))) [
      | inl f ↦ kept id t (sym f ∙ e)
      | inr (f, g) ↦ absurd (cc)
    ]

memory_save-error : {D : Type 0} (st : MemoryStore D) (s : Session D) → (memory_save st s).0 ≡ none
unfolding memory_save
memory_save-error none s = refl
memory_save-error (some m) s = refl

-- the cookie of the next request: that of the response, or the one of the request
abbrev pub next_cookie : Option String → Option String → Option String
next_cookie none cookie = cookie
next_cookie (some id) cookie = some id

module _ {D : Type 0} (empty : D) where
  create-is_new :
      (create_it : Bool) (new : NewId) (id : String) (s : Session D)
      → create empty create_it new id ≡ ok s
      → s.is_new ≡ true
  create-is_new false new id s h = absurd (cc)
  create-is_new true new id s h = go (str_eq id "") new h
    where
      is_own : (j : String) → ok (new_session empty j) ≡ ok s → s.is_new ≡ true
      is_own j e = let own : new_session empty j ≡ s = cc in sym (ap Session.is_new own)

      go :
          (b : Bool) (new : NewId)
          → (if b then with_new_id empty new else ok (new_session empty id)) ≡ ok s
          → s.is_new ≡ true
      go false new e = is_own id e
      go true (made j) e = is_own j e
      go true (failed f) e = absurd (cc)

  -- a session that Get answers is new, or the one of the cookie
  manager_get-cookie :
      (st : MemoryStore D) (cookie : Option String) (create_it : Bool) (new : NewId) (s : Session D)
      → IsKept st
      → manager_get empty memory_store st cookie create_it new ≡ ok s
      → (s.is_new ≡ true) ⊎ ((cookie ≡ some s.id) × (s.is_new ≡ false))
  unfolding manager_get
  manager_get-cookie st none create_it new s kept h = inl (create-is_new create_it new "" s h)
  manager_get-cookie st (some id) create_it new s kept h = go (memory_get st id) refl h
    where
      go :
          (g : Got D)
          → memory_get st id ≡ g
          → from_store empty create_it new id g ≡ ok s
          → (s.is_new ≡ true) ⊎ ((some id ≡ some s.id) × (s.is_new ≡ false))
      go (session t) e f =
          let own : t ≡ s = cc in
          let (same, old) = kept id s (e ∙ ap session own) in inr (ap some (sym same), old)
      go nothing e f = inl (create-is_new create_it new id s f)
      go (refused no_session) e f = inl (create-is_new create_it new id s f)
      go (refused (failure x)) e f = absurd (cc)
      go (refused (wrap x y)) e f = absurd (cc)

  -- A session that Get answers for a request, with other data, is saved without an error in the store in
  -- memory, and the request that follows, with the cookie that was set for it or else the same one, gets
  -- it with these data, no longer new. A request with the cookie of another session gets what it got.
  -- The store still has each session under its id, as before.
  pub save_session-manager_get :
      (st : MemoryStore D) (cookie : Option String) (create_it : Bool) (new : NewId) (s : Session D)
      (v : D) (id : String)
      → IsKept st
      → manager_get empty memory_store st cookie create_it new ≡ ok s
      → s.id ≢ id
      → let r = save_session memory_store st (record s { data_ = v }) in
        (r.1 ≡ none)
        × (manager_get empty memory_store r.2 (next_cookie r.0 cookie) create_it new
            ≡ ok (record s { is_new = false; data_ = v }))
        × (manager_get empty memory_store r.2 (some id) create_it new
            ≡ manager_get empty memory_store st (some id) create_it new)
        × IsKept r.2
  unfolding manager_get save_session
  save_session-manager_get st cookie create_it new s v id kept h other =
      (memory_save-error st s', gets, others, memory_save-IsKept st s' kept refl)
    where
      s' : Session D
      s' = record s { is_new = false; data_ = v }

      at_own :
          manager_get empty memory_store (memory_save st s').1 (some s.id) create_it new ≡ ok s'
      at_own = ap (from_store empty create_it new s.id) (memory_save-get st s')

      gets :
          manager_get empty memory_store
            (memory_save st s').1
            (next_cookie (if s.is_new then some s.id else none) cookie)
            create_it
            new
          ≡ ok s'
      gets = elim (manager_get-cookie st cookie create_it new s kept h) [
        | inl e ↦
            ap
              (λ b.
                manager_get empty memory_store (memory_save st s').1
                  (next_cookie (if b then some s.id else none) cookie) create_it new)
              e
            ∙ at_own
        | inr (e, old) ↦
            ap
              (λ b.
                manager_get empty memory_store (memory_save st s').1
                  (next_cookie (if b then some s.id else none) cookie) create_it new)
              old
            ∙ ap (λ c. manager_get empty memory_store (memory_save st s').1 c create_it new) e
            ∙ at_own
      ]

      others :
          manager_get empty memory_store (memory_save st s').1 (some id) create_it new
          ≡ manager_get empty memory_store st (some id) create_it new
      others = elim (memory_get-save_other st s' id other) [
        | inl e ↦ ap (from_store empty create_it new id) e
        | inr (e, f) ↦
            ap (from_store empty create_it new id) e
            ∙ sym (ap (from_store empty create_it new id) f)
      ]
