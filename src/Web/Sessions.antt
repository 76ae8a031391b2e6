-- ===== src/Web/Sessions.antt =====
-- web/sessions.go: the manager of sessions over any store, and the store in memory. A request is
-- the value of its session cookie, if it has one, and a response the cookie that it sets. What is
-- done to the data of a session that is held elsewhere is not modelled.
pub mod Laws
use goutils.Common.{String, [], Bool, true, false, Option, none, some, if◌then◌else◌, str_eq}
use goutils.Common.Dict.{Dict}
use goutils.Common.Dict

pub record Session (D : Type 0) : Type 0 where
  pub is_new : Bool
  pub id : String
  pub data_ : D

pub data Error : Type 0 where
  -- errNoSession
  no_session : Error
  failure : String → Error
  wrap : String → Error → Error

-- A result of a store's Get: the pointer may be nil.
pub data Got (D : Type 0) : Type 0 where
  session : Session D → Got D
  nothing : Got D
  refused : Error → Got D

-- the interface Store over a state S; the result of a change is its state, or an error
pub record Store (S D : Type 0) : Type 0 where
  pub get : S → String → Got D
  pub delete : S → String → Option Error × S
  pub save : S → Session D → Option Error × S

-- memorySessionStore; `none` is the nil map
abbrev pub MemoryStore : Type 0 → Type 0
MemoryStore D = Option (Dict (Option (Session D)))

module _ {D : Type 0} where
  abbrev pub got : Option (Option (Session D)) → Got D
  got none = nothing
  got (some none) = nothing
  got (some (some s)) = session s

  unfoldable pub memory_get : MemoryStore D → String → Got D
  memory_get none id = refused no_session
  memory_get (some m) id = got (Dict.get m id)

  unfoldable pub memory_delete : MemoryStore D → String → Option Error × MemoryStore D
  memory_delete none id = (none, none)
  memory_delete (some m) id = (none, some (Dict.put m id none))

  unfoldable pub memory_save : MemoryStore D → Session D → Option Error × MemoryStore D
  memory_save none s = (none, some (Dict.put [] s.id (some s)))
  memory_save (some m) s = (none, some (Dict.put m s.id (some s)))

  abbrev pub memory_store : Store (MemoryStore D) D
  memory_store = record { get = memory_get; delete = memory_delete; save = memory_save }

pub data Result (D : Type 0) : Type 0 where
  ok : Session D → Result D
  err : Error → Result D

-- what newID answers: an id, or the error of the random source
pub data NewId : Type 0 where
  made failed : String → NewId

module _ {D : Type 0} (empty : D) where
  abbrev pub new_session : String → Session D
  new_session id = record { is_new = true; id = id; data_ = empty }

  abbrev pub with_new_id : NewId → Result D
  with_new_id (made id) = ok (new_session id)
  with_new_id (failed e) = err (wrap "couldn't create new id" (failure e))

  -- Get of the manager, once the store has no session
  abbrev pub create : Bool → NewId → String → Result D
  create create_it new id =
      if create_it
      then (if str_eq id "" then with_new_id new else ok (new_session id))
      else err no_session

  abbrev pub from_store : Bool → NewId → String → Got D → Result D
  from_store create_it new id (session s) = ok s
  from_store create_it new id nothing = create create_it new id
  from_store create_it new id (refused no_session) = create create_it new id
  from_store create_it new id (refused e) = err (wrap "couldn't get cookie from store" e)

  -- SessionManager.Get
  unfoldable pub manager_get :
      {S : Type 0} → Store S D → S → Option String → Bool → NewId → Result D
  manager_get store st none create_it new = create create_it new ""
  manager_get store st (some id) create_it new = from_store create_it new id (store.get st id)

module _ {S D : Type 0} (store : Store S D) where
  -- DeleteSession, of the store; the cookie is always taken away
  unfoldable pub delete_session : S → Option String → S
  delete_session st none = st
  delete_session st (some id) = (store.delete st id).1

  -- Save of a session: the cookie that is set, the error, and the store
  unfoldable pub save_session : S → Session D → Option String × Option Error × S
  save_session st s =
      let (e, st') = store.save st (record s { is_new = false }) in
      (if s.is_new then some s.id else none, e, st')
