-- ===== src/Web/Tests.antt =====
-- The theorems about sessions, on the store in memory.
use goutils.Common.{
  ℕ, ◌≡◌, refl, sym, ap, ◌∙◌, Bool, true, false, none, some, [], ◌∷◌, if◌then◌else◌, str_eq, arith,
  eq_iff,
}
use goutils.Common.Dict
use goutils.Web.Sessions.{
  Session, session, got, MemoryStore, memory_store, memory_get, manager_get, save_session, ok, made,
}
use goutils.Web.Sessions.Laws.{IsKept, next_cookie, save_session-manager_get}

abbrev ann : Session ℕ
ann = record { is_new = true; id = "ann"; data_ = 0 }

abbrev bob : Session ℕ
bob = record { is_new = false; id = "bob"; data_ = 8 }

abbrev stored : MemoryStore ℕ
stored = some (("bob", some bob) ∷ [])

stored-IsKept : IsKept stored
unfolding memory_get Dict.get
stored-IsKept id s = go (str_eq "bob" id) refl
  where
    go :
        (b : Bool)
        → str_eq "bob" id ≡ b
        → got (if b then some (some bob) else none) ≡ session s
        → (s.id ≡ id) × (s.is_new ≡ false)
    go true h e =
        let own : bob ≡ s = cc in
        (sym (ap Session.id own) ∙ (eq_iff "bob" id).0 h, sym (ap Session.is_new own))
    go false h e = absurd (cc)

ann_made : manager_get 0 memory_store stored (some "ann") true (made "x") ≡ ok ann
unfolding memory_get manager_get Dict.get
ann_made = refl

save_session-manager_get_example :
    let r = save_session memory_store stored (record ann { data_ = 7 }) in
    (r.1 ≡ none)
    × (manager_get 0 memory_store r.2 (next_cookie r.0 (some "ann")) true (made "x")
        ≡ ok (record ann { is_new = false; data_ = 7 }))
    × (manager_get 0 memory_store r.2 (some "bob") true (made "x")
        ≡ manager_get 0 memory_store stored (some "bob") true (made "x"))
    × IsKept r.2
save_session-manager_get_example =
    save_session-manager_get 0 stored (some "ann") true (made "x") ann 7 "bob" stored-IsKept
      ann_made (ground (arith, eq_iff "ann" "bob"))
