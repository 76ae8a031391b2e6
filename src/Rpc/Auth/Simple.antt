-- ===== src/Rpc/Auth/Simple.antt =====
-- The handlers of rpc/auth.go that compare an entity and a payload with what is expected. A panic is
-- `none`; ConstantTimeCompare answers 1 just for equal texts.
use goutils.Common.{
  String, ◌≡◌, refl, Bool, true, false, ◌&&◌, Option, none, some, List, [], ◌∷◌, if◌then◌else◌,
  is_in, str_eq, arith, eq_iff,
}
use goutils.Common.Dict.{Dict}
use goutils.Common.Dict
use goutils.Rpc.Auth.{Error, status, Result, ok, err, AuthHandler}

abbrev pub err_invalid_credentials : Error
err_invalid_credentials = status "Unauthenticated" "invalid credentials"

abbrev pub err_cannot_auth_entity : Error
err_cannot_auth_entity = status "Unauthenticated" "cannot authenticate entity"

-- the inner loop of MakeEntitiesChecker
abbrev is_among : List String → String → Bool
is_among [] entity = false
is_among (x ∷ xs) entity = if str_eq entity x then true else is_among xs entity

-- MakeEntitiesChecker; `none` is a nil error
unfoldable pub entities_checker : List String → List String → Option Error
entities_checker for_entities [] = some err_cannot_auth_entity
entities_checker for_entities (x ∷ xs) =
    let rest = entities_checker for_entities xs in if is_among for_entities x then none else rest

-- the loop over the expected payloads
abbrev expected : String → List String → Result (Dict String)
expected payload [] = err err_invalid_credentials
expected payload (x ∷ xs) =
    let rest = expected payload xs in if str_eq payload x then ok [] else rest

-- an error of the checker is always errCannotAuthEntity
abbrev checked : Option Error → Result (Dict String) → Result (Dict String)
checked none r = r
checked (some e) r = err err_invalid_credentials

-- MakeSimpleMultiAuthHandler
unfoldable pub simple_multi_auth_handler : List String → List String → Option AuthHandler
unfolding entities_checker
simple_multi_auth_handler for_entities [] = none
simple_multi_auth_handler for_entities (x ∷ xs) = some (λ entity payload.
    checked (entities_checker for_entities (entity ∷ [])) (expected payload (x ∷ xs)))

-- MakeSimpleAuthHandler
unfoldable pub simple_auth_handler : List String → String → Option AuthHandler
unfolding simple_multi_auth_handler
simple_auth_handler for_entities payload = simple_multi_auth_handler for_entities (payload ∷ [])

abbrev of_pair : String → Option String → Result (Dict String)
of_pair payload none = err err_invalid_credentials
of_pair payload (some p) = if str_eq p payload then ok [] else err err_invalid_credentials

-- MakeSimpleMultiAuthPairHandler
unfoldable pub simple_multi_auth_pair_handler : Dict String → Option AuthHandler
simple_multi_auth_pair_handler [] = none
simple_multi_auth_pair_handler (x ∷ xs) =
    some (λ entity payload. of_pair payload (Dict.get (x ∷ xs) entity))

is_among_lem : (xs : List String) (e : String) → is_among xs e ≡ is_in xs e
is_among_lem [] e = refl
is_among_lem (x ∷ xs) e = ground (arith, is_among_lem xs e, eq_iff e x, eq_iff x e)

expected_lem :
    (payload : String) (xs : List String)
    → expected payload xs ≡ (if is_in xs payload then ok [] else err err_invalid_credentials)
expected_lem payload [] = refl
expected_lem payload (x ∷ xs) =
    ground (arith, expected_lem payload xs, eq_iff payload x, eq_iff x payload)

-- The handler for several entities and payloads exists just where a payload is expected, and then
-- accepts just the pairs of one of the entities and one of the payloads; every other pair gets the
-- one error for invalid credentials, which does not tell whether the entity is known.
pub simple_multi_auth_handler_lem :
    (for_entities payloads : List String) (entity payload : String)
    → let answer : Result (Dict String) =
        if is_in for_entities entity && is_in payloads payload
        then ok []
        else err err_invalid_credentials in
      (elim (simple_multi_auth_handler for_entities payloads) [
        | none ↦ err err_cannot_auth_entity
        | some h ↦ h entity payload
      ])
      ≡ (elim payloads [ [] ↦ err err_cannot_auth_entity | x ∷ xs ↦ answer ])
unfolding simple_multi_auth_handler entities_checker
simple_multi_auth_handler_lem for_entities [] entity payload = refl
simple_multi_auth_handler_lem for_entities (x ∷ xs) entity payload =
    ground (arith, is_among_lem for_entities entity, expected_lem payload (x ∷ xs))
