-- ===== src/Rpc/Auth/Tokens.antt =====
-- Authenticate, AuthenticateTo and signAccessTokenForEntity of rpc/server_auth.go: the tokens that a
-- server issues. Signing is a parameter; the issuer, the time and the id of a token, which the code
-- sets and does not read again, are left out.
use goutils.Common.{String, Bool, true, false, Option, none, some, List, [], ◌∷◌, if◌then◌else◌}
use goutils.Common.Dict.{Dict}
use goutils.Common.Dict
use goutils.Rpc.Auth.{
  status, text, Result, ok, err, Claims, Token, Context, AuthHandler, CredAuthHandlers, Server,
  Libraries, is_status, context_auth_entity, auth_handlers,
}

-- authKeyForJWTSigning, with what SignedString answers for its private key
pub record SigningKey : Type 0 where
  pub id : String
  pub method : String
  pub signed_string : Token → Option String

-- AuthenticateRequest: the type and the payload of the credentials
pub record AuthenticateRequest : Type 0 where
  pub entity : String
  pub credentials : Option (String × String)

abbrev pub issued : SigningKey → Claims → Token
issued key claims = record { alg = key.method; kid = some key.id; claims = claims }

abbrev pub signed_answer : Option String → Result String
signed_answer none = err (status "PermissionDenied" "failed to authenticate")
signed_answer (some s) = ok s

-- signAccessTokenForEntity
unfoldable pub sign_access_token_for_entity :
    SigningKey → String → List String → String → Dict String → Result String
sign_access_token_for_entity key for_type audience entity md = signed_answer (
    key.signed_string (
      issued key (record {
        subject = entity;
        audience = audience;
        credentials_type = for_type;
        metadata = md;
      })))

abbrev pub has_header : Option (List String) → Bool
has_header (some (h ∷ hs)) = true
has_header _ = false

-- AuthenticateTo, where authToHandler is a parameter
unfoldable pub authenticate_to :
    {D : Type 0}
    → SigningKey
    → (Context D → String → Result (Dict String))
    → Context D
    → String
    → Result String
unfolding sign_access_token_for_entity
authenticate_to key auth_to_handler ctx entity = elim (context_auth_entity ctx) [
  | none ↦ err (status "Internal" "entity should be available")
  | some e ↦ elim (auth_to_handler ctx entity) [
    | err x ↦ err x
    | ok md ↦ sign_access_token_for_entity key "external" (entity ∷ []) e.entity md
  ]
]

module _ {K D : Type 0} (lib : Libraries K) (key : SigningKey) where
  abbrev pub signed : Server K D → String → String → Result (Dict String) → Result String
  signed ss entity for_type (ok md) =
      sign_access_token_for_entity key for_type ss.auth_audience entity md
  signed ss entity for_type (err e) =
      if is_status lib e then err e else err (status "PermissionDenied" "failed to authenticate")

  abbrev pub handled : Server K D → String → String → String → Option AuthHandler → Result String
  handled ss entity for_type payload none =
      err (status "Unimplemented" "direct authentication not supported")
  handled ss entity for_type payload (some h) = signed ss entity for_type (h entity payload)

  abbrev pub with_handlers :
      Server K D → String → String → String → Result (CredAuthHandlers K D) → Result String
  with_handlers ss entity for_type payload (err e) = err e
  with_handlers ss entity for_type payload (ok h) =
      handled ss entity for_type payload h.auth_handler

  abbrev pub with_credentials : Server K D → String → Option (String × String) → Result String
  with_credentials ss entity none = err (status "InvalidArgument" "credentials required")
  with_credentials ss entity (some (for_type, payload)) =
      with_handlers ss entity for_type payload (auth_handlers ss for_type)

  abbrev pub with_metadata :
      Server K D → AuthenticateRequest → Option (Dict (List String)) → Result String
  with_metadata ss req none = err (text "expected metadata")
  with_metadata ss req (some md) =
      if has_header (Dict.get md "authorization")
      then err (status "InvalidArgument" "already authenticated; cannot re-authenticate")
      else with_credentials ss req.entity req.credentials

  unfoldable pub authenticate : Server K D → Context D → AuthenticateRequest → Result String
  unfolding sign_access_token_for_entity auth_handlers
  authenticate ss ctx req = with_metadata ss req ctx.metadata
