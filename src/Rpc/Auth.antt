-- ===== src/Rpc/Auth.antt =====
-- rpc/server_auth.go and rpc/auth.go: who may call a method. What the libraries for tokens and for
-- statuses answer is a parameter; K are the keys of the token library and D what is loaded for an
-- entity. Logging is left out, and a Context has the values that this code reads or sets.
pub mod Library
pub mod Authentic
pub mod Methods
pub mod Simple
pub mod Tokens
pub mod RoundTrip
mod Tests
use Prim.Native.String.{◌++◌ as append}
use goutils.Common.{
  String, Bool, true, false, ◌||◌, ◌&&◌, not, Option, none, some, List, [], ◌∷◌, ◌++◌,
  if◌then◌else◌, str_eq, is_in, after_prefix,
}
use goutils.Common.Dict.{Dict}
use goutils.Common.Dict

pub data Error : Type 0 where
  -- status.Error, with the name of its code
  status : String → String → Error
  -- errNotTLSAuthed
  not_tls_authed : Error
  text : String → Error
  -- multierr.Combine
  both : Error → Error → Error

pub data Result (A : Type 0) : Type 0 where
  ok : A → Result A
  err : Error → Result A

-- errors.Is(err, errNotTLSAuthed)
abbrev pub is_not_tls_authed : Error → Bool
is_not_tls_authed (status c m) = false
is_not_tls_authed not_tls_authed = true
is_not_tls_authed (text m) = false
is_not_tls_authed (both a b) = is_not_tls_authed a || is_not_tls_authed b

-- JWTClaims
pub record Claims : Type 0 where
  pub subject : String
  pub audience : List String
  pub credentials_type : String
  pub metadata : Dict String

-- jwt.Token: the algorithm, the key id in its header, and the claims
pub record Token : Type 0 where
  pub alg : String
  pub kid : Option String
  pub claims : Claims

-- The leaf certificate that TLS has verified.
pub record Certificate : Type 0 where
  pub dns_names : List String
  pub issuer : String
  pub serial_number : String

pub record EntityInfo (D : Type 0) : Type 0 where
  pub entity : String
  pub data_ : Option D

pub record Context (D : Type 0) : Type 0 where
  -- incoming metadata
  pub metadata : Option (Dict (List String))
  pub verified_cert : Option Certificate
  pub auth_entity : Option (EntityInfo D)

abbrev pub AuthHandler : Type 0
AuthHandler = String → String → Result (Dict String)

pub record CredAuthHandlers (K D : Type 0) : Type 0 where
  pub auth_handler : Option AuthHandler
  pub entity_data_loader : Option (Claims → Result D)
  pub token_verification_key_provider : Option (Token → Result K)

-- authKeyData; the method is named by its algorithm
pub record AuthKeyData (K : Type 0) : Type 0 where
  pub method : Option String
  pub public_key : K

pub record Server (K D : Type 0) : Type 0 where
  pub exempt_methods : List String
  pub public_methods : List String
  pub auth_keys : Dict (AuthKeyData K)
  pub tls_auth_handler : Option (List String → Option Error)
  pub auth_handlers_for_creds : Dict (CredAuthHandlers K D)
  pub auth_audience : List String
  pub ensure_authed_handler : Option (Context D → Result (Context D))

-- jwt.ParseWithClaims with the valid methods, VerifyAudience, Valid, and the code of a status error
pub record Libraries (K : Type 0) : Type 0 where
  pub parse_with_claims : String → (Token → Result K) → Result Claims
  pub verify_audience : Claims → String → Bool
  pub claims_valid : Claims → Option Error
  pub status_code : Error → Option String

abbrev required : Result String
required = err (status "Unauthenticated" "authentication required")

abbrev bearer : Option String → Result String
bearer none = err (status "Unauthenticated" "expected authorization header with prefix: Bearer ")
bearer (some token) = ok token

abbrev from_header : Option (List String) → Result String
from_header (some (h ∷ [])) = bearer (after_prefix "Bearer " h)
from_header _ = required

module _ {D : Type 0} where
  -- ContextWithAuthEntity
  abbrev pub with_auth_entity : Context D → EntityInfo D → Context D
  with_auth_entity ctx e = record ctx { auth_entity = some e }

  -- ContextAuthEntity
  abbrev pub context_auth_entity : Context D → Option (EntityInfo D)
  context_auth_entity ctx = elim ctx.auth_entity [
    | none ↦ none
    | some e ↦ if str_eq e.entity "" then none else some e
  ]

  unfoldable pub token_from_context : Context D → Result String
  token_from_context ctx = elim ctx.metadata [
    | none ↦ required
    | some md ↦ from_header (Dict.get md "authorization")
  ]

  abbrev pub cert_entity : Certificate → EntityInfo D
  cert_entity c = record { entity = append (append c.issuer ":") c.serial_number; data_ = none }

  abbrev pub tls_answer : Context D → Error → Certificate → Option Error → Result (Context D)
  tls_answer ctx e c none = ok (with_auth_entity ctx (cert_entity c))
  tls_answer ctx e c (some x) = if not (is_not_tls_authed x) then err (both e x) else err e

  abbrev pub tls_checked :
      Context D
      → Error
      → Option (List String → Option Error)
      → Option Certificate
      → Result (Context D)
  tls_checked ctx e none cert = err e
  tls_checked ctx e (some h) none = err e
  tls_checked ctx e (some h) (some c) = tls_answer ctx e c (h c.dns_names)

abbrev pub own_key : {K : Type 0} → Token → AuthKeyData K → Result K
own_key token k = elim k.method [
  | none ↦ err (text "internal server error")
  | some alg ↦
      if str_eq token.alg alg then ok k.public_key else err (text "unexpected signing method")
]

abbrev pub audience_verified : {K : Type 0} → Libraries K → List String → Claims → Bool
audience_verified lib [] claims = false
audience_verified lib (a ∷ rest) claims =
    lib.verify_audience claims a || audience_verified lib rest claims

abbrev pub is_status : {K : Type 0} → Libraries K → Error → Bool
is_status lib e = elim (lib.status_code e) [ none ↦ false | some c ↦ true ]

abbrev is_unauthenticated : Option String → Bool
is_unauthenticated none = false
is_unauthenticated (some c) = str_eq c "Unauthenticated"

module _ {K D : Type 0} where
  abbrev pub handler_or_error : Option (CredAuthHandlers K D) → Result (CredAuthHandlers K D)
  handler_or_error none = err (status "InvalidArgument" "do not know how to handle credential type")
  handler_or_error (some h) = ok h

  -- authHandlers
  unfoldable pub auth_handlers : Server K D → String → Result (CredAuthHandlers K D)
  auth_handlers ss for_type = handler_or_error (Dict.get ss.auth_handlers_for_creds for_type)

  -- ensureAuthed where there is no token
  unfoldable pub tls_authed : Server K D → Context D → Error → Result (Context D)
  tls_authed ss ctx e = tls_checked ctx e ss.tls_auth_handler ctx.verified_cert

  abbrev pub signed_by_us : Server K D → Token → Result K
  signed_by_us ss token = elim token.kid [
    | none ↦ err (text "kid header not in token header")
    | some kid ↦ elim (Dict.get ss.auth_keys kid) [
      | none ↦ err (text "this server did not sign this JWT")
      | some k ↦ own_key token k
    ]
  ]

  abbrev pub key_with : Server K D → Token → Result (CredAuthHandlers K D) → Result K
  key_with ss token (err e) = err e
  key_with ss token (ok h) = elim h.token_verification_key_provider [
    | some provider ↦ provider token
    | none ↦ signed_by_us ss token
  ]

  -- the function that ensureAuthed gives to ParseWithClaims
  unfoldable pub verification_key : Server K D → Token → Result K
  unfolding auth_handlers
  verification_key ss token = key_with ss token (auth_handlers ss token.claims.credentials_type)

  -- the handlers that the verification has left: the same ones, for these claims; none where it
  -- has found none
  abbrev pub handlers_of : Server K D → Claims → CredAuthHandlers K D
  handlers_of ss claims = elim (auth_handlers ss claims.credentials_type) [
    | ok h ↦ h
    | err e ↦ record {
      auth_handler = none;
      entity_data_loader = none;
      token_verification_key_provider = none;
    }
  ]

  module _ (lib : Libraries K) where
    abbrev pub loaded : Context D → Claims → Result D → Result (Context D)
    loaded ctx claims (ok d) =
        ok (with_auth_entity ctx (record { entity = claims.subject; data_ = some d }))
    loaded ctx claims (err e) =
        if is_status lib e then err e else err (status "Internal" "failed to load entity data")

    abbrev pub load_entity : Context D → Claims → Option (Claims → Result D) → Result (Context D)
    load_entity ctx claims none =
        ok (with_auth_entity ctx (record { entity = claims.subject; data_ = none }))
    load_entity ctx claims (some loader) = loaded ctx claims (loader claims)

    -- the answer by whether an audience was verified, what Valid says, and whether the subject is ""
    abbrev pub judged :
        Context D
        → Claims
        → Option (Claims → Result D)
        → Bool
        → Option Error
        → Bool
        → Result (Context D)
    judged ctx claims loader false valid anonymous =
        err (status "Unauthenticated" "invalid audience")
    judged ctx claims loader true (some e) anonymous =
        err (status "Unauthenticated" "unauthenticated")
    judged ctx claims loader true none true =
        err (status "Unauthenticated" "expected entity (sub) in claims")
    judged ctx claims loader true none false = load_entity ctx claims loader

    -- ensureAuthed behind the parsing of the token
    abbrev pub check_claims : Server K D → Context D → Claims → Result (Context D)
    check_claims ss ctx claims =
        judged ctx claims (handlers_of ss claims).entity_data_loader
          (audience_verified lib ss.auth_audience claims) (lib.claims_valid claims)
          (str_eq claims.subject "")

    abbrev pub parsed : Server K D → Context D → Result Claims → Result (Context D)
    parsed ss ctx (err e) = err (status "Unauthenticated" "unauthenticated")
    parsed ss ctx (ok claims) = check_claims ss ctx claims

    abbrev pub by_token : Server K D → Context D → Result String → Result (Context D)
    by_token ss ctx (err e) = tls_authed ss ctx e
    by_token ss ctx (ok token) = parsed ss ctx (lib.parse_with_claims token (verification_key ss))

    unfoldable pub ensure_authed : Server K D → Context D → Result (Context D)
    unfolding token_from_context tls_authed verification_key
    ensure_authed ss ctx = elim ss.ensure_authed_handler [
      | some h ↦ h ctx
      | none ↦ by_token ss ctx (token_from_context ctx)
    ]

    abbrev pub tried : Context D → Result (Context D) → Result (Context D)
    tried ctx (ok next) = ok next
    tried ctx (err e) = if is_unauthenticated (lib.status_code e) then ok ctx else err e

    unfoldable pub try_auth : Server K D → Context D → Result (Context D)
    unfolding ensure_authed
    try_auth ss ctx = tried ctx (ensure_authed ss ctx)
