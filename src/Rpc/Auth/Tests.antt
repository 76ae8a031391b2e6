-- ===== src/Rpc/Auth/Tests.antt =====
-- A token library that reads one token, and the examples of the properties of rpc/server_auth.go and
-- rpc/auth.go.
use goutils.Common.{
  String, ◌≡◌, ◌⊎◌, inl, inr, refl, sym, Bool, true, false, Option, none, some, List, [], ◌∷◌, ap,
  ◌∙◌, Bool-cases, if◌then◌else◌, is_in, str_eq, eq_iff, arith,
}
use goutils.Rpc.Auth.{
  Error, status, not_tls_authed, text, both, Result, ok, err, Claims, Token, Context,
  CredAuthHandlers, Server, Libraries, with_auth_entity, token_from_context, auth_handlers,
  handler_or_error, handlers_of, verification_key, load_entity, ensure_authed,
}
use goutils.Rpc.Auth.Tokens.{
  SigningKey, AuthenticateRequest, signed_answer, authenticate, sign_access_token_for_entity,
}
use goutils.Rpc.Auth.RoundTrip.{OwnsKey, authenticate-ensure_authed}
use goutils.Common.Dict
use goutils.Rpc.Auth.Library.{IsDocumented}
use goutils.Rpc.Auth.Authentic.{IsAuthentic, ensure_authed-IsAuthentic}
use goutils.Rpc.Auth.Methods.{
  context, given, argument, auth_unary_interceptor, auth_stream_interceptor,
  auth_stream_interceptor-unary, auth_unary_interceptor-IsAuthentic,
}

abbrev one_claims : Claims
one_claims = record {
  subject = "robot";
  audience = "a" ∷ "b" ∷ [];
  credentials_type = "api-key";
  metadata = [];
}

abbrev one_token : Token
one_token = record { alg = "RS256"; kid = some "k1"; claims = one_claims }

abbrev by_key : Result String → Result Claims
by_key (ok k) = if str_eq k "public" then ok one_claims else err (text "bad signature")
by_key (err e) = err e

abbrev parse_one : Bool → (Token → Result String) → Result Claims
parse_one true f = by_key (f one_token)
parse_one false f = err (text "malformed")

abbrev code_of : Error → Option String
code_of (status c m) = some c
code_of not_tls_authed = none
code_of (text m) = none
code_of (both a b) = none

abbrev library : Libraries String
library = record {
  parse_with_claims = λ s f. parse_one (str_eq s "signed") f;
  verify_audience = λ claims a. is_in claims.audience a;
  claims_valid = λ claims. none;
  status_code = code_of;
}

abbrev IsSigned : String → Token → String → Type 0
IsSigned s t k = (str_eq s "signed" ≡ true) × (t ≡ one_token) × (str_eq k "public" ≡ true)

parsed_one :
    (s : String) (f : Token → Result String) (claims : Claims) (b : Bool)
    → str_eq s "signed" ≡ b
    → parse_one b f ≡ ok claims
    → (t : Token) × (k : String) × (f t ≡ ok k) × IsSigned s t k × (t.claims ≡ claims)
parsed_one s f claims false e h = absurd (cc)
parsed_one s f claims true e h = go (f one_token) refl h
  where
    with_key :
        (k : String) (b : Bool)
        → f one_token ≡ ok k
        → str_eq k "public" ≡ b
        → (if b then ok one_claims else err (text "bad signature")) ≡ ok claims
        → (t : Token) × (k : String) × (f t ≡ ok k) × IsSigned s t k × (t.claims ≡ claims)
    with_key k true p q h = (one_token, k, p, (e, refl, q), cc)
    with_key k false p q h = absurd (cc)

    go :
        (r : Result String)
        → f one_token ≡ r
        → by_key r ≡ ok claims
        → (t : Token) × (k : String) × (f t ≡ ok k) × IsSigned s t k × (t.claims ≡ claims)
    go (ok k) p h = with_key k (str_eq k "public") p refl h
    go (err x) p h = absurd (cc)

library-IsDocumented : IsDocumented library IsSigned
library-IsDocumented = record {
  parsed = λ s f claims h. parsed_one s f claims (str_eq s "signed") refl h;
  audience = λ claims a h. h;
  code = λ c m. refl;
}

abbrev one_handlers : CredAuthHandlers String String
one_handlers = record {
  auth_handler = some (λ entity payload. ok []);
  entity_data_loader = none;
  token_verification_key_provider = none;
}

abbrev one_server : Server String String
one_server = record {
  exempt_methods = "/exempt" ∷ [];
  public_methods = "/public" ∷ [];
  auth_keys = ("k1", record { method = some "RS256"; public_key = "public" }) ∷ [];
  tls_auth_handler = none;
  auth_handlers_for_creds = ("api-key", one_handlers) ∷ [];
  auth_audience = "a" ∷ "b" ∷ [];
  ensure_authed_handler = none;
}

abbrev one_context : Context String
one_context = record {
  metadata = some (("authorization", ("Bearer signed" ∷ [])) ∷ []);
  verified_cert = none;
  auth_entity = none;
}

abbrev no_context : Context String
no_context = record { metadata = none; verified_cert = none; auth_entity = none }

abbrev robot : Context String
robot = with_auth_entity one_context (record { entity = "robot"; data_ = none })

robot_authed : ensure_authed library one_server one_context ≡ ok robot
unfolding ensure_authed token_from_context verification_key goutils.Common.Dict.get
robot_authed = refl

robot_unary : auth_unary_interceptor library one_server "/private" one_context ≡ ok robot
unfolding auth_unary_interceptor ensure_authed goutils.Common.Dict.get
robot_unary = refl

ensure_authed-IsAuthentic_example : IsAuthentic library IsSigned one_server one_context robot
ensure_authed-IsAuthentic_example =
    ensure_authed-IsAuthentic library IsSigned library-IsDocumented one_server one_context robot
      refl robot_authed

auth_unary_interceptor-IsAuthentic_example :
    ((is_in one_server.exempt_methods "/private" ≡ true) × (robot ≡ one_context))
    ⊎ ((is_in one_server.public_methods "/private" ≡ true) × (robot ≡ one_context))
    ⊎ IsAuthentic library IsSigned one_server one_context robot
auth_unary_interceptor-IsAuthentic_example =
    auth_unary_interceptor-IsAuthentic library IsSigned library-IsDocumented one_server "/private"
      one_context robot refl robot_unary

auth_stream_interceptor-unary_example :
    auth_stream_interceptor library one_server "/public" no_context
    ≡ given library
        (argument library one_server "/public")
        (auth_unary_interceptor library one_server "/public" no_context)
auth_stream_interceptor-unary_example =
    auth_stream_interceptor-unary library one_server "/public" no_context

-- the handler of a public method, without a token
public_stream :
    auth_stream_interceptor library one_server "/public" no_context
    ≡ ok (context no_context, no_context)
unfolding auth_stream_interceptor ensure_authed token_from_context
public_stream = refl

string_discrete : Discrete String
string_discrete a b = elim (Bool-cases (str_eq a b)) [
  | inl e ↦ yes (ground (arith, eq_iff a b))
  | inr e ↦ no (λ same. ground (arith, eq_iff a b))
]

token_discrete : Discrete Token
token_discrete = hlevel string_discrete

abbrev only : {t : Token} → Dec (t ≡ one_token) → Option String
only (yes p) = some "signed"
only (no p) = none

abbrev one_key : SigningKey
one_key = record {
  id = "k1";
  method = "RS256";
  signed_string = λ t. only (token_discrete t one_token);
}

only_same : (d : Dec (one_token ≡ one_token)) → only d ≡ some "signed"
only_same (yes p) = refl
only_same (no p) = absurd (p refl)

abbrev one_request : AuthenticateRequest
one_request = record { entity = "robot"; credentials = some ("api-key", "secret") }

-- a call without a token
abbrev first_context : Context String
first_context = record { metadata = some []; verified_cert = none; auth_entity = none }

robot_signed :
    sign_access_token_for_entity one_key "api-key" ("a" ∷ "b" ∷ []) "robot" [] ≡ ok "signed"
unfolding sign_access_token_for_entity
robot_signed = ap signed_answer (only_same (token_discrete one_token one_token))

robot_token : authenticate library one_key one_server first_context one_request ≡ ok "signed"
unfolding authenticate auth_handlers goutils.Common.Dict.get
robot_token = robot_signed

one_known :
    Dict.get one_server.auth_keys "k1"
    ≡ some (record { method = some "RS256"; public_key = "public" })
unfolding goutils.Common.Dict.get
one_known = refl

one_parses :
    (t : Token) (s : String) (f : Token → Result String) (d : Dec (t ≡ one_token))
    → only d ≡ some s
    → f t ≡ ok "public"
    → parse_one (str_eq s "signed") f ≡ ok t.claims
one_parses t s f (yes p) e h =
    let signed : str_eq s "signed" ≡ true = ground (arith, eq_iff s "signed") in
    ap (λ b. parse_one b f) signed
    ∙ ap (λ u. by_key (f u)) (sym p)
    ∙ ap by_key h
    ∙ ap (λ u. ok (Token.claims u)) (sym p)
one_parses t s f (no p) e h = absurd (cc)

one_owns : OwnsKey library one_key one_server
one_owns = record {
  public_key = "public";
  known = one_known;
  parses = λ t s f e h. one_parses t s f (token_discrete t one_token) e h;
  verifies = λ claims a h. h;
}

abbrev of_handlers : Result (CredAuthHandlers String String) → Option (Token → Result String)
of_handlers (ok h) = h.token_verification_key_provider
of_handlers (err e) = none

one_provider :
    (t : String) (h : CredAuthHandlers String String)
    → auth_handlers one_server t ≡ ok h
    → h.token_verification_key_provider ≡ none
unfolding auth_handlers goutils.Common.Dict.get
one_provider t h e = go (str_eq "api-key" t) e
  where
    go :
        (b : Bool)
        → handler_or_error (if b then some one_handlers else none) ≡ ok h
        → h.token_verification_key_provider ≡ none
    go true x = sym (ap of_handlers x)
    go false x = absurd (cc)

one_sent : token_from_context one_context ≡ ok "signed"
unfolding token_from_context goutils.Common.Dict.get
one_sent = refl

authenticate-ensure_authed_example :
    (claims : Claims) × (claims.subject ≡ "robot")
    × (ensure_authed library one_server one_context
        ≡ load_entity library one_context claims (handlers_of one_server claims).entity_data_loader)
authenticate-ensure_authed_example =
    authenticate-ensure_authed library one_key one_server one_owns first_context one_context
      one_request "signed" "a" ("b" ∷ []) refl refl (λ claims t e. refl) one_provider refl
      robot_token one_sent
