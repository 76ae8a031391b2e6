-- ===== src/Rpc/ClientAuth.antt =====
-- rpc/dialer.go: perRPCJWTCredentials, the token that a client's calls carry, and the interceptor of
-- rpc/client_interceptors.go that forgets it. The methods Authenticate and AuthenticateTo of the server
-- are the record AuthClient; a call takes the state of the server with it. authenticate is one step: it
-- holds the lock but for a first look at the token.
pub mod Calls
mod Tests
use Prim.Native.String.{◌++◌ as append}
use goutils.Common.{
  ℕ, String, Bool, true, false, Option, none, some, List, [], ◌∷◌, ◌||◌, if◌then◌else◌, has_suffix,
}
use goutils.Rpc.DialOptions.{Credentials}
use goutils.Rpc.Dial.{Outcome, done, failed, is_unset}
use goutils.Rpc.DialDirect.{JwtCredentials}

-- the codes of the errors of a call that the interceptor looks at
pub data Code : Type 0 where
  ok_code : Code
  unauthenticated : Code
  permission_denied : Code
  other_code : Code

module _ (S : Type 0) where
  -- the access token that the response has, and the state of the server behind the call
  pub record AuthClient : Type 0 where
    pub authenticate : S → String → Credentials → Outcome String × S
    -- with the header "authorization" and the entity
    pub authenticate_to : S → String → String → Outcome String × S

module _ {S : Type 0} where
  abbrev pub kept : JwtCredentials → Outcome String × S → Outcome String × (JwtCredentials × S)
  kept j (failed e, s) = (failed e, (j, s))
  kept j (done token, s) = (done token, (record j { access_token = token }, s))

  abbrev pub bearer :
      Outcome String × (JwtCredentials × S) → Outcome (Option String) × (JwtCredentials × S)
  bearer (failed e, s) = (failed e, s)
  bearer (done token, s) = (done (some (append "Bearer " token)), s)

  -- the token to go on with, which is still to be given to the external server
  abbrev pub own_token : AuthClient S → JwtCredentials → S → Outcome String × S
  own_token client j s =
      let sent = client.authenticate s j.entity j.creds in
      if is_unset j.external_auth_material then sent else (done j.external_auth_material, s)

  abbrev pub external_token :
      AuthClient S → JwtCredentials → Outcome String × S → Outcome String × S
  external_token client j (failed e, s) = (failed e, s)
  external_token client j (done token, s) =
      let sent = client.authenticate_to s (append "Bearer " token) j.external_auth_to_entity in
      if is_unset j.external_auth_to_entity then (done token, s) else sent

  -- perRPCJWTCredentials.authenticate
  unfoldable pub authenticate :
      AuthClient S → JwtCredentials → S → Outcome String × (JwtCredentials × S)
  authenticate client j s =
      let fresh = kept j (external_token client j (own_token client j s)) in
      if is_unset j.access_token then fresh else (done j.access_token, (j, s))

-- UnaryClientInvalidAuthInterceptor, behind the call
abbrev pub forgets : Code → Bool
forgets unauthenticated = true
forgets permission_denied = true
forgets c = false

unfoldable pub intercept : Code → JwtCredentials → JwtCredentials
intercept c j = if forgets c then record j { access_token = "" } else j

abbrev pub is_auth_service : List String → Bool
is_auth_service [] = false
is_auth_service (uri ∷ uris) = has_suffix uri "/proto.rpc.v1.AuthService" || is_auth_service uris

-- GetRequestMetadata
unfoldable pub get_request_metadata :
    {S : Type 0}
    → AuthClient S
    → List String
    → JwtCredentials
    → S
    → Outcome (Option String) × (JwtCredentials × S)
unfolding authenticate
get_request_metadata client uris j s =
    let answer = bearer (authenticate client j s) in
    if is_auth_service uris then (done none, (j, s)) else answer
