-- ===== src/Rpc/Auth/RoundTrip.antt =====
-- A token of Authenticate comes back: ensureAuthed lets its bearer through as the entity.
use goutils.Common.{
  String, ◌≡◌, refl, ap, ◌∙◌, Bool, true, false, ◌||◌, Option, none, some, List, ◌∷◌, if◌then◌else◌,
  is_in, str_eq, eq_iff, arith,
}
use goutils.Common.Dict.{Dict}
use goutils.Common.Dict
use goutils.Rpc.Auth.{
  Error, status, text, Result, ok, err, Claims, Token, Context, AuthHandler, CredAuthHandlers,
  AuthKeyData, Server, Libraries, auth_handlers, own_key, signed_by_us, key_with, handlers_of,
  verification_key, token_from_context, audience_verified, load_entity, judged, parsed, by_token,
  ensure_authed,
}
use goutils.Rpc.Auth.Tokens.{
  SigningKey, AuthenticateRequest, issued, signed_answer, sign_access_token_for_entity, has_header,
  signed, handled, with_handlers, with_credentials, with_metadata, authenticate,
}

module _ {K D : Type 0} (lib : Libraries K) (key : SigningKey) where
  -- The server knows its own key, and the libraries keep what they document: a text that SignedString
  -- answers parses where the key for it is the public one, and an audience that the claims name is
  -- verified.
  pub record OwnsKey (ss : Server K D) : Type 0 where
    pub public_key : K
    pub known :
        Dict.get ss.auth_keys key.id
        ≡ some (record { method = some key.method; public_key = public_key })
    pub parses :
        (t : Token) (s : String) (f : Token → Result K)
        → key.signed_string t ≡ some s
        → f t ≡ ok public_key
        → lib.parse_with_claims s f ≡ ok t.claims
    pub verifies :
        (claims : Claims) (a : String)
        → is_in claims.audience a ≡ true
        → lib.verify_audience claims a ≡ true

  -- what authenticate has found where it answers a token
  pub record HasIssued (ss : Server K D) (req : AuthenticateRequest) (s : String) : Type 0 where
    pub claims : Claims
    pub handlers : CredAuthHandlers K D
    pub found : auth_handlers ss claims.credentials_type ≡ ok handlers
    pub subject : claims.subject ≡ req.entity
    pub audience : claims.audience ≡ ss.auth_audience
    pub text_ : key.signed_string (issued key claims) ≡ some s

  signed-HasIssued :
      (ss : Server K D) (req : AuthenticateRequest) (s for_type : String) (h : CredAuthHandlers K D)
      (r : Result (Dict String))
      → auth_handlers ss for_type ≡ ok h
      → signed lib key ss req.entity for_type r ≡ ok s
      → HasIssued ss req s
  unfolding sign_access_token_for_entity
  signed-HasIssued ss req s for_type h (err e) p x = absurd (ground arith)
  signed-HasIssued ss req s for_type h (ok md) p x =
      go (key.signed_string (issued key claims)) refl x
    where
      claims : Claims
      claims = record {
        subject = req.entity;
        audience = ss.auth_audience;
        credentials_type = for_type;
        metadata = md;
      }

      go :
          (o : Option String)
          → key.signed_string (issued key claims) ≡ o
          → signed_answer o ≡ ok s
          → HasIssued ss req s
      go none q y = absurd (cc)
      go (some t) q y = record {
        claims = claims;
        handlers = h;
        found = p;
        subject = refl;
        audience = refl;
        text_ = cc;
      }

  with_handlers-HasIssued :
      (ss : Server K D) (req : AuthenticateRequest) (s for_type payload : String)
      (r : Result (CredAuthHandlers K D))
      → auth_handlers ss for_type ≡ r
      → with_handlers lib key ss req.entity for_type payload r ≡ ok s
      → HasIssued ss req s
  with_handlers-HasIssued ss req s for_type payload (err e) p x = absurd (cc)
  with_handlers-HasIssued ss req s for_type payload (ok h) p x = go h.auth_handler x
    where
      go :
          (o : Option AuthHandler)
          → handled lib key ss req.entity for_type payload o ≡ ok s
          → HasIssued ss req s
      go none y = absurd (cc)
      go (some f) y = signed-HasIssued ss req s for_type h (f req.entity payload) p y

  with_credentials-HasIssued :
      (ss : Server K D) (req : AuthenticateRequest) (s : String) (c : Option (String × String))
      → with_credentials lib key ss req.entity c ≡ ok s
      → HasIssued ss req s
  with_credentials-HasIssued ss req s none x = absurd (cc)
  with_credentials-HasIssued ss req s (some (for_type, payload)) x =
      with_handlers-HasIssued ss req s for_type payload (auth_handlers ss for_type) refl x

  with_metadata-HasIssued :
      (ss : Server K D) (req : AuthenticateRequest) (s : String) (md : Option (Dict (List String)))
      → with_metadata lib key ss req md ≡ ok s
      → HasIssued ss req s
  with_metadata-HasIssued ss req s none x = absurd (cc)
  with_metadata-HasIssued ss req s (some md) x = go (has_header (Dict.get md "authorization")) x
    where
      go :
          (b : Bool)
          → (if b
              then err (status "InvalidArgument" "already authenticated; cannot re-authenticate")
              else with_credentials lib key ss req.entity req.credentials)
            ≡ ok s
          → HasIssued ss req s
      go true y = absurd (cc)
      go false y = with_credentials-HasIssued ss req s req.credentials y

  audience_verified-own :
      (ss : Server K D)
      → OwnsKey ss
      → (claims : Claims) (a : String) (rest : List String) → claims.audience ≡ a ∷ rest
      → audience_verified lib (a ∷ rest) claims ≡ true
  audience_verified-own ss own claims a rest e =
      ap (λ b. b || audience_verified lib rest claims)
        (own.verifies claims a (ap (λ as'. is_in as' a) e ∙ ground (arith, eq_iff a a)))

  judged-load_entity :
      (ctx : Context D) (claims : Claims) (o : Option (Claims → Result D)) (a e : Bool)
      (v : Option Error)
      → a ≡ true
      → v ≡ none
      → e ≡ false
      → judged lib ctx claims o a v e ≡ load_entity lib ctx claims o
  judged-load_entity ctx claims o a e v p q r = rw (p, q, r)

  -- the key that the server answers for its own token
  verification_key-own :
      (ss : Server K D) (own : OwnsKey ss) (claims : Claims) (h : CredAuthHandlers K D)
      → auth_handlers ss claims.credentials_type ≡ ok h
      → h.token_verification_key_provider ≡ none
      → verification_key ss (issued key claims) ≡ ok own.public_key
  unfolding verification_key
  verification_key-own ss own claims h p q =
      ap (key_with ss (issued key claims)) p
      ∙ by_provider h.token_verification_key_provider q
      ∙ by_kid (Dict.get ss.auth_keys key.id) own.known
    where
      by_provider :
          (o : Option (Token → Result K))
          → o ≡ none
          → (elim o [
            | some provider ↦ provider (issued key claims)
            | none ↦ signed_by_us ss (issued key claims)
          ])
            ≡ signed_by_us ss (issued key claims)
      by_provider o e = rw e

      by_kid :
          (o : Option (AuthKeyData K))
          → o ≡ some (record { method = some key.method; public_key = own.public_key })
          → (elim o [
            | none ↦ err (text "this server did not sign this JWT")
            | some k ↦ own_key (issued key claims) k
          ])
            ≡ ok own.public_key
      by_kid o e = rw e (ground (arith, eq_iff key.method key.method))

  -- A token that Authenticate answers for an entity that is not empty, sent as the bearer of another
  -- call to the same server, is accepted: the call gets the entity, with the data of the loader of
  -- its type of credentials, or the loader's error. The handler for testing is not set, the server
  -- knows its key and has an audience, no type of credentials has its own provider of keys, and the
  -- claims of signed tokens are valid.
  pub authenticate-ensure_authed :
      (ss : Server K D)
      → OwnsKey ss
      → (ctx next : Context D) (req : AuthenticateRequest) (s a : String) (rest : List String)
      → ss.ensure_authed_handler ≡ none
      → ss.auth_audience ≡ a ∷ rest
      → ((claims : Claims) (t : String)
          → key.signed_string (issued key claims) ≡ some t
          → lib.claims_valid claims ≡ none)
      → ((t : String) (h : CredAuthHandlers K D)
          → auth_handlers ss t ≡ ok h
          → h.token_verification_key_provider ≡ none)
      → str_eq req.entity "" ≡ false
      → authenticate lib key ss ctx req ≡ ok s
      → token_from_context next ≡ ok s
      → (claims : Claims) × (claims.subject ≡ req.entity)
        × (ensure_authed lib ss next
            ≡ load_entity lib next claims (handlers_of ss claims).entity_data_loader)
  unfolding authenticate ensure_authed
  authenticate-ensure_authed ss own ctx next req s a rest no_handler audience valid own_keys named x
        sent =
      let i = with_metadata-HasIssued ss req s ctx.metadata x in
      let loader = (handlers_of ss i.claims).entity_data_loader in
      let found = own.parses (issued key i.claims) s (verification_key ss) i.text_ (
        verification_key-own ss own i.claims i.handlers i.found
          (own_keys i.claims.credentials_type i.handlers i.found)) in
      let verified =
        ap (λ as'. audience_verified lib as' i.claims) audience
        ∙ audience_verified-own ss own i.claims a rest (i.audience ∙ audience) in
      let judgement =
        judged-load_entity next i.claims loader (audience_verified lib ss.auth_audience i.claims)
          (str_eq i.claims.subject "") (lib.claims_valid i.claims) verified
          (valid i.claims s i.text_) (ap (λ e. str_eq e "") i.subject ∙ named) in
      let default : ensure_authed lib ss next ≡ by_token lib ss next (token_from_context next) =
        rw no_handler in
      (
        i.claims,
        i.subject,
        default ∙ ap (by_token lib ss next) sent ∙ ap (parsed lib ss next) found ∙ judgement,
      )
