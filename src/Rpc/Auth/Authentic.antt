-- ===== src/Rpc/Auth/Authentic.antt =====
-- Whom ensureAuthed lets through.
use goutils.Common.{
  String, ◌≡◌, ◌⊎◌, inl, inr, refl, sym, subst, Bool, true, false, Option, none, some, List, [],
  ◌∷◌, is_in, str_eq, eq_iff, Bool-cases, arith,
}
use goutils.Rpc.Auth.{
  Error, Result, ok, err, Claims, Token, Certificate, Context, Server, Libraries, with_auth_entity,
  token_from_context, cert_entity, tls_answer, tls_checked, tls_authed, verification_key,
  handlers_of, audience_verified, loaded, load_entity, judged, check_claims, parsed, by_token,
  ensure_authed,
}
use goutils.Rpc.Auth.Library.{IsDocumented}

audience_verified-names :
    {K : Type 0} (lib : Libraries K) (IsSigned : String → Token → K → Type 0)
    → IsDocumented lib IsSigned
    → (as' : List String) (claims : Claims) → audience_verified lib as' claims ≡ true
    → (a : String) × (is_in as' a ≡ true) × (is_in claims.audience a ≡ true)
audience_verified-names lib IsSigned doc [] claims h = absurd (cc)
audience_verified-names lib IsSigned doc (a ∷ rest) claims h =
    elim (Bool-cases (lib.verify_audience claims a)) [
      | inl e ↦ (a, ground (arith, eq_iff a a), doc.audience claims a e)
      | inr e ↦
          let (b, p, q) = audience_verified-names lib IsSigned doc rest claims (ground arith) in
          (b, ground arith, q)
    ]

module _ {K D : Type 0} (lib : Libraries K) (IsSigned : String → Token → K → Type 0) where
  -- The caller has a token: one that is signed with the key that the server answers for it, meant
  -- for one of the server's audiences, valid, and with a subject, which is the entity.
  pub record HasToken (ss : Server K D) (ctx next : Context D) : Type 0 where
    pub token_text : String
    pub token : Token
    pub key : K
    pub audience : String
    pub sent : token_from_context ctx ≡ ok token_text
    pub accepted : verification_key ss token ≡ ok key
    pub signed : IsSigned token_text token key
    pub ours : is_in ss.auth_audience audience ≡ true
    pub named : is_in token.claims.audience audience ≡ true
    pub valid : lib.claims_valid token.claims ≡ none
    pub has_subject : str_eq token.claims.subject "" ≡ false
    pub data_ : Option D
    pub entity :
        next ≡ with_auth_entity ctx (record { entity = token.claims.subject; data_ = data_ })

  -- The caller sends no bearer token, but has a certificate that TLS has verified and the server's handler
  -- accepts by its names.
  pub record HasCertificate (ss : Server K D) (ctx next : Context D) : Type 0 where
    pub token_error : Error
    pub no_token : token_from_context ctx ≡ err token_error
    pub handler : List String → Option Error
    pub cert : Certificate
    pub configured : ss.tls_auth_handler ≡ some handler
    pub verified : ctx.verified_cert ≡ some cert
    pub accepted : handler cert.dns_names ≡ none
    pub entity : next ≡ with_auth_entity ctx (cert_entity cert)

  abbrev pub IsAuthentic : Server K D → Context D → Context D → Type 0
  IsAuthentic ss ctx next = HasToken ss ctx next ⊎ HasCertificate ss ctx next

  tls_answer-HasCertificate :
      (ss : Server K D) (ctx next : Context D) (e : Error) (h : List String → Option Error)
      (c : Certificate) (o : Option Error)
      → ss.tls_auth_handler ≡ some h
      → ctx.verified_cert ≡ some c
      → h c.dns_names ≡ o
      → token_from_context ctx ≡ err e
      → tls_answer ctx e c o ≡ ok next
      → HasCertificate ss ctx next
  tls_answer-HasCertificate ss ctx next e h c none p q r t x = record {
    token_error = e;
    no_token = t;
    handler = h;
    cert = c;
    configured = p;
    verified = q;
    accepted = r;
    entity = cc;
  }
  tls_answer-HasCertificate ss ctx next e h c (some y) p q r t x = absurd (ground arith)

  tls_checked-HasCertificate :
      (ss : Server K D) (ctx next : Context D) (e : Error) (h : Option (List String → Option Error))
      (c : Option Certificate)
      → ss.tls_auth_handler ≡ h
      → ctx.verified_cert ≡ c
      → token_from_context ctx ≡ err e
      → tls_checked ctx e h c ≡ ok next
      → HasCertificate ss ctx next
  tls_checked-HasCertificate ss ctx next e none c p q t x = absurd (cc)
  tls_checked-HasCertificate ss ctx next e (some h) none p q t x = absurd (cc)
  tls_checked-HasCertificate ss ctx next e (some h) (some c) p q t x =
      tls_answer-HasCertificate ss ctx next e h c (h c.dns_names) p q refl t x

  load_entity-ok :
      (ctx next : Context D) (claims : Claims) (o : Option (Claims → Result D))
      → load_entity lib ctx claims o ≡ ok next
      → (d : Option D) × (next
          ≡ with_auth_entity ctx (record { entity = claims.subject; data_ = d }))
  load_entity-ok ctx next claims none x = (none, cc)
  load_entity-ok ctx next claims (some f) x = go (f claims) x
    where
      go :
          (r : Result D)
          → loaded lib ctx claims r ≡ ok next
          → (d : Option D) × (next
              ≡ with_auth_entity ctx (record { entity = claims.subject; data_ = d }))
      go (ok d) y = (some d, cc)
      go (err e) y = absurd (ground arith)

  -- what check_claims has found where it answers a context
  record Checked (ss : Server K D) (ctx next : Context D) (claims : Claims) : Type 0 where
    pub verified : audience_verified lib ss.auth_audience claims ≡ true
    pub valid : lib.claims_valid claims ≡ none
    pub has_subject : str_eq claims.subject "" ≡ false
    pub data_ : Option D
    pub entity : next ≡ with_auth_entity ctx (record { entity = claims.subject; data_ = data_ })

  check_claims-Checked :
      (ss : Server K D) (ctx next : Context D) (claims : Claims)
      → check_claims lib ss ctx claims ≡ ok next
      → Checked ss ctx next claims
  check_claims-Checked ss ctx next claims x =
      go (audience_verified lib ss.auth_audience claims) (lib.claims_valid claims)
        (str_eq claims.subject "") refl refl refl x
    where
      go :
          (a : Bool) (v : Option Error) (e : Bool)
          → audience_verified lib ss.auth_audience claims ≡ a
          → lib.claims_valid claims ≡ v
          → str_eq claims.subject "" ≡ e
          → judged lib ctx claims (handlers_of ss claims).entity_data_loader a v e ≡ ok next
          → Checked ss ctx next claims
      go false v e p q r y = absurd (cc)
      go true (some z) e p q r y = absurd (cc)
      go true none true p q r y = absurd (cc)
      go true none false p q r y =
          let (d, same) =
            load_entity-ok ctx next claims (handlers_of ss claims).entity_data_loader y in
          record { verified = p; valid = q; has_subject = r; data_ = d; entity = same }

  parsed-HasToken :
      IsDocumented lib IsSigned
      → (ss : Server K D) (ctx next : Context D) (s : String) → token_from_context ctx ≡ ok s
      → parsed lib ss ctx (lib.parse_with_claims s (verification_key ss)) ≡ ok next
      → HasToken ss ctx next
  parsed-HasToken doc ss ctx next s sent x =
      go (lib.parse_with_claims s (verification_key ss)) refl x
    where
      go :
          (r : Result Claims)
          → lib.parse_with_claims s (verification_key ss) ≡ r
          → parsed lib ss ctx r ≡ ok next
          → HasToken ss ctx next
      go (err e) p y = absurd (cc)
      go (ok claims) p y =
          let (t, k, accepted, signed, same) = doc.parsed s (verification_key ss) claims p in
          let c =
            subst (Checked ss ctx next) (sym same) (check_claims-Checked ss ctx next claims y) in
          let (a, ours, named) =
            audience_verified-names lib IsSigned doc ss.auth_audience t.claims c.verified in
          record {
            token_text = s;
            token = t;
            key = k;
            audience = a;
            sent = sent;
            accepted = accepted;
            signed = signed;
            ours = ours;
            named = named;
            valid = c.valid;
            has_subject = c.has_subject;
            data_ = c.data_;
            entity = c.entity;
          }

  by_token-IsAuthentic :
      IsDocumented lib IsSigned
      → (ss : Server K D) (ctx next : Context D) (r : Result String) → token_from_context ctx ≡ r
      → by_token lib ss ctx r ≡ ok next
      → IsAuthentic ss ctx next
  unfolding tls_authed
  by_token-IsAuthentic doc ss ctx next (ok s) p x = inl (parsed-HasToken doc ss ctx next s p x)
  by_token-IsAuthentic doc ss ctx next (err e) p x =
      inr (
        tls_checked-HasCertificate ss ctx next e ss.tls_auth_handler ctx.verified_cert refl refl p
          x)

  -- Whom ensureAuthed lets through, where the handler for testing is not set and the libraries keep
  -- what they document, has a token that is signed with the key the server answers for it, that
  -- names one of the server's audiences, is valid and has a subject, the entity from then on; or
  -- sends no bearer token, and has a certificate that TLS has verified and the server's handler accepts.
  pub ensure_authed-IsAuthentic :
      IsDocumented lib IsSigned
      → (ss : Server K D) (ctx next : Context D) → ss.ensure_authed_handler ≡ none
      → ensure_authed lib ss ctx ≡ ok next
      → IsAuthentic ss ctx next
  unfolding ensure_authed
  ensure_authed-IsAuthentic doc ss ctx next h x =
      by_token-IsAuthentic doc ss ctx next (token_from_context ctx) refl (rw h at x)
