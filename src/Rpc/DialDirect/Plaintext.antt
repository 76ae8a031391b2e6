-- ===== src/Rpc/DialDirect/Plaintext.antt =====
-- When the credentials of a direct dial travel over a connection without TLS.
use goutils.Common.{
  ℕ, String, ◌≡◌, refl, sym, ap, ◌∙◌, Bool, true, false, not, ◌&&◌, ◌||◌, none, some, [], ◌∷◌,
  if◌then◌else◌, if_both,
}
use goutils.Rpc.DialOptions.{DialOptions, TlsConfig}
use goutils.Rpc.Dial.{Outcome, done, failed, is_unset}
use goutils.Rpc.DialDirect.{
  Transport, plaintext, tls, JwtCredentials, RpcAuth, no_auth, static_material, per_rpc, Handshake,
  speaks_tls, not_a_handshake, other_error, Endpoints, DirectConn, Direct, config_or_default,
  probed, transport_of, jwt_credentials, external_credentials, on_own_conn, opened, opened_with,
  with_external, connected, over, dial_external_auth_entity, dial_direct_grpc,
}

-- a transport without TLS for local credentials is one that the options ask for
transport_of-plaintext :
    (ep : Endpoints) (address : String) (o : DialOptions)
    → is_unset o.creds.kind ≡ false
    → is_unset o.external_auth_addr ≡ true
    → transport_of ep address o ≡ done plaintext
    → (o.insecure || o.allow_insecure_with_creds_downgrade) ≡ true
unfolding transport_of
transport_of-plaintext ep address o k e h =
    go o.insecure (o.allow_insecure_downgrade || o.allow_insecure_with_creds_downgrade)
      (ep.handshake address c) h
  where
    c : TlsConfig
    c = config_or_default o.tls_config

    down :
        (u x w : Bool)
        → u ≡ false
        → x ≡ true
        → (if u || not (not u && x) || w
            then done plaintext
            else if not u && x
            then failed ("requested address is insecure and will not send credentials" ∷ [])
            else done (tls c))
          ≡ done plaintext
        → w ≡ true
    down true x w p q r = absurd (cc)
    down false false w p q r = absurd (cc)
    down false true true p q r = refl
    down false true false p q r = absurd (cc)

    go :
        (i a : Bool) (s : Handshake)
        → (if i then done plaintext else if a then probed o c s else done (tls c)) ≡ done plaintext
        → (i || o.allow_insecure_with_creds_downgrade) ≡ true
    go true a s p = refl
    go false false s p = absurd (cc)
    go false true speaks_tls p = absurd (cc)
    go false true other_error p = absurd (cc)
    go false true not_a_handshake p =
        down (is_unset o.creds.kind) (is_unset o.external_auth_addr)
          o.allow_insecure_with_creds_downgrade k e p

abbrev pub HasTransport : Transport → Direct → Type 0
HasTransport t d = (c : DirectConn) → d.outcome ≡ done c → c.transport ≡ t

opened-HasTransport :
    (t : Transport) (auth : RpcAuth) (r : Outcome ℕ) → HasTransport t (opened t auth r)
opened-HasTransport t auth (failed e) c h = absurd (cc)
opened-HasTransport t auth (done n) c h =
    let e : record { conn = n; transport = t; auth = on_own_conn n t auth; close_creds = none }
        ≡ c =
      cc in
    ap (λ x. x.transport) (sym e)

opened_with-HasTransport :
    (ep : Endpoints) (t : Transport) (j : JwtCredentials) (x : ℕ) (r : Outcome ℕ)
    → HasTransport t (opened_with ep t j x r)
opened_with-HasTransport ep t j x (failed e) c h = absurd (cc)
opened_with-HasTransport ep t j x (done n) c h =
    let e : record { conn = n; transport = t; auth = per_rpc j; close_creds = some x } ≡ c = cc in
    ap (λ y. y.transport) (sym e)

with_external-HasTransport :
    (ep : Endpoints) (address : String) (o : DialOptions) (t : Transport) (d : Direct)
    (r : Outcome DirectConn)
    → HasTransport t (with_external ep address o t d r)
with_external-HasTransport ep address o t d (failed e) c h = absurd (cc)
with_external-HasTransport ep address o t d (done x) c h =
    opened_with-HasTransport ep t (external_credentials o x) x.conn
      (ep.dial_context address t (per_rpc (external_credentials o x))) c h

pub connected-HasTransport :
    (ep : Endpoints) (address : String) (o : DialOptions) (external : Direct) (t : Transport)
    → HasTransport t (connected ep address o external t)
connected-HasTransport ep address o external t =
    if_both (HasTransport t) (not (is_unset o.auth_material))
      (opened-HasTransport t (static_material o.auth_material)
        (ep.dial_context address t (static_material o.auth_material)))
      (if_both (HasTransport t)
        (not (is_unset o.creds.kind) || not (is_unset o.external_auth_material))
        (if_both (HasTransport t) (is_unset o.external_auth_addr)
          (opened-HasTransport t (per_rpc (jwt_credentials o))
            (ep.dial_context address t (per_rpc (jwt_credentials o))))
          (with_external-HasTransport ep address o t external external.outcome))
        (opened-HasTransport t no_auth (ep.dial_context address t no_auth)))

-- A direct connection without TLS whose options have credentials, and no external authentication, is made
-- only where the options ask for it: with insecure, or with the downgrade that is for credentials.
pub dial_direct_grpc-plaintext :
    (ep : Endpoints) (address : String) (o : DialOptions) (d : DirectConn)
    → is_unset o.creds.kind ≡ false
    → is_unset o.external_auth_addr ≡ true
    → (dial_direct_grpc ep address o).outcome ≡ done d
    → d.transport ≡ plaintext
    → (o.insecure || o.allow_insecure_with_creds_downgrade) ≡ true
unfolding dial_direct_grpc
dial_direct_grpc-plaintext ep address o d k e h p =
    transport_of-plaintext ep address o k e (go (transport_of ep address o) h)
  where
    go :
        (r : Outcome Transport)
        → (over ep address o (dial_external_auth_entity ep o) r).outcome ≡ done d
        → r ≡ done plaintext
    go (failed x) q = absurd (cc)
    go (done t) q =
        ap done
          (sym (connected-HasTransport ep address o (dial_external_auth_entity ep o) t d q) ∙ p)
