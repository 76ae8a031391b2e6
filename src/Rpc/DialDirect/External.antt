-- ===== src/Rpc/DialDirect/External.antt =====
-- The credentials that a direct dial sends to an external server.
use goutils.Common.{
  ℕ, String, ◌≡◌, refl, sym, ap, ◌∙◌, Bool, true, false, not, ◌||◌, some, [], if◌then◌else◌, subst,
  if_both,
}
use goutils.Rpc.DialOptions.{DialOptions, new_default_tls_config}
use goutils.Rpc.Dial.{Outcome, done, failed, is_unset}
use goutils.Rpc.DialDirect.{
  Transport, plaintext, tls, no_auth, static_material, per_rpc, not_a_handshake, Endpoints,
  DirectConn, Direct, probed, transport_of, jwt_credentials, external_credentials, opened,
  opened_with, with_external, over, external_options, no_direct, dial_external_auth_entity,
  dial_direct_grpc,
}
use goutils.Rpc.DialDirect.Plaintext.{HasTransport, connected-HasTransport}

external_transport :
    (ep : Endpoints) (o : DialOptions)
    → o.external_auth_insecure ≡ false
    → o.allow_insecure_downgrade ≡ true
    → ep.handshake o.external_auth_addr new_default_tls_config ≡ not_a_handshake
    → transport_of ep o.external_auth_addr (external_options o) ≡ done plaintext
unfolding transport_of
external_transport ep o i a s =
    ap
      (λ b.
        if b
        then done plaintext
        else if o.allow_insecure_downgrade || o.allow_insecure_with_creds_downgrade
        then probed (external_options o) new_default_tls_config
            (ep.handshake o.external_auth_addr new_default_tls_config)
        else done (tls new_default_tls_config))
      i
    ∙ ap
        (λ b.
          if b || o.allow_insecure_with_creds_downgrade
          then probed (external_options o) new_default_tls_config
              (ep.handshake o.external_auth_addr new_default_tls_config)
          else done (tls new_default_tls_config))
        a
    ∙ ap (probed (external_options o) new_default_tls_config) s

abbrev Sends : DialOptions → Outcome DirectConn → Type 0
Sends o r =
    (d : DirectConn)
    → r ≡ done d
    → (x : ℕ) × (d.auth
        ≡ per_rpc (record (jwt_credentials o) {
          conn = some (x, plaintext);
          external_auth_to_entity = o.external_auth_to_entity;
        }))

opened_with-Sends :
    (ep : Endpoints) (o : DialOptions) (t : Transport) (x : DirectConn) (r : Outcome ℕ)
    → x.transport ≡ plaintext
    → Sends o ((opened_with ep t (external_credentials o x) x.conn r).outcome)
opened_with-Sends ep o t x (failed e) p d h = absurd (cc)
opened_with-Sends ep o t x (done n) p d h =
    let e : record {
      conn = n;
      transport = t;
      auth = per_rpc (external_credentials o x);
      close_creds = some x.conn;
    }
        ≡ d =
      cc in
    (
      x.conn,
      ap (λ y. y.auth) (sym e)
          ∙ ap
              (λ u. per_rpc (record (jwt_credentials o) {
                conn = some (x.conn, u);
                external_auth_to_entity = o.external_auth_to_entity;
              }))
              p,
    )

with_external-Sends :
    (ep : Endpoints) (address : String) (o : DialOptions) (t : Transport) (dd : Direct)
    (r : Outcome DirectConn)
    → ((x : DirectConn) → r ≡ done x → x.transport ≡ plaintext)
    → Sends o ((with_external ep address o t dd r).outcome)
with_external-Sends ep address o t dd (failed e) p d h = absurd (cc)
with_external-Sends ep address o t dd (done x) p d h =
    opened_with-Sends ep o t x (ep.dial_context address t (per_rpc (external_credentials o x)))
      (p x refl) d h

external-plaintext :
    (ep : Endpoints) (o : DialOptions)
    → transport_of ep o.external_auth_addr (external_options o) ≡ done plaintext
    → HasTransport plaintext (dial_external_auth_entity ep o)
unfolding dial_external_auth_entity
external-plaintext ep o h =
    if_both (HasTransport plaintext) (is_unset o.external_auth_to_entity) (λ c e. absurd (cc))
      (subst
        (λ r.
          HasTransport plaintext
            (over ep o.external_auth_addr (external_options o) (no_direct []) r))
        (sym h)
        (connected-HasTransport ep o.external_auth_addr (external_options o) (no_direct [])
          plaintext))

-- With the downgrade that is for dials without credentials alone, and an external server without TLS that
-- is not declared insecure, a direct dial with external authentication ends with the caller's credentials
-- set to be sent to that server over a connection without TLS.
pub dial_direct_grpc-external_plaintext :
    (ep : Endpoints) (address : String) (o : DialOptions) (d : DirectConn)
    → is_unset o.auth_material ≡ true
    → is_unset o.creds.kind ≡ false
    → is_unset o.external_auth_addr ≡ false
    → o.external_auth_insecure ≡ false
    → o.allow_insecure_downgrade ≡ true
    → ep.handshake o.external_auth_addr new_default_tls_config ≡ not_a_handshake
    → (dial_direct_grpc ep address o).outcome ≡ done d
    → (x : ℕ) × (d.auth
        ≡ per_rpc (record (jwt_credentials o) {
          conn = some (x, plaintext);
          external_auth_to_entity = o.external_auth_to_entity;
        }))
unfolding dial_direct_grpc
dial_direct_grpc-external_plaintext ep address o d m k a i w s h = go (transport_of ep address o) h
  where
    external : Direct
    external = dial_external_auth_entity ep o

    sent :
        (t : Transport) (u v b : Bool)
        → u ≡ true
        → v ≡ false
        → b ≡ false
        → Sends o (
            (if not u
              then opened t
                  (static_material o.auth_material)
                  (ep.dial_context address t (static_material o.auth_material))
              else if not v || not (is_unset o.external_auth_material)
              then (if b
                  then opened t
                      (per_rpc (jwt_credentials o))
                      (ep.dial_context address t (per_rpc (jwt_credentials o)))
                  else with_external ep address o t external external.outcome)
              else opened t no_auth (ep.dial_context address t no_auth)).outcome)
    sent t true false false p q r =
        with_external-Sends ep address o t external external.outcome
          (external-plaintext ep o (external_transport ep o i w s))
    sent t false v b p q r = absurd (cc)
    sent t true true b p q r = absurd (cc)
    sent t true false true p q r = absurd (cc)

    go :
        (r : Outcome Transport)
        → (over ep address o external r).outcome ≡ done d
        → (x : ℕ) × (d.auth
            ≡ per_rpc (record (jwt_credentials o) {
              conn = some (x, plaintext);
              external_auth_to_entity = o.external_auth_to_entity;
            }))
    go (failed e) q = absurd (cc)
    go (done t) q =
        sent t (is_unset o.auth_material) (is_unset o.creds.kind) (is_unset o.external_auth_addr) m
          k a d q
