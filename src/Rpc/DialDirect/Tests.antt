-- ===== src/Rpc/DialDirect/Tests.antt =====
-- The theorems about direct dials, where no server speaks TLS.
use goutils.Common.{false, ℕ, String, ◌≡◌, refl, true, ◌||◌, none, some, [], ◌∷◌}
use goutils.Common.Dict
use goutils.Rpc.DialOptions.{
  Credentials, DialOptions, no_options, applied, apply, with_insecure, with_credentials,
  with_external_auth, with_allow_insecure_downgrade, with_static_authentication_material,
}
use goutils.Rpc.Dial.{done, failed}
use goutils.Rpc.DialDirect.{
  plaintext, RpcAuth, static_material, per_rpc, not_a_handshake, Endpoints, DirectConn,
  dial_direct_grpc, dial_external_auth_entity, transport_of, jwt_credentials,
}
use goutils.Rpc.DialDirect.Plaintext.{dial_direct_grpc-plaintext}
use goutils.Rpc.DialDirect.External.{dial_direct_grpc-external_plaintext}
use goutils.Rpc.DialDirect.CacheKey.{dial_key, Shares, dial_func-other_material}
use goutils.Rpc.CachedDialer.{new_dialer, look_up}

abbrev endpoints : Endpoints
endpoints = record {
  handshake = λ address c. not_a_handshake;
  dial_context = λ address t auth. done 1;
  close = λ c. [];
}

abbrev secret : Credentials
secret = record { kind = "api-key"; payload = "secret" }

abbrev insecurely : DialOptions
insecurely = applied no_options (with_insecure ∷ with_credentials secret ∷ [])

abbrev insecure_conn : DirectConn
insecure_conn = record {
  conn = 1;
  transport = plaintext;
  auth = per_rpc (record (jwt_credentials insecurely) { conn = some (1, plaintext) });
  close_creds = none;
}

insecure_dialed : (dial_direct_grpc endpoints "robot:80" insecurely).outcome ≡ done insecure_conn
unfolding dial_direct_grpc dial_external_auth_entity transport_of
insecure_dialed = refl

dial_direct_grpc-plaintext_example :
    (insecurely.insecure || insecurely.allow_insecure_with_creds_downgrade) ≡ true
dial_direct_grpc-plaintext_example =
    dial_direct_grpc-plaintext endpoints "robot:80" insecurely insecure_conn refl refl
      insecure_dialed refl

-- credentials alone are not sent without TLS
credentials_refused :
    (dial_direct_grpc endpoints "robot:80"
      (applied no_options (with_allow_insecure_downgrade ∷ with_credentials secret ∷ []))).outcome
    ≡ failed ("requested address is insecure and will not send credentials" ∷ [])
unfolding dial_direct_grpc dial_external_auth_entity transport_of
credentials_refused = refl

-- static material is
material_sent :
    (dial_direct_grpc endpoints "robot:80" (
      applied no_options
        (with_allow_insecure_downgrade ∷ with_static_authentication_material "token" ∷ []))).outcome
    ≡ done (record {
      conn = 1;
      transport = plaintext;
      auth = static_material "token";
      close_creds = none;
    })
unfolding dial_direct_grpc dial_external_auth_entity transport_of
material_sent = refl

abbrev externally : DialOptions
externally = applied no_options (
    with_allow_insecure_downgrade
    ∷ with_credentials secret
    ∷ with_external_auth "auth:80" "robot"
    ∷ [])

abbrev external_auth : RpcAuth
external_auth = per_rpc (record (jwt_credentials externally) {
  conn = some (1, plaintext);
  external_auth_to_entity = "robot";
})

abbrev external_conn : DirectConn
external_conn = record {
  conn = 1;
  transport = plaintext;
  auth = external_auth;
  close_creds = some 1;
}

external_dialed : (dial_direct_grpc endpoints "robot:80" externally).outcome ≡ done external_conn
unfolding dial_direct_grpc dial_external_auth_entity transport_of
external_dialed = refl

dial_direct_grpc-external_plaintext_example :
    (x : ℕ) × (external_conn.auth
      ≡ per_rpc (record (jwt_credentials externally) {
        conn = some (x, plaintext);
        external_auth_to_entity = "robot";
      }))
dial_direct_grpc-external_plaintext_example =
    dial_direct_grpc-external_plaintext endpoints "robot:80" externally external_conn refl refl refl
      refl refl refl external_dialed

abbrev same_hash : String → String
same_hash s = s

abbrev material_key : String → String
material_key m =
    dial_key same_hash "robot" (apply no_options (with_static_authentication_material m))

none_held : look_up new_dialer (material_key "one") ≡ none
unfolding Dict.get
none_held = refl

dial_func-other_material_example : Shares new_dialer (material_key "one") (material_key "two") false
dial_func-other_material_example =
    dial_func-other_material same_hash "robot" no_options "one" "two" new_dialer false none_held
