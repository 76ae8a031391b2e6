-- ===== src/Rpc/DialDirect.antt =====
-- rpc/dialer.go: dialDirectGRPC with dialExternalAuthEntity, and cacheKey, where the context has no
-- dialer. What a TLS handshake, grpc.DialContext and Close answer is the record Endpoints; the options
-- of gRPC that do not depend on the caller's, the statistics and the interceptors are left out.
-- Connections are numbers.
pub mod Plaintext
pub mod External
pub mod CacheKey
mod Tests
use Prim.Native.String.{◌++◌ as append}
use goutils.Common.{
  ℕ, String, Bool, true, false, not, ◌&&◌, ◌||◌, Option, none, some, List, [], ◌∷◌, ◌++◌,
  if◌then◌else◌, str_eq,
}
use goutils.Rpc.DialOptions.{
  Credentials, no_credentials, DialOptions, TlsConfig, new_default_tls_config,
}
use goutils.Rpc.Dial.{Outcome, done, failed, is_unset}

pub data Transport : Type 0 where
  plaintext : Transport
  tls : TlsConfig → Transport

-- perRPCJWTCredentials, with the connection on which it authenticates and that one's transport
pub record JwtCredentials : Type 0 where
  pub conn : Option (ℕ × Transport)
  pub entity : String
  pub external_auth_to_entity : String
  pub creds : Credentials
  pub access_token : String
  pub external_auth_material : String

-- grpc.WithPerRPCCredentials
pub data RpcAuth : Type 0 where
  no_auth : RpcAuth
  static_material : String → RpcAuth
  per_rpc : JwtCredentials → RpcAuth

-- the error of dialer.DialContext: none, "first record does not look like a TLS handshake", or another
pub data Handshake : Type 0 where
  speaks_tls : Handshake
  not_a_handshake : Handshake
  other_error : Handshake

pub record Endpoints : Type 0 where
  pub handshake : String → TlsConfig → Handshake
  -- grpc.DialContext
  pub dial_context : String → Transport → RpcAuth → Outcome ℕ
  pub close : ℕ → List String

-- A connection; `close_creds` is the one that its Close closes behind it.
pub record DirectConn : Type 0 where
  pub conn : ℕ
  pub transport : Transport
  pub auth : RpcAuth
  pub close_creds : Option ℕ

-- the outcome, and the connections that were closed
pub record Direct : Type 0 where
  pub outcome : Outcome DirectConn
  pub closed : List ℕ

abbrev pub config_or_default : Option TlsConfig → TlsConfig
config_or_default none = new_default_tls_config
config_or_default (some c) = c

abbrev pub has_local_creds : DialOptions → Bool
has_local_creds o = not (is_unset o.creds.kind) && is_unset o.external_auth_addr

abbrev insecure_with_credentials : Outcome Transport
insecure_with_credentials =
    failed ("requested address is insecure and will not send credentials" ∷ [])

abbrev pub downgraded : DialOptions → TlsConfig → Outcome Transport
downgraded o c =
    if is_unset o.creds.kind || not (has_local_creds o) || o.allow_insecure_with_creds_downgrade
    then done plaintext
    else if has_local_creds o
    then insecure_with_credentials
    else done (tls c)

abbrev pub probed : DialOptions → TlsConfig → Handshake → Outcome Transport
probed o c speaks_tls = done (tls c)
probed o c not_a_handshake = downgraded o c
probed o c other_error = done (tls c)

unfoldable pub transport_of : Endpoints → String → DialOptions → Outcome Transport
transport_of ep address o =
    let c = config_or_default o.tls_config in
    if o.insecure
    then done plaintext
    else if o.allow_insecure_downgrade || o.allow_insecure_with_creds_downgrade
    then probed o c (ep.handshake address c)
    else done (tls c)

abbrev pub jwt_credentials : DialOptions → JwtCredentials
jwt_credentials o = record {
  conn = none;
  entity = o.auth_entity;
  external_auth_to_entity = "";
  creds = o.creds;
  access_token = "";
  external_auth_material = o.external_auth_material;
}

-- rpcCreds with the external connection
abbrev pub external_credentials : DialOptions → DirectConn → JwtCredentials
external_credentials o x = record (jwt_credentials o) {
  conn = some (x.conn, x.transport);
  external_auth_to_entity = o.external_auth_to_entity;
}

-- *connPtr = conn
abbrev pub on_own_conn : ℕ → Transport → RpcAuth → RpcAuth
on_own_conn c t no_auth = no_auth
on_own_conn c t (static_material m) = static_material m
on_own_conn c t (per_rpc j) = per_rpc (record j { conn = some (c, t) })

abbrev pub opened : Transport → RpcAuth → Outcome ℕ → Direct
opened t auth (failed e) = record { outcome = failed e; closed = [] }
opened t auth (done c) = record {
  outcome =
      done (record { conn = c; transport = t; auth = on_own_conn c t auth; close_creds = none });
  closed = [];
}

abbrev pub opened_with : Endpoints → Transport → JwtCredentials → ℕ → Outcome ℕ → Direct
opened_with ep t j x (failed e) = record { outcome = failed (e ++ ep.close x); closed = x ∷ [] }
opened_with ep t j x (done c) = record {
  outcome = done (record { conn = c; transport = t; auth = per_rpc j; close_creds = some x });
  closed = [];
}

abbrev pub with_external :
    Endpoints → String → DialOptions → Transport → Direct → Outcome DirectConn → Direct
with_external ep address o t d (failed e) = record { outcome = failed e; closed = d.closed }
with_external ep address o t d (done x) =
    opened_with ep t (external_credentials o x) x.conn
      (ep.dial_context address t (per_rpc (external_credentials o x)))

-- dialDirectGRPC behind the choice of the transport, given what dialExternalAuthEntity does
abbrev pub connected : Endpoints → String → DialOptions → Direct → Transport → Direct
connected ep address o external t =
    let statically =
      opened t (static_material o.auth_material)
        (ep.dial_context address t (static_material o.auth_material)) in
    let plainly = opened t no_auth (ep.dial_context address t no_auth) in
    let itself =
      opened t (per_rpc (jwt_credentials o))
        (ep.dial_context address t (per_rpc (jwt_credentials o))) in
    let externally = with_external ep address o t external external.outcome in
    if not (is_unset o.auth_material)
    then statically
    else if not (is_unset o.creds.kind) || not (is_unset o.external_auth_material)
    then (if is_unset o.external_auth_addr then itself else externally)
    else plainly

abbrev pub over : Endpoints → String → DialOptions → Direct → Outcome Transport → Direct
over ep address o external (failed e) = record { outcome = failed e; closed = [] }
over ep address o external (done t) = connected ep address o external t

abbrev pub external_options : DialOptions → DialOptions
external_options o = record o {
  external_auth_addr = "";
  insecure = o.external_auth_insecure;
  external_auth_material = "";
  creds = no_credentials;
  auth_entity = "";
  tls_config = some new_default_tls_config;
}

abbrev pub no_direct : List String → Direct
no_direct e = record { outcome = failed e; closed = [] }

-- dialExternalAuthEntity, whose options have no external address
unfoldable pub dial_external_auth_entity : Endpoints → DialOptions → Direct
unfolding transport_of
dial_external_auth_entity ep o =
    let i = external_options o in
    let d =
      over ep o.external_auth_addr i (no_direct []) (transport_of ep o.external_auth_addr i) in
    if is_unset o.external_auth_to_entity
    then no_direct ("external auth address set but no authenticate to option set" ∷ [])
    else d

unfoldable pub dial_direct_grpc : Endpoints → String → DialOptions → Direct
unfolding transport_of dial_external_auth_entity
dial_direct_grpc ep address o =
    over ep address o (dial_external_auth_entity ep o) (transport_of ep address o)

-- what cacheKey gives to its hash
unfoldable pub cache_text : DialOptions → String
cache_text o = append o.auth_entity (
    append o.creds.kind (
      append o.creds.payload (
        append o.external_auth_addr (
          append o.external_auth_to_entity (
            append o.external_auth_material (
              append o.webrtc_opts.signaling_server_address (
                append o.webrtc_opts.signaling_external_auth_address (
                  append o.webrtc_opts.signaling_external_auth_to_entity (
                    append o.webrtc_opts.signaling_external_auth_auth_material (
                      append o.webrtc_opts.signaling_creds.kind
                        o.webrtc_opts.signaling_creds.payload))))))))))

unfoldable pub cache_key : (String → String) → DialOptions → String
unfolding cache_text
cache_key hash o = hash (cache_text o)
