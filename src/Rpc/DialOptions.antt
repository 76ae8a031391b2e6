-- ===== src/Rpc/DialOptions.antt =====
-- rpc/dial_options.go: the options of a dial, and what each DialOption sets; Credentials of rpc/auth.go
-- and DialWebRTCOptions of rpc/wrtc_client.go. The handler of statistics, the interceptors and the
-- configuration of WebRTC are left out: they are passed on as they are.
use goutils.Common.{ℕ, String, Bool, true, false, Option, none, List, [], ◌∷◌}

pub record Credentials : Type 0 where
  pub kind : String
  pub payload : String

abbrev pub no_credentials : Credentials
no_credentials = record { kind = ""; payload = "" }

pub record DialWebRtcOptions : Type 0 where
  pub disable : Bool
  pub signaling_insecure : Bool
  pub signaling_server_address : String
  pub signaling_auth_entity : String
  pub signaling_external_auth_address : String
  pub signaling_external_auth_to_entity : String
  pub signaling_external_auth_insecure : Bool
  pub signaling_creds : Credentials
  pub signaling_external_auth_auth_material : String
  pub disable_trickle_ice : Bool
  pub allow_auto_detect_auth_options : Bool

abbrev pub no_webrtc_options : DialWebRtcOptions
no_webrtc_options = record {
  disable = false;
  signaling_insecure = false;
  signaling_server_address = "";
  signaling_auth_entity = "";
  signaling_external_auth_address = "";
  signaling_external_auth_to_entity = "";
  signaling_external_auth_insecure = false;
  signaling_creds = no_credentials;
  signaling_external_auth_auth_material = "";
  disable_trickle_ice = false;
  allow_auto_detect_auth_options = false;
}

pub record DialMulticastDnsOptions : Type 0 where
  pub disable : Bool
  pub remove_auth_credentials : Bool

-- tls.Config: the server's name, and the rest as one number, 0 for the default of newDefaultTLSConfig
pub record TlsConfig : Type 0 where
  pub server_name : String
  pub rest : ℕ

abbrev pub new_default_tls_config : TlsConfig
new_default_tls_config = record { server_name = ""; rest = 0 }

pub record DialOptions : Type 0 where
  pub insecure : Bool
  pub tls_config : Option TlsConfig
  pub allow_insecure_downgrade : Bool
  pub allow_insecure_with_creds_downgrade : Bool
  pub auth_entity : String
  pub creds : Credentials
  pub webrtc_opts : DialWebRtcOptions
  pub webrtc_opts_set : Bool
  pub external_auth_addr : String
  pub external_auth_to_entity : String
  pub external_auth_insecure : Bool
  pub external_auth_material : String
  pub auth_material : String
  pub debug : Bool
  pub mdns_options : DialMulticastDnsOptions
  pub using_mdns : Bool
  pub disable_direct : Bool

abbrev pub no_options : DialOptions
no_options = record {
  insecure = false;
  tls_config = none;
  allow_insecure_downgrade = false;
  allow_insecure_with_creds_downgrade = false;
  auth_entity = "";
  creds = no_credentials;
  webrtc_opts = no_webrtc_options;
  webrtc_opts_set = false;
  external_auth_addr = "";
  external_auth_to_entity = "";
  external_auth_insecure = false;
  external_auth_material = "";
  auth_material = "";
  debug = false;
  mdns_options = record { disable = false; remove_auth_credentials = false };
  using_mdns = false;
  disable_direct = false;
}

pub data DialOption : Type 0 where
  with_insecure : DialOption
  with_credentials : Credentials → DialOption
  with_entity_credentials : String → Credentials → DialOption
  with_external_auth : String → String → DialOption
  with_external_auth_insecure : DialOption
  with_static_authentication_material : String → DialOption
  with_static_external_authentication_material : String → DialOption
  with_tls_config : Option TlsConfig → DialOption
  with_webrtc_options : DialWebRtcOptions → DialOption
  with_dial_debug : DialOption
  with_allow_insecure_downgrade : DialOption
  with_allow_insecure_with_credentials_downgrade : DialOption
  with_dial_multicast_dns_options : DialMulticastDnsOptions → DialOption
  with_disable_direct_grpc : DialOption
  with_force_direct_grpc : DialOption

abbrev pub apply : DialOptions → DialOption → DialOptions
apply o with_insecure = record o { insecure = true }
apply o (with_credentials c) = record o { auth_entity = ""; creds = c }
apply o (with_entity_credentials e c) = record o { auth_entity = e; creds = c }
apply o (with_external_auth addr e) = record o {
  external_auth_addr = addr;
  external_auth_to_entity = e;
}
apply o with_external_auth_insecure = record o { external_auth_insecure = true }
apply o (with_static_authentication_material t) = record o {
  auth_entity = "";
  creds = no_credentials;
  auth_material = t;
}
apply o (with_static_external_authentication_material t) = record o {
  auth_entity = "";
  creds = no_credentials;
  external_auth_material = t;
}
apply o (with_tls_config c) = record o { tls_config = c }
apply o (with_webrtc_options w) = record o { webrtc_opts = w; webrtc_opts_set = true }
apply o with_dial_debug = record o { debug = true }
apply o with_allow_insecure_downgrade = record o { allow_insecure_downgrade = true }
apply o with_allow_insecure_with_credentials_downgrade = record o {
  allow_insecure_with_creds_downgrade = true;
}
apply o (with_dial_multicast_dns_options d) = record o { mdns_options = d }
apply o with_disable_direct_grpc = record o { disable_direct = true }
apply o with_force_direct_grpc = record o {
  mdns_options = record (o.mdns_options) { disable = true };
  webrtc_opts = record (o.webrtc_opts) { disable = true };
  disable_direct = false;
}

-- the loop of Dial over its options
abbrev pub applied : DialOptions → List DialOption → DialOptions
applied o [] = o
applied o (opt ∷ opts) = applied (apply o opt) opts
