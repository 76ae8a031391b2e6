-- ===== src/Rpc/Dial/WebRtc.antt =====
-- rpc/dial.go: the attempt over WebRTC, with its options.
use goutils.Common.{ℕ, String, true, false, not, ◌&&◌, ◌||◌, List, [], ◌∷◌, if◌then◌else◌, contains}
use goutils.Rpc.DialOptions.{no_credentials, DialOptions, DialWebRtcOptions}
use goutils.Rpc.Dial.{
  Outcome, done, failed, WebRtcAnswer, webrtc_conn, no_webrtc_signaler, webrtc_err, Net, DialResult,
  success, failure, is_unset,
}

abbrev pub default_to : String → String → String
default_to s t = if is_unset s then t else s

-- getWebRTCTargetFromAddressWithDefaults
abbrev pub parsed_port : String → Outcome ℕ → Outcome (String × ℕ)
parsed_port host (failed e) = failed e
parsed_port host (done port) = done (host, port)

abbrev pub split_target : Net → Outcome (String × String) → Outcome (String × ℕ)
split_target net (failed e) = failed e
split_target net (done (host, port)) =
    parsed_port (if contains host ":" then net.bracketed host else host) (net.parse_port port)

unfoldable pub webrtc_target : Net → String → Outcome (String × ℕ)
webrtc_target net address =
    if contains address ":"
    then split_target net (net.split_host_port address)
    else done (address, 443)

abbrev pub fixed_insecure : DialOptions → DialWebRtcOptions → DialWebRtcOptions
fixed_insecure o w = if o.webrtc_opts_set then w else record w {
  signaling_insecure = o.insecure;
  signaling_external_auth_insecure = o.external_auth_insecure;
}

-- fixupWebRTCOptions
unfoldable pub fixup_webrtc_options : Net → DialOptions → String → ℕ → DialOptions
fixup_webrtc_options net o target port =
    let w = fixed_insecure o (o.webrtc_opts) in
    record o {
      webrtc_opts = record w {
        signaling_server_address = net.with_port target port;
        signaling_external_auth_address =
            default_to w.signaling_external_auth_address o.external_auth_addr;
        signaling_external_auth_to_entity =
            default_to w.signaling_external_auth_to_entity o.external_auth_to_entity;
        signaling_external_auth_auth_material =
            default_to w.signaling_external_auth_auth_material o.external_auth_material;
        signaling_auth_entity = default_to w.signaling_auth_entity o.auth_entity;
        signaling_creds = if is_unset w.signaling_creds.kind then o.creds else w.signaling_creds;
      };
    }

-- the material of the signaler's external authentication as that of the signaler
abbrev pub assume_external : DialOptions → DialOptions
assume_external o =
    if not o.using_mdns
      && is_unset o.auth_material
      && not (is_unset o.webrtc_opts.signaling_external_auth_auth_material)
    then record o {
      auth_material = o.webrtc_opts.signaling_external_auth_auth_material;
      creds = no_credentials;
    }
    else o

abbrev pub signaled : Net → DialOptions → Outcome (String × ℕ) → Outcome DialOptions
signaled net o (failed e) = failed e
signaled net o (done (target, port)) =
    done (assume_external (fixup_webrtc_options net o target port))

unfoldable pub webrtc_options : Net → String → DialOptions → Outcome DialOptions
unfolding webrtc_target fixup_webrtc_options
webrtc_options net address o =
    if is_unset o.webrtc_opts.signaling_server_address
      || o.webrtc_opts.allow_auto_detect_auth_options
    then signaled net o
        (webrtc_target net (default_to o.webrtc_opts.signaling_server_address address))
    else done o

abbrev pub webrtc_answered : List String → WebRtcAnswer → DialResult
webrtc_answered cancelled (webrtc_conn c) = success c
webrtc_answered cancelled (webrtc_err e) = failure true e
webrtc_answered [] (no_webrtc_signaler e) = failure false e
webrtc_answered (c ∷ cs) (no_webrtc_signaler e) = failure true (c ∷ cs)

abbrev pub webrtc_dialed : Net → String → String → Outcome DialOptions → DialResult
webrtc_dialed net address original (failed e) = failure true e
webrtc_dialed net address original (done o) =
    webrtc_answered (net.parallel_err address)
      (net.dial_webrtc o.webrtc_opts.signaling_server_address original o)

-- the goroutine that dials over WebRTC
unfoldable pub webrtc_result : Net → String → String → DialOptions → DialResult
unfolding webrtc_options
webrtc_result net address original o =
    webrtc_dialed net address original (webrtc_options net address o)
