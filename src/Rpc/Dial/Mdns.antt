-- ===== src/Rpc/Dial/Mdns.antt =====
-- rpc/dial.go: lookupMDNSCandidate, dialMulticastDNS, and dial, which calls each other once.
use goutils.Common.{
  ℕ, ◌%◌, String, Bool, true, false, not, ◌&&◌, ◌||◌, Option, none, some, List, [], ◌∷◌, ◌++◌,
  if◌then◌else◌, contains,
}
use goutils.Rpc.DialOptions.{no_credentials, DialOptions, TlsConfig, new_default_tls_config}
use goutils.Rpc.Dial.{
  Established, Outcome, done, failed, ServiceEntry, Net, DialResult, success, failure, is_unset,
  adjusted, Dialed, finish,
}
use goutils.Rpc.Dial.WebRtc.{fixup_webrtc_options, webrtc_result}

abbrev ended : List String → Outcome ServiceEntry
ended [] = failed ("mDNS query failed to find a candidate" ∷ [])
ended (e ∷ es) = failed (e ∷ es)

abbrev looked_up : Outcome (Option ServiceEntry) → Outcome ServiceEntry → Outcome ServiceEntry
looked_up (failed e) rest = failed e
looked_up (done none) rest = rest
looked_up (done (some entry)) rest = done entry

abbrev look_up : Net → List String → List String → Outcome ServiceEntry
look_up net end [] = ended end
look_up net end (c ∷ cs) = let rest = look_up net end cs in looked_up (net.lookup c) rest

abbrev resolved : Outcome Unit → Outcome ServiceEntry → Outcome ServiceEntry
resolved (failed e) found = failed e
resolved (done u) found = found

unfoldable pub lookup_mdns_candidate : Net → String → Outcome ServiceEntry
lookup_mdns_candidate net address =
    resolved net.new_resolver
      (look_up net (net.lookup_err address) (address ∷ net.dashed address ∷ []))

abbrev pub has_field : List String → String → Bool
has_field [] p = false
has_field (f ∷ fs) p = contains f p || has_field fs p

abbrev pub removed : DialOptions → DialOptions
removed o = record o {
  creds = no_credentials;
  auth_entity = "";
  external_auth_to_entity = "";
  external_auth_material = "";
}

abbrev pub remove_credentials : DialOptions → DialOptions
remove_credentials o = if o.mdns_options.remove_auth_credentials then removed o else o

abbrev pub signaling_removed : DialOptions → DialOptions
signaling_removed o = record o {
  webrtc_opts = record (o.webrtc_opts) {
    signaling_auth_entity = "";
    signaling_creds = no_credentials;
    signaling_external_auth_auth_material = "";
  };
}

abbrev pub remove_signaling : DialOptions → DialOptions
remove_signaling o = if o.mdns_options.remove_auth_credentials then signaling_removed o else o

abbrev webrtc_disabled : DialOptions → DialOptions
webrtc_disabled o = record o { webrtc_opts = record (o.webrtc_opts) { disable = true } }

abbrev pub local_signaling : Net → Bool → String → ℕ → DialOptions → DialOptions
local_signaling net has_webrtc ip port o =
    if has_webrtc
    then remove_signaling (fixup_webrtc_options net o ip (port % 65536))
    else webrtc_disabled o

abbrev named : Option TlsConfig → String → Option TlsConfig
named none address = some (record new_default_tls_config { server_name = address })
named (some c) address = some (record c { server_name = address })

abbrev pub server_named : String → DialOptions → DialOptions
server_named address o = record o { tls_config = named o.tls_config address }

-- the options of the dial of an entry's address
unfoldable pub local_options : Net → String → Bool → String → ℕ → DialOptions → DialOptions
unfolding fixup_webrtc_options
local_options net address has_webrtc ip port o =
    server_named address
      (local_signaling net has_webrtc ip port (remove_credentials (record o { using_mdns = true })))

abbrev dial_started : List String → Dialed → Dialed
dial_started [] d = d
dial_started (e ∷ es) d = record { outcome = failed (e ∷ es); closed = [] }

abbrev webrtc_results : Net → String → String → DialOptions → List DialResult
webrtc_results net address original o =
    if o.webrtc_opts.disable then [] else webrtc_result net address original o ∷ []

-- dial where tryLocal is false
unfoldable pub dial_no_local : Net → String → String → DialOptions → Dialed
unfolding finish webrtc_result
dial_no_local net address original o =
    let a = adjusted net address o in
    dial_started (net.ctx_err address)
      (finish net address a.0 (webrtc_results net address original a.0))

abbrev pub as_result : Outcome Established → DialResult
as_result (done c) = success c
as_result (failed e) = failure false e

abbrev pub not_local : ServiceEntry → DialResult
not_local entry =
    failure false (
      "mDNS query found a service without an IPv4 address that does not support grpc or webrtc"
      ∷ [])

abbrev pub entry_result : Net → String → DialOptions → ServiceEntry → List String → DialResult
entry_result net address o entry [] = not_local entry
entry_result net address o entry (ip ∷ ips) =
    let has_webrtc = has_field entry.text "webrtc" in
    let d =
      dial_no_local net (net.with_port ip entry.port) address
        (local_options net address has_webrtc ip entry.port o) in
    if has_field entry.text "grpc" || has_webrtc then as_result (d.outcome) else not_local entry

abbrev pub found_result : Net → String → DialOptions → Outcome ServiceEntry → DialResult
found_result net address o (failed e) = failure false e
found_result net address o (done entry) = entry_result net address o entry entry.addr_ipv4

-- the goroutine that calls dialMulticastDNS
unfoldable pub dial_multicast_dns : Net → String → DialOptions → DialResult
unfolding lookup_mdns_candidate dial_no_local local_options
dial_multicast_dns net address o = found_result net address o (lookup_mdns_candidate net address)

abbrev mdns_results : Net → String → DialOptions → Bool → List DialResult
mdns_results net address o just_domain =
    if not o.mdns_options.disable && just_domain then dial_multicast_dns net address o ∷ [] else []

abbrev arrived : Bool → List DialResult → List DialResult → List DialResult
arrived mdns_first m w = if mdns_first then m ++ w else w ++ m

-- dial where tryLocal is true, and the result of mDNS comes first or second
unfoldable pub dial : Net → Bool → String → DialOptions → Dialed
unfolding finish webrtc_result dial_multicast_dns
dial net mdns_first address o =
    let a = adjusted net address o in
    dial_started (net.ctx_err address) (
      finish net address a.0 (
        arrived mdns_first (mdns_results net address a.0 a.1)
          (webrtc_results net address address a.0)))

-- the entity of dialInner
abbrev entity_or_address : String → DialOptions → DialOptions
entity_or_address address o =
    if is_unset o.auth_entity
    then record o {
      auth_entity = if is_unset o.external_auth_addr then address else o.external_auth_addr;
    }
    else o

unfoldable pub dial_inner : Net → Bool → String → DialOptions → Dialed
unfolding dial
dial_inner net mdns_first address o =
    let d = dial net mdns_first address (entity_or_address address o) in
    if is_unset address then record { outcome = failed ("address empty" ∷ []); closed = [] } else d
