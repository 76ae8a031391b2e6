-- ===== src/Rpc/Dial/Tests.antt =====
-- The theorems about dialing, on a small network.
use goutils.Common.{ℕ, ◌≡◌, refl, true, false, some, List, [], ◌∷◌, ◌++◌, str_eq, if◌then◌else◌}
use goutils.Rpc.DialOptions.{
  no_credentials, DialOptions, no_options, applied, with_credentials,
  with_dial_multicast_dns_options, with_force_direct_grpc,
}
use goutils.Rpc.Dial.{
  Established, done, ServiceEntry, webrtc_conn, no_webrtc_signaler, Net, DialResult, success,
  failure, finish, choose,
}
use goutils.Rpc.Dial.WebRtc.{webrtc_result, webrtc_target, webrtc_options, fixup_webrtc_options}
use goutils.Rpc.Dial.Mdns.{
  dial_multicast_dns, dial, dial_no_local, dial_inner, lookup_mdns_candidate, local_options,
}
use goutils.Rpc.Dial.Choice.{
  connections, established, direct_connection, all_but_last, last_of, finish-connections,
}
use goutils.Rpc.Dial.Removal.{Given, with_other, takes_webrtc, dial_multicast_dns-with_other}

abbrev conn : ℕ → Established
conn n = record { conn = n; cached = false }

abbrev local_entry : ServiceEntry
local_entry = record {
  service_name = "robot";
  text = "grpc=" ∷ [];
  addr_ipv4 = "10.0.0.2" ∷ [];
  port = 8080;
}

-- mDNS finds the entry, there is a signaler just for "robot", and every direct dial answers
abbrev net : Net
net = record {
  is_ip = λ s. str_eq s "10.0.0.2";
  split_host_port = λ s. done ("robot", "443");
  parse_port = λ s. done 443;
  with_port = λ s n. if str_eq s "10.0.0.2" then "10.0.0.2:8080" else "robot:443";
  bracketed = λ s. s;
  dashed = λ s. s;
  new_resolver = done tt;
  lookup = λ s. done (some local_entry);
  ctx_err = λ s. [];
  lookup_err = λ s. [];
  parallel_err = λ s. [];
  dial_webrtc = λ s h o.
      if str_eq s "robot:443"
      then webrtc_conn (conn 1)
      else no_webrtc_signaler ("no signaler" ∷ []);
  dial_direct_grpc = λ s o. done (if str_eq o.creds.kind "" then conn 2 else conn 3);
}

-- both attempts succeed, and the first connection is closed
both_attempts :
    dial_inner net true "robot" no_options
    ≡ record { outcome = done (conn 1); closed = conn 2 ∷ [] }
unfolding dial_inner dial finish choose webrtc_result webrtc_options webrtc_target
    fixup_webrtc_options dial_multicast_dns lookup_mdns_candidate dial_no_local local_options
both_attempts = refl

direct_alone :
    dial_inner net true "robot" (applied no_options (with_force_direct_grpc ∷ []))
    ≡ record { outcome = done (conn 2); closed = [] }
unfolding dial_inner dial finish choose webrtc_result webrtc_options webrtc_target
    fixup_webrtc_options dial_multicast_dns lookup_mdns_candidate dial_no_local local_options
direct_alone = refl

abbrev arrivals : List DialResult
arrivals = success (conn 1) ∷ failure true ("bad" ∷ []) ∷ success (conn 2) ∷ []

finish-connections_example :
    let d = finish net "robot" no_options arrivals in
    let made =
      connections arrivals
      ++ direct_connection net "robot" no_options arrivals (connections arrivals) in
    (d.closed ≡ all_but_last made) × (established d.outcome ≡ last_of made)
finish-connections_example = finish-connections net "robot" no_options arrivals

abbrev removing : DialOptions
removing = applied no_options (
    with_credentials (record { kind = "api-key"; payload = "secret" })
    ∷ with_dial_multicast_dns_options (record { disable = false; remove_auth_credentials = true })
    ∷ [])

-- mDNS finds an entry that takes WebRTC
abbrev signaling_net : Net
signaling_net = record net {
  lookup = λ s. done (some (record local_entry { text = "webrtc=" ∷ [] }));
}

abbrev others : Given
others = record {
  creds = no_credentials;
  entity = "";
  to_entity = "robot";
  material = "token";
  signaling_creds = record { kind = "api-key"; payload = "signaler" };
  signaling_entity = "signaler";
  signaling_material = "other token";
}

dial_multicast_dns-with_other_example :
    dial_multicast_dns signaling_net "robot"
      (with_other (takes_webrtc (lookup_mdns_candidate signaling_net "robot")) removing others)
    ≡ dial_multicast_dns signaling_net "robot" removing
dial_multicast_dns-with_other_example =
    dial_multicast_dns-with_other signaling_net "robot" removing others refl

finds_webrtc : takes_webrtc (lookup_mdns_candidate signaling_net "robot") ≡ true
unfolding lookup_mdns_candidate
finds_webrtc = refl
