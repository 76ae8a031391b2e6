-- ===== src/Rpc/Dial/Removal.antt =====
-- RemoveAuthCredentials over mDNS.
use goutils.Common.{
  ℕ, ◌%◌, String, ◌≡◌, refl, sym, ap, ◌∙◌, Bool, true, false, ◌||◌, List, [], ◌∷◌, if◌then◌else◌,
}
use goutils.Rpc.DialOptions.{Credentials, DialOptions, DialWebRtcOptions}
use goutils.Rpc.Dial.{Outcome, done, failed, ServiceEntry, Net}
use goutils.Rpc.Dial.WebRtc.{fixup_webrtc_options}
use goutils.Rpc.Dial.Mdns.{
  remove_credentials, removed, signaling_removed, local_options, local_signaling, server_named,
  dial_multicast_dns, dial_no_local, found_result, entry_result, has_field, as_result, not_local,
  lookup_mdns_candidate,
}

-- the credentials, entities and external materials of a caller, and those for the signaler
pub record Given : Type 0 where
  pub creds : Credentials
  pub entity : String
  pub to_entity : String
  pub material : String
  pub signaling_creds : Credentials
  pub signaling_entity : String
  pub signaling_material : String

abbrev pub with_signaling : DialWebRtcOptions → Given → DialWebRtcOptions
with_signaling w g = record w {
  signaling_creds = g.signaling_creds;
  signaling_auth_entity = g.signaling_entity;
  signaling_external_auth_auth_material = g.signaling_material;
}

-- the options with others, for the signaler where it is to be dialed
abbrev pub with_other : Bool → DialOptions → Given → DialOptions
with_other has_webrtc o g = record o {
  creds = g.creds;
  auth_entity = g.entity;
  external_auth_to_entity = g.to_entity;
  external_auth_material = g.material;
  webrtc_opts = if has_webrtc then with_signaling o.webrtc_opts g else o.webrtc_opts;
}

-- whether the service that is found takes WebRTC
abbrev pub takes_webrtc : Outcome ServiceEntry → Bool
takes_webrtc (failed e) = false
takes_webrtc (done entry) = has_field entry.text "webrtc"

-- the options that local_signaling takes
abbrev on_mdns : DialOptions → DialOptions
on_mdns o = record o { using_mdns = true }

module _ (o : DialOptions) (g : Given) (h : o.mdns_options.remove_auth_credentials ≡ true) where
  without :
      (f : DialOptions → DialOptions) (p : DialOptions)
      → p.mdns_options.remove_auth_credentials ≡ true
      → (if p.mdns_options.remove_auth_credentials then f p else p) ≡ f p
  without f p e = ap (λ b. if b then f p else p) e

  fixed-with_other :
      (net : Net) (ip : String) (port : ℕ) (is_set : Bool)
      → signaling_removed (
          fixup_webrtc_options net
            (removed (record (on_mdns (with_other true o g)) { webrtc_opts_set = is_set }))
            ip
            port)
        ≡ signaling_removed (
            fixup_webrtc_options net
              (removed (record (on_mdns o) { webrtc_opts_set = is_set }))
              ip
              port)
  unfolding fixup_webrtc_options
  fixed-with_other net ip port true = refl
  fixed-with_other net ip port false = refl

  -- with the removals done
  local_signaling-removed :
      (net : Net) (ip : String) (port : ℕ) (p : DialOptions)
      → p.mdns_options.remove_auth_credentials ≡ true
      → local_signaling net true ip port (remove_credentials p)
        ≡ signaling_removed (fixup_webrtc_options net (removed p) ip (port % 65536))
  unfolding fixup_webrtc_options
  local_signaling-removed net ip port p e =
      ap (λ r. local_signaling net true ip port r) (without removed p e)
      ∙ without signaling_removed (fixup_webrtc_options net (removed p) ip (port % 65536)) e

  local_options-with_other :
      (net : Net) (address : String) (has_webrtc : Bool) (ip : String) (port : ℕ)
      → local_options net address has_webrtc ip port (with_other has_webrtc o g)
        ≡ local_options net address has_webrtc ip port o
  unfolding local_options
  local_options-with_other net address true ip port = ap (server_named address) (
      local_signaling-removed net ip port (on_mdns (with_other true o g)) h
      ∙ fixed-with_other net ip (port % 65536) o.webrtc_opts_set
      ∙ sym (local_signaling-removed net ip port (on_mdns o) h))
  local_options-with_other net address false ip port =
      ap (λ r. server_named address (local_signaling net false ip port r))
        (without removed (on_mdns (with_other false o g)) h ∙ sym (without removed (on_mdns o) h))

  entry_result-with_other :
      (net : Net) (address : String) (entry : ServiceEntry) (ips : List String)
      → entry_result net address (with_other (has_field entry.text "webrtc") o g) entry ips
        ≡ entry_result net address o entry ips
  entry_result-with_other net address entry [] = refl
  entry_result-with_other net address entry (ip ∷ ips) =
      ap
        (λ l.
          if has_field entry.text "grpc" || has_field entry.text "webrtc"
          then as_result ((dial_no_local net (net.with_port ip entry.port) address l).outcome)
          else not_local entry)
        (local_options-with_other net address (has_field entry.text "webrtc") ip entry.port)

  found_result-with_other :
      (net : Net) (address : String) (r : Outcome ServiceEntry)
      → found_result net address (with_other (takes_webrtc r) o g) r ≡ found_result net address o r
  found_result-with_other net address (failed e) = refl
  found_result-with_other net address (done entry) =
      entry_result-with_other net address entry entry.addr_ipv4

-- With RemoveAuthCredentials, what a dial over mDNS sends and answers does not depend on the caller's
-- credentials, on its entity, or on its material and entity for external authentication, nor, where the
-- service that is found takes WebRTC, on the credentials, the entity and the external material for the
-- signaler: any others give the same. Static authentication material is not among them.
pub dial_multicast_dns-with_other :
    (net : Net) (address : String) (o : DialOptions) (g : Given)
    → o.mdns_options.remove_auth_credentials ≡ true
    → dial_multicast_dns net address
        (with_other (takes_webrtc (lookup_mdns_candidate net address)) o g)
      ≡ dial_multicast_dns net address o
unfolding dial_multicast_dns
dial_multicast_dns-with_other net address o g h =
    found_result-with_other o g h net address (lookup_mdns_candidate net address)
