-- ===== src/Rpc/Dial.antt =====
-- rpc/dial.go: the attempts of a dial over mDNS and WebRTC, the choice among their results in the order
-- in which they come, and the direct dial behind them. A connection is a number. What the network, the
-- resolver, dialWebRTC, dialDirectGRPC and the contexts answer are the record Net; there is no dialer in
-- the context. An error is a list of the errors that multierr combines, empty for nil.
pub mod WebRtc
pub mod Mdns
pub mod Choice
pub mod Removal
mod Tests
use goutils.Common.{
  ℕ, ◌%◌, String, Bool, true, false, not, ◌&&◌, ◌||◌, Option, none, some, List, [], ◌∷◌, ◌++◌,
  if◌then◌else◌, str_eq, after_prefix, contains,
}
use goutils.Rpc.DialOptions.{
  Credentials, no_credentials, DialOptions, DialWebRtcOptions, TlsConfig, new_default_tls_config,
}

pub record Established : Type 0 where
  pub conn : ℕ
  pub cached : Bool

pub data Outcome (A : Type 0) : Type 0 where
  done : A → Outcome A
  failed : List String → Outcome A

-- zeroconf.ServiceEntry
pub record ServiceEntry : Type 0 where
  pub service_name : String
  pub text : List String
  pub addr_ipv4 : List String
  pub port : ℕ

pub data WebRtcAnswer : Type 0 where
  webrtc_conn : Established → WebRtcAnswer
  no_webrtc_signaler : List String → WebRtcAnswer
  webrtc_err : List String → WebRtcAnswer

pub record Net : Type 0 where
  -- net.ParseIP(address) is not nil
  pub is_ip : String → Bool
  -- net.SplitHostPort, strconv.ParseUint(portStr, 10, 16), "%s:%d", and "[%s]"
  pub split_host_port : String → Outcome (String × String)
  pub parse_port : String → Outcome ℕ
  pub with_port : String → ℕ → String
  pub bracketed : String → String
  -- strings.ReplaceAll(address, ".", "-")
  pub dashed : String → String
  pub new_resolver : Outcome Unit
  -- the query for a candidate: an error of it or of a context that is done first, or the entry
  pub lookup : String → Outcome (Option ServiceEntry)
  -- ctx.Err() when the dial of an address starts, behind the queries for it, and behind its WebRTC
  pub ctx_err : String → List String
  pub lookup_err : String → List String
  pub parallel_err : String → List String
  pub dial_webrtc : String → String → DialOptions → WebRtcAnswer
  pub dial_direct_grpc : String → DialOptions → Outcome Established

pub record DialResult : Type 0 where
  pub conn : Option Established
  pub err : List String
  pub skip_direct : Bool

abbrev pub success : Established → DialResult
success c = record { conn = some c; err = []; skip_direct = false }

abbrev pub failure : Bool → List String → DialResult
failure skip e = record { conn = none; err = e; skip_direct = skip }

-- err != nil
abbrev pub is_err : List String → Bool
is_err [] = false
is_err (e ∷ es) = true

abbrev pub is_unset : String → Bool
is_unset s = str_eq s ""

abbrev pub is_unix : String → Bool
is_unix address = elim (after_prefix "unix://" address) [ some r ↦ true | none ↦ false ]

-- the options, and isJustDomain
abbrev pub adjusted : Net → String → DialOptions → DialOptions × Bool
adjusted net address o =
    if is_unix address
    then (
      record o {
        mdns_options = record (o.mdns_options) { disable = true };
        webrtc_opts = record (o.webrtc_opts) { disable = true };
        insecure = true;
        disable_direct = false;
      },
      false,
    )
    else (o, if contains address ":" then false else not (net.is_ip address))

-- the variables of the loop over dialCh, with the connections it has closed
pub record Chosen : Type 0 where
  pub conn : Option Established
  pub fatal_err : List String
  pub non_fatal_err : List String
  pub closed : List Established

abbrev pub nothing_chosen : Chosen
nothing_chosen = record { conn = none; fatal_err = []; non_fatal_err = []; closed = [] }

abbrev pub replaced : Option Established → List Established
replaced none = []
replaced (some c) = c ∷ []

abbrev pub combine_err : Chosen → List String → Bool → Chosen
combine_err s e true = record s { fatal_err = s.fatal_err ++ e }
combine_err s e false = record s { non_fatal_err = s.non_fatal_err ++ e }

abbrev pub take_result : Chosen → Option Established → List String → Bool → Chosen
take_result s (some c) [] skip = record s { conn = some c; closed = s.closed ++ replaced s.conn }
take_result s none [] skip = s
take_result s c (e ∷ es) skip = combine_err s (e ∷ es) skip

unfoldable pub choose : Chosen → List DialResult → Chosen
choose s [] = s
choose s (r ∷ rs) = choose (take_result s r.conn r.err r.skip_direct) rs

pub record Dialed : Type 0 where
  pub outcome : Outcome Established
  pub closed : List Established

abbrev pub direct_outcome : List String → Outcome Established → Outcome Established
direct_outcome e (done c) = done c
direct_outcome e (failed d) = failed (d ++ e)

abbrev pub fallback : Net → String → DialOptions → List String → Outcome Established
fallback net address o e =
    if o.disable_direct
    then failed ("exhausted all connection options with no way to connect" ∷ [])
    else direct_outcome e (net.dial_direct_grpc address o)

abbrev pub without_conn :
    Net → String → DialOptions → List String → List String → Outcome Established
without_conn net address o [] e = fallback net address o e
without_conn net address o (f ∷ fs) e = failed (f ∷ fs)

abbrev pub outcome_of :
    Net → String → DialOptions → Chosen → Option Established → Outcome Established
outcome_of net address o s (some c) = done c
outcome_of net address o s none = without_conn net address o s.fatal_err s.non_fatal_err

-- dial behind its goroutines, whose results come in this order
unfoldable pub finish : Net → String → DialOptions → List DialResult → Dialed
unfolding choose
finish net address o rs =
    let s = choose nothing_chosen rs in
    record { outcome = outcome_of net address o s s.conn; closed = s.closed }
