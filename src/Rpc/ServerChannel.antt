-- ===== src/Rpc/ServerChannel.antt =====
-- rpc/wrtc_server_channel.go: the server's streams by id, and the requests that come for them. The
-- data channel that new streams write to, of which each has a copy, and what the select of a done
-- stream takes are arguments. What the handlers call on their streams is not part of these steps.
pub mod Streams
use goutils.Common.{
  ℕ, suc, ◌≤◌, ◌≡◌, refl, ap, sym, ◌∙◌, Bool, true, false, not, Option, none, some, List, [], ◌∷◌,
  if◌then◌else◌, ◌==◌, length, arith, if_both,
}
use goutils.Rpc.StreamMap.{get, put, remove}
use goutils.Rpc.Channel.{Channel}
use goutils.Rpc.BaseStream.{BaseStream, Metadata}
use goutils.Rpc.ClientStream.{Request, rst_stream, unknown_request, Response}
use goutils.Rpc.ServerStream.{Server, ServerStream, on_request}

abbrev pub StreamMap : Type 0
StreamMap = List (ℕ × ServerStream)

abbrev pub max_stream_count : ℕ
max_stream_count = 256

-- newWebRTCServerStream
abbrev pub new_stream : Bool → Channel Response → ServerStream
new_stream takes ch = record {
  base = record {
    packet_buf = [];
    delivered = [];
    takes = takes;
    recv_closed = false;
    closed = false;
    cancelled = false;
    error = none;
    done_calls = 0;
  };
  channel = ch;
  header = none;
  trailer = none;
  headers_written = false;
  headers_received = false;
  send_closed = false;
}

abbrev pub is_headers : Request → Bool
is_headers (Request.headers method md) = true
is_headers (Request.message m) = false
is_headers rst_stream = false
is_headers unknown_request = false

-- What a step of the stream leaves: onDone takes a stream that it closed out of the map.
abbrev pub after : StreamMap → ℕ → Server × ServerStream → Server × StreamMap
after m id (srv, s) = (srv, if s.base.closed then remove m id else put m id s)

-- onChannelMessage, by the stream that is found
abbrev pub dispatch :
    Bool
    → Channel Response
    → ℕ
    → Request
    → Server × StreamMap
    → Option ServerStream
    → Server × StreamMap
dispatch takes ch id r (srv, m) (some s) = after m id (on_request r (srv, s))
dispatch takes ch id r (srv, m) none =
    let new = new_stream takes ch in
    if length m == max_stream_count
    then (srv, m)
    else if is_headers r
    then after (put m id new) id (on_request r (srv, new))
    else (srv, m)

-- onChannelMessage of a request with its stream id, `none` where it cannot be decoded or has none
unfoldable pub on_channel_message :
    Bool → Channel Response → Option (ℕ × Request) → Server × StreamMap → Server × StreamMap
on_channel_message takes ch none s = s
on_channel_message takes ch (some (id, r)) (srv, m) = dispatch takes ch id r (srv, m) (get m id)

-- the messages that come, in order
unfoldable pub run :
    Bool → Channel Response → List (Option (ℕ × Request)) → Server × StreamMap → Server × StreamMap
run takes ch [] s = s
run takes ch (x ∷ xs) s = run takes ch xs (on_channel_message takes ch x s)
