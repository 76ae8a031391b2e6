-- ===== src/Rpc/ClientChannel.antt =====
-- rpc/wrtc_client_channel.go: the client's streams by id over one data channel, calls and messages. A
-- stream that is in the map writes to the data channel of the client's channel. RecvMsg, which ends
-- Invoke, the interceptors and the logs are left out; the streams of the map that Close ranges over come
-- in any order. What is called on a stream that is no longer in the map is not part of these steps.
pub mod Streams
pub mod Fresh
pub mod Closing
mod Tests
use goutils.Common.{
  ℕ, suc, ◌%◌, String, Bool, true, false, Option, none, some, List, [], ◌∷◌, if◌then◌else◌, ◌==◌,
  length,
}
use goutils.Rpc.StreamMap.{get, put, remove}
use goutils.Rpc.Channel.{StreamError, Channel, close_with_reason}
use goutils.Rpc.BaseStream.{Metadata}
use goutils.Rpc.ClientStream.{
  Request, Response, Outgoing, ClientStream, write_headers, write_message, reset_stream, close,
  on_response,
}

abbrev pub max_stream_count : ℕ
max_stream_count = 256

pub record ClientChannel : Type 0 where
  pub stream_id_counter : ℕ
  pub base : Channel Request
  pub streams : List (ℕ × ClientStream)

-- newWebRTCClientChannel
abbrev pub new_client_channel : Channel Request → ClientChannel
new_client_channel ch = record { stream_id_counter = 0; base = ch; streams = [] }

-- newWebRTCClientStream, whose context is done with the channel's
abbrev pub client_stream : Bool → Channel Request → ClientStream
client_stream takes ch = record {
  base = record {
    packet_buf = [];
    delivered = [];
    takes = takes;
    recv_closed = false;
    closed = false;
    cancelled = ch.cancelled;
    error = none;
    done_calls = 0;
  };
  channel = ch;
  headers = none;
  trailers = none;
  headers_received = false;
  trailers_received = false;
  send_closed = false;
}

-- nextStreamID, which counts modulo 2^64
abbrev pub next_stream_id : ClientChannel → ClientChannel
next_stream_id c = record c { stream_id_counter = suc c.stream_id_counter % 18446744073709551616 }

abbrev pub found_or_new :
    Bool → ClientChannel → ℕ → Option ClientStream → Option ClientStream × ClientChannel
found_or_new takes c id (some s) = (some s, c)
found_or_new takes c id none =
    let s = client_stream takes c.base in
    if length c.streams == max_stream_count
    then (none, c)
    else (some s, record c { streams = put c.streams id s })

-- newStream
unfoldable pub new_stream : Bool → ClientChannel → ℕ → Option ClientStream × ClientChannel
new_stream takes c id = found_or_new takes c id (get c.streams id)

-- what a method of a stream leaves: onDone takes one that closed out of the map
abbrev pub store : ClientChannel → ℕ → ClientStream → ClientChannel
store c id s = record c {
  base = s.channel;
  streams = if s.base.closed then remove c.streams id else put c.streams id s;
}

-- the stream as it writes to the channel
abbrev pub on_channel : ClientChannel → ClientStream → ClientStream
on_channel c s = record s { channel = c.base }

-- What newClientStream and Invoke answer before RecvMsg: "stream limit hit", the error of a write, or
-- the id of the stream.
pub data Opened : Type 0 where
  max_streams : Opened
  write_error : StreamError → Opened
  opened : ℕ → Opened

abbrev pub answer : ℕ → Option StreamError → Opened
answer id none = opened id
answer id (some e) = write_error e

abbrev pub with_headers :
    String → Option Metadata → ℕ → Option ClientStream × ClientChannel → Opened × ClientChannel
with_headers method md id (none, c) = (max_streams, c)
with_headers method md id (some s, c) =
    let r = write_headers method md (on_channel c s) in (answer id r.0, store c id r.1)

-- newClientStream
unfoldable pub new_client_stream :
    Bool → String → Option Metadata → ClientChannel → Opened × ClientChannel
unfolding new_stream write_headers
new_client_stream takes method md c =
    let d = next_stream_id c in
    with_headers method md d.stream_id_counter (new_stream takes d d.stream_id_counter)

-- what is called on a stream, or its goroutine that resets it
pub data Call : Type 0 where
  sends : ℕ → Outgoing → Bool → Call
  resets closes : Call
  -- its context is done
  cancels : Call

unfoldable pub call : Call → ClientStream → Option StreamError × ClientStream
unfolding write_message reset_stream close
call (sends n m eos) s = write_message n m eos s
call resets s = reset_stream s
call closes s = (none, close s)
call cancels s = (none, record s { base = record (s.base) { cancelled = true } })

abbrev pub call_found :
    Call → ClientChannel → ℕ → Option ClientStream → Option StreamError × ClientChannel
call_found x c id none = (none, c)
call_found x c id (some s) = let r = call x (on_channel c s) in (r.0, store c id r.1)

unfoldable pub call_stream : Call → ClientChannel → ℕ → Option StreamError × ClientChannel
unfolding call
call_stream x c id = call_found x c id (get c.streams id)

abbrev pub with_message : ℕ → Outgoing → Opened × ClientChannel → Opened × ClientChannel
with_message n m (max_streams, c) = (max_streams, c)
with_message n m (write_error e, c) = (write_error e, c)
with_message n m (opened id, c) = let r = call_stream (sends n m true) c id in (answer id r.0, r.1)

-- invoke up to RecvMsg
unfoldable pub invoke :
    Bool → String → Option Metadata → ℕ → Outgoing → ClientChannel → Opened × ClientChannel
unfolding new_client_stream call_stream
invoke takes method md n m c = with_message n m (new_client_stream takes method md c)

abbrev pub respond : Response → ClientChannel → ℕ → Option ClientStream → ClientChannel
respond r c id none = c
respond r c id (some s) = store c id (on_response r (on_channel c s))

-- onChannelMessage of a response with its stream id, `none` where it cannot be decoded or has none
unfoldable pub on_channel_message : Option (ℕ × Response) → ClientChannel → ClientChannel
unfolding on_response
on_channel_message none c = c
on_channel_message (some (id, r)) c = respond r c id (get c.streams id)

abbrev pub ids : List (ℕ × ClientStream) → List ℕ
ids [] = []
ids ((id, s) ∷ m) = id ∷ ids m

abbrev pub close_each : List ℕ → ClientChannel → ClientChannel
close_each [] c = c
close_each (id ∷ rest) c = close_each rest (call_stream closes c id).1

-- Close
unfoldable pub close_channel : ClientChannel → ClientChannel
unfolding call_stream close_with_reason
close_channel c =
    let d = close_each (ids c.streams) c in record d { base = close_with_reason none d.base }

pub data Event : Type 0 where
  opens : Bool → String → Option Metadata → Event
  invokes : Bool → String → Option Metadata → ℕ → Outgoing → Event
  calls : ℕ → Call → Event
  gets : Option (ℕ × Response) → Event
  closes_channel : Event

abbrev pub step : Event → ClientChannel → ClientChannel
step (opens takes method md) c = (new_client_stream takes method md c).1
step (invokes takes method md n m) c = (invoke takes method md n m c).1
step (calls id x) c = (call_stream x c id).1
step (gets x) c = on_channel_message x c
step closes_channel c = close_channel c

abbrev pub run : List Event → ClientChannel → ClientChannel
run [] c = c
run (e ∷ es) c = run es (step e c)
