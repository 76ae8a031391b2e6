-- ===== src/Rpc/ServerStream.antt =====
-- rpc/wrtc_server_stream.go: the server's end of a stream, and what of the server in
-- rpc/wrtc_server.go it works with: the handlers, the tickets and the workers that Stop waits for.
-- The status of an error is the error. What the handlers do is their own calls of the stream.
pub mod Closing
pub mod Tickets
use goutils.Common.{
  ℕ, suc, ◌-◌, String, Bool, true, false, not, ◌&&◌, ◌||◌, Option, none, some, List, [], ◌∷◌, ◌++◌,
  if◌then◌else◌, ◌==◌, leb, length, str_eq,
}
use goutils.Common.Dict
use goutils.Rpc.Channel.{
  StreamError, closed_pipe, data_channel_closed, stream_closed, context_canceled, text, status,
  wrap, Channel, write,
}
use goutils.Rpc.BaseStream.{
  Bytes, Metadata, PacketMessage, BaseStream, close_recv, close_with_error, process_packet, deliver,
  metadata_to_proto, send_loop,
}
use goutils.Rpc.ClientStream.{
  RequestMessage, Request, rst_stream, unknown_request, Response, Outgoing, nil_message, failing,
  encoded, empty_packet,
}

-- `tickets` of the `capacity` that callTickets has are taken, processHeadersWorkers counts
-- `workers`, and `running` handlers have been started and have not returned.
pub record Server : Type 0 where
  pub handlers : List String
  pub has_unknown_handler : Bool
  pub cancelled : Bool
  pub capacity : ℕ
  pub tickets : ℕ
  pub workers : ℕ
  pub running : ℕ

pub record ServerStream : Type 0 where
  pub base : BaseStream
  pub channel : Channel Response
  pub header : Option Metadata
  pub trailer : Option Metadata
  pub headers_written : Bool
  pub headers_received : Bool
  pub send_closed : Bool

abbrev values : Option (List String) → List String
values none = []
values (some vs) = vs

-- metadata.Join of two
abbrev join_values : Metadata → Metadata → Metadata
join_values old [] = old
join_values old ((k, vs) ∷ md) = join_values (Dict.put old k (values (Dict.get old k) ++ vs)) md

-- what SetHeader and SetTrailer leave
abbrev join : Option Metadata → Option Metadata → Option Metadata
join none md = md
join (some old) none = some old
join (some old) (some md) = some (join_values old md)

-- SetHeader; ErrIllegalHeaderWrite is its error
unfoldable pub set_header : Option Metadata → ServerStream → Option StreamError × ServerStream
set_header md s =
    if s.headers_written
    then (some (text "transport: the stream is done or WriteHeader was already called"), s)
    else (none, record s { header = join s.header md })

unfoldable pub set_trailer : Option Metadata → ServerStream → ServerStream
set_trailer md s = record s { trailer = join s.trailer md }

unfoldable pub write_headers : ServerStream → Option StreamError × ServerStream
write_headers s =
    if s.headers_written
    then (none, s)
    else let (e, ch) = write s.channel (Response.headers (metadata_to_proto s.header)) in
      (e, record s { headers_written = true; channel = ch })

-- SendHeader
unfoldable pub send_header : Option Metadata → ServerStream → Option StreamError × ServerStream
unfolding set_header write_headers
send_header md s =
    let (e, s') = set_header md s in
    let r = write_headers s' in elim e [ some x ↦ (some x, s') | none ↦ r ]

-- isContextCanceled, of an error that is no wrapped one
abbrev pub is_context_canceled : Option StreamError → Bool
is_context_canceled (some context_canceled) = true
is_context_canceled (some (status code m)) = str_eq code "Canceled"
is_context_canceled _ = false

abbrev pub is_data_channel_closed : Option StreamError → Bool
is_data_channel_closed (some data_channel_closed) = true
is_data_channel_closed _ = false

abbrev pub is_closed_pipe : Option StreamError → Bool
is_closed_pipe (some closed_pipe) = true
is_closed_pipe _ = false

-- errors.Wrap gives nil for nil
abbrev pub wrapped : Option StreamError → Option StreamError
wrapped none = none
wrapped (some e) = some (wrap "close called multiple times with error" e)

-- the error that the trailers tell: s.ctx.Err() for nil
abbrev told : ServerStream → Option StreamError → Option StreamError
told s none = if s.base.cancelled then some context_canceled else none
told s (some e) = some e

unfoldable pub write_trailers :
    Option StreamError → ServerStream → Option StreamError × ServerStream
write_trailers e s =
    let (r, ch) = write s.channel (Response.trailers (metadata_to_proto s.trailer) (told s e)) in
    (r, record s { channel = ch })

-- closeWithSendError before its deferred functions
unfoldable pub closing : Option StreamError → ServerStream → Option StreamError × ServerStream
unfolding write_headers write_trailers
closing e s =
    let (r, s') = write_headers s in
    let told_it = write_trailers e s' in
    if is_closed_pipe e
    then (none, s)
    else if s.base.closed || s.channel.closed
    then (if is_data_channel_closed s.channel.closed_reason && is_context_canceled e
        then (none, s)
        else (wrapped e, s))
    else elim r [ some x ↦ (some x, s') | none ↦ told_it ]

-- the first deferred function of closeWithSendError
abbrev pub filtered : Option StreamError → Option StreamError
filtered (some stream_closed) = none
filtered e = e

unfoldable pub close_with_send_error :
    Option StreamError → ServerStream → Option StreamError × ServerStream
unfolding closing close_with_error
close_with_send_error e s =
    if s.send_closed
    then (none, s)
    else let (r, s') = closing e (record s { send_closed = true }) in
      (filtered r, record s' { base = close_with_error none false s'.base })

abbrev pub response : PacketMessage → Response
response p = Response.message p

-- SendMsg behind the headers; n is maxResponseMessagePacketDataSize. It is not given nil, on which
-- it panics.
unfoldable pub send : ℕ → Outgoing → Channel Response → Option StreamError × Channel Response
send n (failing e) ch = (some e, ch)
send n nil_message ch = write ch (response empty_packet)
send n (encoded bytes) ch =
    if length bytes == 0
    then write ch (response empty_packet)
    else send_loop (length bytes) n response bytes ch

abbrev as_list : Option StreamError → List StreamError
as_list none = []
as_list (some e) = e ∷ []

-- the deferred function of SendMsg
abbrev pub close_failed : Option StreamError × ServerStream → List StreamError × ServerStream
close_failed (none, s) = ([], s)
close_failed (some e, s) = let (r, s') = close_with_send_error (some e) s in (e ∷ as_list r, s')

-- SendMsg
unfoldable pub send_msg : ℕ → Outgoing → ServerStream → List StreamError × ServerStream
unfolding write_headers send close_with_send_error
send_msg n m s =
    let (e, s') = write_headers s in
    let (r, ch) = send n m s'.channel in
    if s.send_closed
    then (closed_pipe ∷ [], s)
    else close_failed (elim e [ some x ↦ (some x, s') | none ↦ (r, record s' { channel = ch }) ])

-- processMessage
abbrev pub end_of_stream : Bool → BaseStream → BaseStream
end_of_stream eos b = if eos then close_recv b else b

abbrev pub received : Bool → BaseStream → Option Bytes × Bytes → BaseStream
received eos b (none, buf) = record b { packet_buf = buf }
received eos b (some bytes, buf) =
    let b' = record b { packet_buf = buf } in
    let d = deliver bytes b' in
    -- both returns before the check of Eos
    if b'.recv_closed then b' else if b'.cancelled && not b'.takes then b' else end_of_stream eos d

unfoldable pub process_with : RequestMessage → BaseStream → Option PacketMessage → BaseStream
unfolding close_with_error deliver close_recv
process_with m b none =
    close_with_error (some (text "expected RequestMessage.PacketMessgae to not be nil but it was"))
      false b
process_with m b (some p) = received m.eos b (process_packet b.packet_buf p)

unfoldable pub process_message : RequestMessage → ServerStream → ServerStream
unfolding process_with close_recv
process_message m s = if s.base.recv_closed then s else record s {
  base = if m.has_message then process_with m s.base m.packet else end_of_stream m.eos s.base;
}

abbrev pub is_handled : List String → String → Bool
is_handled [] method = false
is_handled (x ∷ xs) method = str_eq x method || is_handled xs method

abbrev pub refuse : String → String → ServerStream → ServerStream
refuse code m s = (close_with_send_error (some (status code m)) s).1

-- processHeaders
unfoldable pub process_headers : String → Server × ServerStream → Server × ServerStream
unfolding close_with_send_error
process_headers method (srv, s) =
    let counted = record srv { workers = suc srv.workers } in
    if not (is_handled srv.handlers method || srv.has_unknown_handler)
    then (srv, refuse "Unimplemented" "Unimplemented" s)
    else if srv.cancelled
    then (record counted { workers = counted.workers - 1 }, s)
    else if leb srv.capacity srv.tickets
    then (counted, refuse "ResourceExhausted" "too many in-flight requests" s)
    else (
      record counted { tickets = suc srv.tickets; running = suc srv.running },
      record s { headers_received = true },
    )

unfoldable pub on_request : Request → Server × ServerStream → Server × ServerStream
unfolding process_message process_headers close_with_send_error
on_request (Request.headers method md) (srv, s) =
    if s.headers_received
    then (srv, refuse "InvalidArgument" "headers already received" s)
    else process_headers method (srv, s)
on_request (Request.message m) (srv, s) =
    if s.headers_received
    then (srv, process_message m s)
    else (srv, refuse "InvalidArgument" "headers not yet received" s)
on_request rst_stream (srv, s) = (srv, refuse "Canceled" "request cancelled" s)
on_request unknown_request (srv, s) = (srv, refuse "InvalidArgument" "unknown request type <nil>" s)

-- The deferred function of a handler that returns.
unfoldable pub handler_returns : Server → Server
handler_returns srv = record srv {
  workers = srv.workers - 1;
  tickets = srv.tickets - 1;
  running = srv.running - 1;
}

-- Stop, from its first line on; it goes on once no worker is left.
unfoldable pub stop : Server → Server
stop srv = record srv { cancelled = true }

unfoldable pub can_finish_stop : Server → Bool
can_finish_stop srv = srv.workers == 0
