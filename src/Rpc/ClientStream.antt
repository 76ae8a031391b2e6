-- ===== src/Rpc/ClientStream.antt =====
-- rpc/wrtc_client_stream.go: the client's end of a stream. The context that Header and Context give
-- to the user is not modelled. A response whose packet is nil, on which processMessage panics, is
-- left aside.
pub mod Closing
use goutils.Common.{
  ℕ, String, Bool, true, false, Option, none, some, List, [], ◌∷◌, if◌then◌else◌, ◌==◌, length,
}
use goutils.Rpc.Channel.{StreamError, closed_pipe, text, Channel, write}
use goutils.Rpc.BaseStream.{
  Bytes, Metadata, PacketMessage, BaseStream, close_with_error, close_from_trailers, process_packet,
  deliver, metadata_from_proto, send_loop,
}

pub record RequestMessage : Type 0 where
  pub has_message : Bool
  pub packet : Option PacketMessage
  pub eos : Bool

pub data Request : Type 0 where
  -- with the method and its metadata
  headers : String → Option Metadata → Request
  message : RequestMessage → Request
  rst_stream : Request
  -- of no type that is known
  unknown_request : Request

-- What is given to SendMsg: nil, a message that cannot be marshalled, or one with its encoding.
pub data Outgoing : Type 0 where
  nil_message : Outgoing
  failing : StreamError → Outgoing
  encoded : Bytes → Outgoing

pub data Response : Type 0 where
  headers : Option Metadata → Response
  message : PacketMessage → Response
  -- with the error that the status stands for
  trailers : Option Metadata → Option StreamError → Response
  unknown : Response

pub record ClientStream : Type 0 where
  pub base : BaseStream
  pub channel : Channel Request
  pub headers : Option Metadata
  pub trailers : Option Metadata
  pub headers_received : Bool
  pub trailers_received : Bool
  pub send_closed : Bool

-- checkWriteErrForStreamClose
abbrev pub check_write_err : Option StreamError → Option StreamError
check_write_err none = none
check_write_err (some closed_pipe) = none
check_write_err (some e) = some e

abbrev with_base : ClientStream → BaseStream → ClientStream
with_base s b = record s { base = b }

-- the deferred function of writeHeaders and writeMessage
abbrev pub close_on_error : Option StreamError → BaseStream → BaseStream
close_on_error none b = b
close_on_error (some e) b = close_with_error (some e) false b

abbrev pub written :
    ClientStream → Option StreamError × Channel Request → Option StreamError × ClientStream
written s (e, ch) = (e, record s { channel = ch; base = close_on_error (check_write_err e) s.base })

unfoldable pub write_headers :
    String → Option Metadata → ClientStream → Option StreamError × ClientStream
unfolding close_with_error
write_headers method md s = written s (write s.channel (Request.headers method md))

abbrev pub request : Bool → Bool → PacketMessage → Request
request has_message eos p =
    Request.message (record { has_message = has_message; packet = some p; eos = eos })

abbrev pub empty_packet : PacketMessage
empty_packet = record { data_ = []; eom = true }

-- what writeMessage writes; n is maxRequestMessagePacketDataSize
unfoldable pub send : ℕ → Outgoing → Bool → Channel Request → Option StreamError × Channel Request
send n (failing e) eos ch = (some e, ch)
send n nil_message eos ch = write ch (request false eos empty_packet)
send n (encoded bytes) eos ch =
    if length bytes == 0
    then write ch (request true eos empty_packet)
    else send_loop (length bytes) n (request true eos) bytes ch

unfoldable pub write_message :
    ℕ → Outgoing → Bool → ClientStream → Option StreamError × ClientStream
unfolding send close_with_error
write_message n m eos s =
    if s.send_closed
    then (some closed_pipe, s)
    else written (if eos then record s { send_closed = true } else s) (send n m eos s.channel)

-- resetStream, which runs once the context is done
unfoldable pub reset_stream : ClientStream → Option StreamError × ClientStream
unfolding close_with_error
reset_stream s =
    let (e, ch) = write s.channel rst_stream in
    (
      e,
      record s {
        send_closed = true;
        channel = ch;
        base = close_with_error (check_write_err e) false s.base;
      },
    )

-- Close
unfoldable pub close : ClientStream → ClientStream
unfolding close_with_error
close s = with_base s (close_with_error none false (record s.base { cancelled = true }))

-- processMessage behind the reassembly
abbrev pub received : BaseStream → Option Bytes × Bytes → BaseStream
received b (none, buf) = record b { packet_buf = buf }
received b (some bytes, buf) = deliver bytes (record b { packet_buf = buf })

unfoldable pub process_message : PacketMessage → ClientStream → ClientStream
unfolding deliver
process_message p s =
    if s.trailers_received
    then s
    else with_base s (received s.base (process_packet s.base.packet_buf p))

unfoldable pub process_headers : Option Metadata → ClientStream → ClientStream
process_headers md s = record s { headers = metadata_from_proto md; headers_received = true }

-- trailers.Metadata == nil leaves the trailers as they are
abbrev new_trailers : Option Metadata → Option Metadata → Option Metadata
new_trailers none old = old
new_trailers (some md) old = metadata_from_proto (some md)

unfoldable pub process_trailers : Option Metadata → Option StreamError → ClientStream → ClientStream
unfolding close_from_trailers
process_trailers md e s = record s {
  trailers_received = true;
  trailers = new_trailers md s.trailers;
  base = close_from_trailers e s.base;
}

abbrev pub fail : String → ClientStream → ClientStream
fail m s = with_base s (close_with_error (some (text m)) false s.base)

unfoldable pub on_response : Response → ClientStream → ClientStream
unfolding process_message process_headers process_trailers close_with_error
on_response (Response.headers md) s =
    if s.headers_received
    then fail "headers already received" s
    else if s.trailers_received
    then fail "headers received after trailers" s
    else process_headers md s
on_response (Response.message p) s =
    if s.headers_received
    then (if s.trailers_received
        then fail "message received after trailers" s
        else process_message p s)
    else fail "headers not yet received" s
on_response (Response.trailers md e) s = process_trailers md e s
on_response unknown s = s
