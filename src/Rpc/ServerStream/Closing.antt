-- ===== src/Rpc/ServerStream/Closing.antt =====
-- The server's stream over any sequence of calls of its handler and requests.
use goutils.Common.{
  ℕ, String, ◌≡◌, Bool, true, false, not, ◌&&◌, ◌||◌, Option, none, some, List, [], ◌∷◌, if_both,
  leb,
}
use goutils.Rpc.Channel.{StreamError, text, status}
use goutils.Rpc.BaseStream.{Bytes, Metadata, PacketMessage, BaseStream, process_packet, deliver}
use goutils.Rpc.BaseStream.Closing.{
  IsSound, Same, Keeps, unchanged, followed_by, close_recv-Keeps, close_with_error-Keeps,
  deliver-Keeps, buffer-Keeps, cancel-Keeps,
}
use goutils.Rpc.ClientStream.{Request, rst_stream, unknown_request, RequestMessage, Outgoing}
use goutils.Rpc.ServerStream.{
  Server, ServerStream, set_header, set_trailer, write_headers, send_header, write_trailers,
  closing, close_with_send_error, send, send_msg, close_failed, end_of_stream, received,
  process_with, process_message, is_handled, process_headers, on_request, is_closed_pipe,
  is_data_channel_closed, is_context_canceled,
}

pub data Step : Type 0 where
  sets_header sends_header sets_trailer : Option Metadata → Step
  sends : ℕ → Outgoing → Step
  closes : Option StreamError → Step
  gets : Request → Step
  -- the context of the stream is done
  is_cancelled : Step

unfoldable pub step : Step → Server × ServerStream → Server × ServerStream
step (sets_header md) (srv, s) = (srv, (set_header md s).1)
step (sends_header md) (srv, s) = (srv, (send_header md s).1)
step (sets_trailer md) (srv, s) = (srv, set_trailer md s)
step (sends n m) (srv, s) = (srv, (send_msg n m s).1)
step (closes e) (srv, s) = (srv, (close_with_send_error e s).1)
step (gets r) (srv, s) = on_request r (srv, s)
step is_cancelled (srv, s) = (srv, record s { base = record s.base { cancelled = true } })

unfoldable pub run : List Step → Server × ServerStream → Server × ServerStream
unfolding step
run [] s = s
run (x ∷ xs) s = run xs (step x s)

abbrev Kept : ServerStream → ServerStream → Type 0
Kept s s' = Keeps s.base s'.base

abbrev With : Type 0 → Type 0
With A = A × ServerStream

write_headers-Keeps : (s : ServerStream) → Kept s (write_headers s).1
unfolding write_headers
write_headers-Keeps s =
    if_both (λ (r : With (Option StreamError)). Kept s r.1) s.headers_written (unchanged s.base)
      (unchanged s.base)

set_header-Keeps : (md : Option Metadata) (s : ServerStream) → Kept s (set_header md s).1
unfolding set_header
set_header-Keeps md s =
    if_both (λ (r : With (Option StreamError)). Kept s r.1) s.headers_written (unchanged s.base)
      (unchanged s.base)

-- what holds of both cases of an error result
on_error :
    (P : With (Option StreamError) → Type 0) (e : Option StreamError) {s : ServerStream}
    {r : With (Option StreamError)}
    → ((x : StreamError) → P (some x, s))
    → P r
    → P (elim e [ some x ↦ (some x, s) | none ↦ r ])
on_error P none p q = q
on_error P (some x) p q = p x

send_header-Keeps : (md : Option Metadata) (s : ServerStream) → Kept s (send_header md s).1
unfolding send_header
send_header-Keeps md s =
    on_error (λ r. Kept s r.1) (set_header md s).0 (λ x. set_header-Keeps md s)
      (followed_by (set_header-Keeps md s) (write_headers-Keeps (set_header md s).1))

closing-Keeps : (e : Option StreamError) (s : ServerStream) → Kept s (closing e s).1
unfolding closing write_trailers
closing-Keeps e s =
    let P : With (Option StreamError) → Type 0 = λ r. Kept s r.1 in
    if_both P (is_closed_pipe e) (unchanged s.base) (
      if_both P (s.base.closed || s.channel.closed)
        (if_both P (is_data_channel_closed s.channel.closed_reason && is_context_canceled e)
          (unchanged s.base) (unchanged s.base))
        (on_error P (write_headers s).0 (λ x. write_headers-Keeps s) (write_headers-Keeps s)))

close_with_send_error-Keeps :
    (e : Option StreamError) (s : ServerStream) → Kept s (close_with_send_error e s).1
unfolding close_with_send_error
close_with_send_error-Keeps e s =
    let s1 : ServerStream = record s { send_closed = true } in
    if_both (λ (r : With (Option StreamError)). Kept s r.1) s.send_closed (unchanged s.base)
      (followed_by (closing-Keeps e s1) (close_with_error-Keeps none false (closing e s1).1.base))

close_failed-Keeps : (r : With (Option StreamError)) → Kept r.1 (close_failed r).1
close_failed-Keeps (none, s) = unchanged s.base
close_failed-Keeps (some e, s) = close_with_send_error-Keeps (some e) s

send_msg-Keeps : (n : ℕ) (m : Outgoing) (s : ServerStream) → Kept s (send_msg n m s).1
unfolding send_msg
send_msg-Keeps n m s =
    if_both (λ (r : With (List StreamError)). Kept s r.1) s.send_closed (unchanged s.base)
      (on_error (λ r. Kept s (close_failed r).1) (write_headers s).0
        (λ x.
          followed_by (write_headers-Keeps s)
            (close_with_send_error-Keeps (some x) (write_headers s).1))
        (followed_by (write_headers-Keeps s) (
          close_failed-Keeps (
            (send n m (write_headers s).1.channel).0,
            record (write_headers s).1 { channel = (send n m (write_headers s).1.channel).1 },
          ))))

end_of_stream-Keeps : (eos : Bool) (b : BaseStream) → Keeps b (end_of_stream eos b)
end_of_stream-Keeps eos b = if_both (Keeps b) eos (close_recv-Keeps b) (unchanged b)

received-Keeps :
    (eos : Bool) (b : BaseStream) (p : PacketMessage)
    → Keeps b (received eos b (process_packet b.packet_buf p))
received-Keeps eos b p = go (process_packet b.packet_buf p).0
  where
    go : (o : Option Bytes) → Keeps b (received eos b (o, (process_packet b.packet_buf p).1))
    go none = buffer-Keeps p b
    go (some m) =
        let b' = record b { packet_buf = (process_packet b.packet_buf p).1 } in
        if_both (Keeps b) b'.recv_closed (buffer-Keeps p b) (
          if_both (Keeps b) (b'.cancelled && not b'.takes) (buffer-Keeps p b) (
            followed_by (followed_by (buffer-Keeps p b) (deliver-Keeps m b'))
              (end_of_stream-Keeps eos (deliver m b'))))

process_with-Keeps :
    (m : RequestMessage) (b : BaseStream) (p : Option PacketMessage) → Keeps b (process_with m b p)
unfolding process_with
process_with-Keeps m b none =
    close_with_error-Keeps
      (some (text "expected RequestMessage.PacketMessgae to not be nil but it was")) false b
process_with-Keeps m b (some p) = received-Keeps m.eos b p

process_message-Keeps : (m : RequestMessage) (s : ServerStream) → Kept s (process_message m s)
unfolding process_message
process_message-Keeps m s = if_both (Kept s) s.base.recv_closed (unchanged s.base) (
    if_both (Keeps s.base) m.has_message (process_with-Keeps m s.base m.packet)
      (end_of_stream-Keeps m.eos s.base))

process_headers-Keeps :
    (method : String) (srv : Server) (s : ServerStream) → Kept s (process_headers method (srv, s)).1
unfolding process_headers
process_headers-Keeps method srv s =
    let P : With Server → Type 0 = λ r. Kept s r.1 in
    if_both P (not (is_handled srv.handlers method || srv.has_unknown_handler))
      (close_with_send_error-Keeps (some (status "Unimplemented" "Unimplemented")) s)
      (if_both P srv.cancelled (unchanged s.base) (
        if_both P (leb srv.capacity srv.tickets)
          (close_with_send_error-Keeps
            (some (status "ResourceExhausted" "too many in-flight requests")) s)
          (unchanged s.base)))

on_request-Keeps :
    (r : Request) (srv : Server) (s : ServerStream) → Kept s (on_request r (srv, s)).1
unfolding on_request
on_request-Keeps (Request.headers method md) srv s =
    if_both (λ (r : With Server). Kept s r.1) s.headers_received
      (close_with_send_error-Keeps (some (status "InvalidArgument" "headers already received")) s)
      (process_headers-Keeps method srv s)
on_request-Keeps (Request.message m) srv s =
    if_both (λ (r : With Server). Kept s r.1) s.headers_received (process_message-Keeps m s)
      (close_with_send_error-Keeps (some (status "InvalidArgument" "headers not yet received")) s)
on_request-Keeps rst_stream srv s =
    close_with_send_error-Keeps (some (status "Canceled" "request cancelled")) s
on_request-Keeps unknown_request srv s =
    close_with_send_error-Keeps (some (status "InvalidArgument" "unknown request type <nil>")) s

step-Keeps : (x : Step) (srv : Server) (s : ServerStream) → Kept s (step x (srv, s)).1
unfolding step set_trailer
step-Keeps (sets_header md) srv s = set_header-Keeps md s
step-Keeps (sends_header md) srv s = send_header-Keeps md s
step-Keeps (sets_trailer md) srv s = unchanged s.base
step-Keeps (sends n m) srv s = send_msg-Keeps n m s
step-Keeps (closes e) srv s = close_with_send_error-Keeps e s
step-Keeps (gets r) srv s = on_request-Keeps r srv s
step-Keeps is_cancelled srv s = cancel-Keeps s.base

run-Keeps : (xs : List Step) (srv : Server) (s : ServerStream) → Kept s (run xs (srv, s)).1
unfolding run
run-Keeps [] srv s = unchanged s.base
run-Keeps (x ∷ xs) srv s =
    followed_by (step-Keeps x srv s) (run-Keeps xs (step x (srv, s)).0 (step x (srv, s)).1)

-- Once the server's stream is closed, nothing that is called or comes adds a message, changes its
-- error, calls onDone again or opens it.
pub server_run_closed-Same :
    (xs : List Step) (srv : Server) (s : ServerStream)
    → IsSound s.base
    → s.base.closed ≡ true
    → Same s.base (run xs (srv, s)).1.base
server_run_closed-Same xs srv s v h = (run-Keeps xs srv s).quiet v h
