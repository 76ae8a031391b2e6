-- ===== src/Rpc/ClientStream/Closing.antt =====
-- The client's stream over any sequence of calls and responses.
use goutils.Common.{ℕ, String, ◌≡◌, Bool, true, false, Option, none, some, List, [], ◌∷◌, if_both}
use goutils.Rpc.Channel.{StreamError, text, Channel, write}
use goutils.Rpc.BaseStream.{
  Bytes, Metadata, PacketMessage, BaseStream, is_nil, close_with_error, close_from_trailers,
  process_packet,
}
use goutils.Rpc.BaseStream.Closing.{
  IsSound, Same, Keeps, unchanged, followed_by, close_with_error-Keeps, deliver-Keeps, buffer-Keeps,
  cancel-Keeps,
}
use goutils.Rpc.ClientStream.{
  Request, rst_stream, Outgoing, Response, unknown, ClientStream, check_write_err, close_on_error,
  written, received, write_headers, send, write_message, reset_stream, close, process_message,
  process_headers, process_trailers, fail, on_response,
}

pub data Step : Type 0 where
  writes_headers : String → Option Metadata → Step
  writes : ℕ → Outgoing → Bool → Step
  resets closes : Step
  gets : Response → Step
  -- the context of the stream is done
  is_cancelled : Step

unfoldable pub step : Step → ClientStream → ClientStream
step (writes_headers method md) s = (write_headers method md s).1
step (writes n m eos) s = (write_message n m eos s).1
step resets s = (reset_stream s).1
step closes s = close s
step (gets r) s = on_response r s
step is_cancelled s = record s { base = record s.base { cancelled = true } }

unfoldable pub run : List Step → ClientStream → ClientStream
unfolding step
run [] s = s
run (x ∷ xs) s = run xs (step x s)

close_on_error-Keeps : (e : Option StreamError) (b : BaseStream) → Keeps b (close_on_error e b)
close_on_error-Keeps none b = unchanged b
close_on_error-Keeps (some e) b = close_with_error-Keeps (some e) false b

written-Keeps :
    (s : ClientStream) (r : Option StreamError × Channel Request)
    → Keeps s.base (written s r).1.base
unfolding close_with_error
written-Keeps s (e, ch) = close_on_error-Keeps (check_write_err e) s.base

write_message-Keeps :
    (n : ℕ) (m : Outgoing) (eos : Bool) (s : ClientStream)
    → Keeps s.base (write_message n m eos s).1.base
unfolding write_message send close_with_error
write_message-Keeps n m eos s =
    if_both (λ (r : Option StreamError × ClientStream). Keeps s.base r.1.base) s.send_closed
      (unchanged s.base)
      (if_both (λ (s' : ClientStream). Keeps s.base (written s' (send n m eos s.channel)).1.base)
        eos (written-Keeps (record s { send_closed = true }) (send n m eos s.channel))
        (written-Keeps s (send n m eos s.channel)))

received-Keeps :
    (b : BaseStream) (p : PacketMessage) → Keeps b (received b (process_packet b.packet_buf p))
received-Keeps b p = go (process_packet b.packet_buf p).0
  where
    go : (o : Option Bytes) → Keeps b (received b (o, (process_packet b.packet_buf p).1))
    go none = buffer-Keeps p b
    go (some m) =
        followed_by (buffer-Keeps p b)
          (deliver-Keeps m (record b { packet_buf = (process_packet b.packet_buf p).1 }))

abbrev Kept : ClientStream → ClientStream → Type 0
Kept s s' = Keeps s.base s'.base

fail-Keeps : (m : String) (s : ClientStream) → Kept s (fail m s)
fail-Keeps m s = close_with_error-Keeps (some (text m)) false s.base

on_response-Keeps : (r : Response) (s : ClientStream) → Kept s (on_response r s)
unfolding on_response process_message close_with_error process_headers process_trailers
    close_from_trailers
on_response-Keeps (Response.headers md) s =
    if_both (Kept s) s.headers_received (fail-Keeps "headers already received" s) (
      if_both (Kept s) s.trailers_received (fail-Keeps "headers received after trailers" s)
        (unchanged s.base))
on_response-Keeps (Response.message p) s =
    if_both (Kept s) s.headers_received
      (if_both (Kept s) s.trailers_received (fail-Keeps "message received after trailers" s)
        (if_both (Kept s) s.trailers_received (unchanged s.base) (received-Keeps s.base p)))
      (fail-Keeps "headers not yet received" s)
on_response-Keeps (Response.trailers md e) s = close_with_error-Keeps e (is_nil e) s.base
on_response-Keeps unknown s = unchanged s.base

step-Keeps : (x : Step) (s : ClientStream) → Kept s (step x s)
unfolding step write_headers reset_stream close
step-Keeps (writes_headers method md) s =
    written-Keeps s (write s.channel (Request.headers method md))
step-Keeps (writes n m eos) s = write_message-Keeps n m eos s
step-Keeps resets s =
    close_with_error-Keeps (check_write_err (write s.channel rst_stream).0) false s.base
step-Keeps closes s =
    followed_by (cancel-Keeps s.base)
      (close_with_error-Keeps none false (record s.base { cancelled = true }))
step-Keeps (gets r) s = on_response-Keeps r s
step-Keeps is_cancelled s = cancel-Keeps s.base

run-Keeps : (xs : List Step) (s : ClientStream) → Kept s (run xs s)
unfolding run
run-Keeps [] s = unchanged s.base
run-Keeps (x ∷ xs) s = followed_by (step-Keeps x s) (run-Keeps xs (step x s))

-- Whatever is called on the client's stream and whatever responses come: onDone is called at most
-- once, and just when the stream closes; a closed stream has its receiving side closed and its
-- context done; and the packets held never exceed max_message_size bytes.
pub client_run-IsSound :
    (xs : List Step) (s : ClientStream) → IsSound s.base → IsSound (run xs s).base
client_run-IsSound xs s v = (run-Keeps xs s).sound v

-- Once the client's stream is closed, nothing that is called or comes adds a message, changes its
-- error, calls onDone again or opens it.
pub client_run_closed-Same :
    (xs : List Step) (s : ClientStream)
    → IsSound s.base
    → s.base.closed ≡ true
    → Same s.base (run xs s).base
client_run_closed-Same xs s v h = (run-Keeps xs s).quiet v h
