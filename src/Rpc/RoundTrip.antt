-- ===== src/Rpc/RoundTrip.antt =====
-- A message that one end of a stream writes and the other end reads.
pub mod ToClient
use goutils.Common.{
  ℕ, suc, zero, ◌-◌, ◌≤◌, ◌<◌, ◌≡◌, refl, ap, sym, subst, ◌∙◌, Bool, true, false, Option, none,
  some, List, [], ◌∷◌, ◌++◌, map, if◌then◌else◌, ◌==◌, length, arith, Bool-cases, inl, inr,
}
use goutils.Rpc.Channel.{StreamError, closed_pipe, Channel, write}
use goutils.Rpc.BaseStream.{
  Bytes, PacketMessage, BaseStream, max_message_size, process_packet, deliver, close_recv,
  close_with_error, send_loop,
}
use goutils.Rpc.BaseStream.Packets.{
  append_empty, packets, Completes, last, more, packets-Completes, send_loop-Sent, write-Sent, Sent,
}
use goutils.Rpc.ClientStream.{
  Request, Response, Outgoing, encoded, ClientStream, empty_packet, request, send, check_write_err,
  close_on_error, written, write_message, on_response,
}
use goutils.Rpc.ServerStream.{
  Server, ServerStream, end_of_stream, received, process_message, process_with, on_request,
  send_msg, response,
}
use goutils.Rpc.ClientStream as Client
use goutils.Rpc.ServerStream as Serving

-- The packets that a message is written as.
abbrev pub packets_of : ℕ → Bytes → List PacketMessage
packets_of n bytes = if length bytes == 0 then empty_packet ∷ [] else packets (length bytes) n bytes

pub packets_of-Completes :
    (n : ℕ) (bytes : Bytes)
    → 0 < n
    → length bytes ≤ max_message_size
    → Completes [] (packets_of n bytes) bytes
unfolding process_packet
packets_of-Completes n bytes h k = elim (Bool-cases (length bytes == 0)) [
  | inl e ↦
      rw (e, packets_of)
        (last [] empty_packet bytes (ap (λ m. (some m, [])) (sym (append_empty [] bytes e))))
  | inr e ↦
      rw (e, packets_of)
        (packets-Completes (length bytes) n [] bytes h (ground arith) e (ground arith))
]

-- the server's handling of requests, in order
abbrev pub serve : List Request → Server × ServerStream → Server × ServerStream
serve [] s = s
serve (r ∷ rs) s = serve rs (on_request r s)

-- Ready to receive the first packet of a message.
pub record IsReceiving (b : BaseStream) (buf : Bytes) : Type 0 where
  pub buffered : b.packet_buf ≡ buf
  pub receiving : b.recv_closed ≡ false
  pub running : b.cancelled ≡ false

-- the base stream once a message has come
abbrev pub with_message : Bytes → BaseStream → BaseStream
with_message m b = record b { packet_buf = []; delivered = b.delivered ++ m ∷ [] }

received-last :
    (eos : Bool) (b : BaseStream) (buf m : Bytes)
    → IsReceiving b buf
    → received eos b (some m, []) ≡ end_of_stream eos (with_message m b)
unfolding deliver
received-last eos b buf m v = rw (v.receiving, v.running)

on_request-packet :
    (eos : Bool) (p : PacketMessage) (srv : Server) (s : ServerStream)
    → s.headers_received ≡ true
    → s.base.recv_closed ≡ false
    → on_request (request true eos p) (srv, s)
      ≡ (srv, record s { base = received eos s.base (process_packet s.base.packet_buf p) })
unfolding on_request process_message process_with
on_request-packet eos p srv s h k = rw (h, k)

serve-Completes :
    (eos : Bool) (srv : Server) (s : ServerStream) (buf : Bytes) (ps : List PacketMessage)
    (m : Bytes)
    → s.headers_received ≡ true
    → IsReceiving s.base buf
    → Completes buf ps m
    → serve (map (request true eos) ps) (srv, s)
      ≡ (srv, record s { base = end_of_stream eos (with_message m s.base) })
serve-Completes eos srv s buf [] m h v c = elim c [ ]
serve-Completes eos srv s buf (p ∷ _) m h v (last _ _ _ e) =
    on_request-packet eos p srv s h v.receiving
    ∙ ap (λ b. (srv, record s { base = b }))
        (ap (received eos s.base) (ap (λ buf. process_packet buf p) v.buffered ∙ e)
          ∙ received-last eos s.base buf m v)
serve-Completes eos srv s buf (p ∷ ps) m h v (more _ b _ _ _ e c) =
    ap (serve (map (request true eos) ps)) (
      on_request-packet eos p srv s h v.receiving
      ∙ ap (λ r. (srv, record s { base = received eos s.base r }))
          (ap (λ buf. process_packet buf p) v.buffered ∙ e))
    ∙ serve-Completes eos srv (record s { base = record s.base { packet_buf = b } }) b ps m h
        (record { buffered = refl; receiving = v.receiving; running = v.running }) c

-- what writing a message does, where the channel has room
pub send_packets-Sent :
    {M : Type 0} (wrap : PacketMessage → M) (n : ℕ) (bytes : Bytes) (ch : Channel M)
    → ch.cancelled ≡ false
    → length (packets_of n bytes) ≤ ch.room
    → Sent ch (map wrap (packets_of n bytes)) (
        if length bytes == 0
        then write ch (wrap empty_packet)
        else send_loop (length bytes) n wrap bytes ch)
send_packets-Sent wrap n bytes ch h r = elim (Bool-cases (length bytes == 0)) [
  | inl e ↦
      rw (e, packets_of)
        (write-Sent ch (wrap empty_packet) h (
          omega (
            arith,
            subst
                (λ b.
                  length (if b then empty_packet ∷ [] else packets (length bytes) n bytes)
                  ≤ ch.room)
                e r,
          )))
  | inr e ↦
      rw (e, packets_of)
        (send_loop-Sent (length bytes) n wrap bytes ch h (
          subst
            (λ b.
              length (if b then empty_packet ∷ [] else packets (length bytes) n bytes) ≤ ch.room)
            e r))
]

-- What writeMessage answers and leaves where everything was written.
record Wrote (c : ClientStream) (ms : List Request) (r : Option StreamError × ClientStream)
    : Type 0 where
  pub no_error : r.0 ≡ none
  pub all_sent : r.1.channel.sent ≡ c.channel.sent ++ ms
  pub base_kept : r.1.base ≡ c.base

written-Wrote :
    (c : ClientStream) (ms : List Request) (r : Option StreamError × Channel Request)
    → Sent c.channel ms r
    → Wrote c ms (written c r)
unfolding close_with_error
written-Wrote c ms r s = record {
  no_error = s.no_error;
  all_sent = s.all_sent;
  base_kept = ap (λ e. close_on_error (check_write_err e) c.base) s.no_error;
}

write_message-Wrote :
    (n : ℕ) (bytes : Bytes) (eos : Bool) (c : ClientStream)
    → c.send_closed ≡ false
    → c.channel.cancelled ≡ false
    → length (packets_of n bytes) ≤ c.channel.room
    → Wrote c (map (request true eos) (packets_of n bytes)) (write_message n (encoded bytes) eos c)
unfolding write_message send
write_message-Wrote n bytes eos c h k r =
    subst (Wrote c (map (request true eos) (packets_of n bytes)))
      (sym (
        ap
          (λ b.
            if b
            then (some closed_pipe, c)
            else written (if eos then record c { send_closed = true } else c)
                (send n (encoded bytes) eos c.channel))
          h))
      (go eos)
  where
    go :
        (b : Bool)
        → Wrote c (map (request true eos) (packets_of n bytes)) (
            written
              (if b then record c { send_closed = true } else c)
              (send n (encoded bytes) eos c.channel))
    go true =
        let w =
          written-Wrote (record c { send_closed = true }) _ (send n (encoded bytes) eos c.channel)
            (send_packets-Sent (request true eos) n bytes c.channel k r) in
        record { no_error = w.no_error; all_sent = w.all_sent; base_kept = w.base_kept }
    go false =
        written-Wrote c _ (send n (encoded bytes) eos c.channel)
          (send_packets-Sent (request true eos) n bytes c.channel k r)

-- A message of at most max_message_size bytes that the client writes on an open stream, over a
-- channel with room for its packets, is written without an error as requests. The server that
-- handles them, its stream open and between two messages, receives exactly that message behind
-- those before it; with eos, which invoke sets, its receiving side is then closed.
pub client_message-server :
    (n : ℕ) (bytes : Bytes) (eos : Bool) (c : ClientStream) (srv : Server) (s : ServerStream)
    → 0 < n
    → length bytes ≤ max_message_size
    → c.send_closed ≡ false
    → c.channel.cancelled ≡ false
    → length (packets_of n bytes) ≤ c.channel.room
    → s.headers_received ≡ true
    → IsReceiving s.base []
    → let r = write_message n (encoded bytes) eos c in
      (r.0 ≡ none)
      × ((requests : List Request) × (r.1.channel.sent ≡ c.channel.sent ++ requests)
          × (serve requests (srv, s)
              ≡ (srv, record s { base = end_of_stream eos (with_message bytes s.base) })))
client_message-server n bytes eos c srv s pos small unclosed running room h v =
    let w = write_message-Wrote n bytes eos c unclosed running room in
    (
      w.no_error,
      (
        map (request true eos) (packets_of n bytes),
        w.all_sent,
        serve-Completes eos srv s [] (packets_of n bytes) bytes h v
            (packets_of-Completes n bytes pos small),
      ),
    )
