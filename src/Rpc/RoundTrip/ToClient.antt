-- ===== src/Rpc/RoundTrip/ToClient.antt =====
-- A message that the server's end of a stream writes and the client reads.
use goutils.Common.{ℕ, ◌≤◌, ◌<◌, ◌≡◌, refl, ap, ◌∙◌, true, false, List, [], ◌∷◌, ◌++◌, map, length}
use goutils.Rpc.BaseStream.{Bytes, PacketMessage, max_message_size, process_packet, deliver}
use goutils.Rpc.BaseStream.Packets.{Completes, last, more}
use goutils.Rpc.ClientStream.{
  Request, Response, Outgoing, encoded, ClientStream, empty_packet, request, send, check_write_err,
  close_on_error, written, write_message, on_response,
}
use goutils.Rpc.ServerStream.{
  Server, ServerStream, end_of_stream, received, process_message, process_with, on_request,
  send_msg, response, close_failed,
}
use goutils.Rpc.ClientStream as Client
use goutils.Rpc.ServerStream as Serving
use goutils.Rpc.RoundTrip.{
  packets_of, packets_of-Completes, send_packets-Sent, IsReceiving, with_message,
}

-- the client's handling of responses, in order
abbrev pub accept : List Response → ClientStream → ClientStream
accept [] s = s
accept (r ∷ rs) s = accept rs (on_response r s)

on_response-packet :
    (p : PacketMessage) (c : ClientStream)
    → c.headers_received ≡ true
    → c.trailers_received ≡ false
    → on_response (response p) c
      ≡ record c { base = Client.received c.base (process_packet c.base.packet_buf p) }
unfolding on_response Client.process_message
on_response-packet p c h k = simp (h, k)

accept-Completes :
    (c : ClientStream) (buf : Bytes) (ps : List PacketMessage) (m : Bytes)
    → c.headers_received ≡ true
    → c.trailers_received ≡ false
    → IsReceiving c.base buf
    → Completes buf ps m
    → accept (map response ps) c ≡ record c { base = with_message m c.base }
unfolding deliver
accept-Completes c buf [] m h k v x = elim x [ ]
accept-Completes c buf (p ∷ _) m h k v (last _ _ _ e) =
    on_response-packet p c h k
    ∙ ap (λ b. record c { base = b })
        (ap (Client.received c.base) (ap (λ buf. process_packet buf p) v.buffered ∙ e)
          ∙ rw (v.receiving, v.running))
accept-Completes c buf (p ∷ ps) m h k v (more _ b _ _ _ e x) =
    ap (accept (map response ps)) (
      on_response-packet p c h k
      ∙ ap (λ r. record c { base = Client.received c.base r })
          (ap (λ buf. process_packet buf p) v.buffered ∙ e))
    ∙ accept-Completes (record c { base = record c.base { packet_buf = b } }) b ps m h k
        (record { buffered = refl; receiving = v.receiving; running = v.running }) x

send_msg-written :
    (n : ℕ) (m : Outgoing) (s : ServerStream)
    → s.send_closed ≡ false
    → s.headers_written ≡ true
    → send_msg n m s
      ≡ close_failed
          ((Serving.send n m s.channel).0, record s { channel = (Serving.send n m s.channel).1 })
unfolding send_msg Serving.write_headers
send_msg-written n m s h k = simp (h, k)

-- A message of at most max_message_size bytes that the server sends on an open stream, its headers
-- written before and its channel with room for the packets, is sent without an error as responses.
-- The client that handles them, with the headers but no trailers received and between two messages,
-- receives exactly that message behind those before it.
pub server_message-client :
    (n : ℕ) (bytes : Bytes) (s : ServerStream) (c : ClientStream)
    → 0 < n
    → length bytes ≤ max_message_size
    → s.send_closed ≡ false
    → s.headers_written ≡ true
    → s.channel.cancelled ≡ false
    → length (packets_of n bytes) ≤ s.channel.room
    → c.headers_received ≡ true
    → c.trailers_received ≡ false
    → IsReceiving c.base []
    → let r = send_msg n (encoded bytes) s in
      (r.0 ≡ [])
      × ((responses : List Response) × (r.1.channel.sent ≡ s.channel.sent ++ responses)
          × (accept responses c ≡ record c { base = with_message bytes c.base }))
unfolding Serving.send
server_message-client n bytes s c pos small unclosed written running room h k v =
    let w = send_packets-Sent response n bytes s.channel running room in
    let e =
      send_msg-written n (encoded bytes) s unclosed written
      ∙ ap
          (λ x.
            close_failed (x, record s { channel = (Serving.send n (encoded bytes) s.channel).1 }))
          w.no_error in
    (
      ap (λ r. r.0) e,
      (
        map response (packets_of n bytes),
        ap (λ r. r.1.channel.sent) e ∙ w.all_sent,
        accept-Completes c [] (packets_of n bytes) bytes h k v
            (packets_of-Completes n bytes pos small),
      ),
    )
