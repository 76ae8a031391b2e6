-- ===== src/Rpc/Tests.antt =====
-- The theorems about streams, on small streams, packets of two bytes and a server with one ticket.
use goutils.Common.{
  ℕ, zero, suc, ◌≡◌, refl, ap, true, false, Option, none, some, List, [], ◌∷◌, length, arith,
}
use goutils.Rpc.Channel.{
  closed_pipe, text, Channel, write_all, close_with_reason, can_broadcast,
  close-write_all-can_broadcast,
}
use goutils.Rpc.BaseStream.{Bytes, PacketMessage, BaseStream}
use goutils.Rpc.BaseStream.Closing.{IsSound}
use goutils.Rpc.ClientStream.{
  Request, rst_stream, request, Response, encoded, nil_message, ClientStream, write_message,
}
use goutils.Rpc.ClientStream.Closing.{
  writes, resets, closes, gets, client_run-IsSound, client_run_closed-Same,
}
use goutils.Rpc.ClientStream.Closing as Client
use goutils.Rpc.ServerStream.{
  Server, ServerStream, process_headers, handler_returns, stop, can_finish_stop, send_msg,
}
use goutils.Rpc.ServerStream.Closing.{server_run_closed-Same}
use goutils.Rpc.ServerStream.Closing as Serving
use goutils.Rpc.ServerStream.Tickets.{
  comes, returns, stops, IsCounted, rejected, run-IsCounted, stop-can_finish_stop,
}
use goutils.Rpc.ServerStream.Tickets as Tickets
use goutils.Rpc.RoundTrip.{serve, IsReceiving, client_message-server}
use goutils.Rpc.RoundTrip.ToClient.{accept, server_message-client}

abbrev fresh_base : BaseStream
fresh_base = record {
  packet_buf = [];
  delivered = [];
  takes = false;
  recv_closed = false;
  closed = false;
  cancelled = false;
  error = none;
  done_calls = 0;
}

abbrev closed_base : BaseStream
closed_base = record fresh_base {
  recv_closed = true;
  closed = true;
  cancelled = true;
  error = some (text "gone");
  done_calls = 1;
}

abbrev channel : {M : Type 0} → Channel M
channel = record {
  sent = [];
  room = 10;
  send_error = closed_pipe;
  cancelled = false;
  closed = false;
  closed_reason = none;
  readers = 0;
}

abbrev client : BaseStream → ClientStream
client b = record {
  base = b;
  channel = channel;
  headers = none;
  trailers = none;
  headers_received = true;
  trailers_received = false;
  send_closed = false;
}

abbrev stream : BaseStream → ServerStream
stream b = record {
  base = b;
  channel = channel;
  header = none;
  trailer = none;
  headers_written = true;
  headers_received = true;
  send_closed = false;
}

abbrev server : Server
server = record {
  handlers = "/echo" ∷ [];
  has_unknown_handler = false;
  cancelled = false;
  capacity = 1;
  tickets = 0;
  workers = 0;
  running = 0;
}

abbrev bytes : Bytes
bytes = 1 ∷ 2 ∷ 3 ∷ []

fresh-IsReceiving : IsReceiving fresh_base []
fresh-IsReceiving = record { buffered = refl; receiving = refl; running = refl }

fresh-IsSound : IsSound fresh_base
fresh-IsSound = record {
  done_once = refl;
  closed_recv = λ h. absurd (cc);
  closed_context = λ h. absurd (cc);
  bounded = ground arith;
}

closed-IsSound : IsSound closed_base
closed-IsSound = record {
  done_once = refl;
  closed_recv = λ h. refl;
  closed_context = λ h. refl;
  bounded = ground arith;
}

server-IsCounted : IsCounted 0 server
server-IsCounted = record { held = refl; within = ground arith; counted = refl }

close-write_all-can_broadcast_example :
    can_broadcast (write_all (close_with_reason none channel) (rst_stream ∷ rst_stream ∷ []))
    ≡ false
close-write_all-can_broadcast_example =
    close-write_all-can_broadcast channel none rst_stream (rst_stream ∷ []) refl

zeros : ℕ → Bytes
zeros zero = []
zeros (suc n) = 0 ∷ zeros n

length-zeros : (n : ℕ) → length (zeros n) ≡ n
unfolding zeros
length-zeros zero = refl
length-zeros (suc n) = ap suc (length-zeros n)

client_message-server_example :
    let r = write_message 2 (encoded bytes) true (client fresh_base) in
    (r.0 ≡ none)
    × ((requests : List Request) × (r.1.channel.sent ≡ requests)
        × (serve requests (server, stream fresh_base)
            ≡ (server, stream (record fresh_base { delivered = bytes ∷ []; recv_closed = true }))))
unfolding write_message
client_message-server_example =
    client_message-server 2 bytes true (client fresh_base) server (stream fresh_base) (ground arith)
      (ground arith) refl refl (ground arith) refl fresh-IsReceiving

server_message-client_example :
    let r = send_msg 2 (encoded bytes) (stream fresh_base) in
    (r.0 ≡ [])
    × ((responses : List Response) × (r.1.channel.sent ≡ responses)
        × (accept responses (client fresh_base)
            ≡ client (record fresh_base { delivered = bytes ∷ [] })))
server_message-client_example =
    server_message-client 2 bytes (stream fresh_base) (client fresh_base) (ground arith)
      (ground arith) refl refl refl (ground arith) refl refl fresh-IsReceiving

abbrev packet : PacketMessage
packet = record { data_ = bytes; eom = true }

client_run-IsSound_example :
    IsSound
      (Client.run
        (gets (Response.message packet) ∷ writes 2 nil_message true ∷ resets ∷ closes ∷ [])
        (client fresh_base)).base
client_run-IsSound_example =
    client_run-IsSound
      (gets (Response.message packet) ∷ writes 2 nil_message true ∷ resets ∷ closes ∷ [])
      (client fresh_base) fresh-IsSound

abbrev events : List Tickets.Event
events =
    comes "/echo" (stream fresh_base) ∷ comes "/echo" (stream fresh_base) ∷ returns ∷ stops ∷ []

run-IsCounted_example : IsCounted 1 (Tickets.run events server)
unfolding Tickets.step process_headers
run-IsCounted_example = run-IsCounted events 0 server server-IsCounted

stop-can_finish_stop_example : can_finish_stop (stop (Tickets.run events server)) ≡ false
unfolding Tickets.run Tickets.step process_headers handler_returns stop
stop-can_finish_stop_example = stop-can_finish_stop events server server-IsCounted refl

abbrev messages : List (Option (ℕ × Request))
messages = some (1, request true true packet) ∷ none ∷ some (1, Request.headers "/echo" none) ∷ []
