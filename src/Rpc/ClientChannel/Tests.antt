-- ===== src/Rpc/ClientChannel/Tests.antt =====
-- The theorems about the client's channel, on two calls.
use goutils.Common.{◌≡◌, refl, true, false, none, some, List, [], ◌∷◌, length, arith}
use goutils.Rpc.StreamMap.{get, put, remove}
use goutils.Rpc.Channel.{Channel, closed_pipe, write}
use goutils.Rpc.BaseStream.{send_loop, close_with_error, close_from_trailers}
use goutils.Rpc.ClientStream.{
  Request, Response, encoded, write_headers, write_message, send, on_response, process_trailers,
}
use goutils.Rpc.ClientChannel.{
  ClientChannel, new_client_channel, next_stream_id, new_client_stream, new_stream, invoke,
  call_stream, call, on_channel_message, close_channel, Event, opens, invokes, gets, run,
}
use goutils.Rpc.ClientChannel.Streams.{IsSound, run-new_client_channel-IsSound}
use goutils.Rpc.ClientChannel.Fresh.{run-next_unused}
use goutils.Rpc.ClientChannel.Closing.{close_channel_lem}

abbrev channel : Channel Request
channel = record {
  sent = [];
  room = 10;
  send_error = closed_pipe;
  cancelled = false;
  closed = false;
  closed_reason = none;
  readers = 0;
}

-- the first stream ends with its trailers, the second stays
abbrev some_events : List Event
some_events =
    opens false "/echo" none
    ∷ invokes false "/echo" none 2 (encoded (1 ∷ []))
    ∷ gets (some (1, Response.trailers none none))
    ∷ gets none
    ∷ []

abbrev some_channel : ClientChannel
some_channel = run some_events (new_client_channel channel)

first_ended : get some_channel.streams 1 ≡ none
unfolding get put remove new_client_stream new_stream invoke call_stream call on_channel_message
    write write_headers write_message send on_response process_trailers close_from_trailers
    close_with_error send_loop
first_ended = refl

two_messages : length some_channel.base.sent ≡ 3
unfolding get put remove new_client_stream new_stream invoke call_stream call on_channel_message
    write write_headers write_message send on_response process_trailers close_from_trailers
    close_with_error send_loop
two_messages = refl

run-new_client_channel-IsSound_example : IsSound some_channel
run-new_client_channel-IsSound_example = run-new_client_channel-IsSound channel some_events

run-next_unused_example :
    get some_channel.streams (next_stream_id some_channel).stream_id_counter ≡ none
run-next_unused_example = run-next_unused channel some_events (omega arith)

close_channel_lem_example :
    ((close_channel some_channel).streams ≡ []) × ((close_channel some_channel).base.closed ≡ true)
close_channel_lem_example = close_channel_lem some_channel
