-- ===== src/Rpc/BaseStream.antt =====
-- rpc/wrtc_base_stream.go: what the two ends of a stream share. `delivered` are the messages that
-- were sent on msgCh, in order; a sender that waits for the receiver has not yet come to its step.
-- Where the context is done when a message is ready, either case of the select may be taken:
-- `takes` says whether it is the message.
pub mod Packets
pub mod Closing
use goutils.Common.{
  ℕ, zero, suc, ◌+◌, ◌^◌, String, Bool, true, false, not, ◌&&◌, Option, none, some, List, [], ◌∷◌,
  ◌++◌, if◌then◌else◌, ◌==◌, ltb, length, take, drop,
}
use goutils.Common.Dict.{Dict}
use goutils.Rpc.Channel.{StreamError, expected_closure, Channel, write}

abbrev pub Bytes : Type 0
Bytes = List ℕ

abbrev pub Metadata : Type 0
Metadata = Dict (List String)

abbrev pub max_message_size : ℕ
max_message_size = 2 ^ 25

pub record PacketMessage : Type 0 where
  pub data_ : Bytes
  pub eom : Bool

pub record BaseStream : Type 0 where
  pub packet_buf : Bytes
  pub delivered : List Bytes
  pub takes : Bool
  pub recv_closed : Bool
  pub closed : Bool
  -- whether the context of the stream is done
  pub cancelled : Bool
  pub error : Option StreamError
  -- how often onDone was called
  pub done_calls : ℕ

unfoldable pub close_recv : BaseStream → BaseStream
close_recv s = if s.recv_closed then s else record s { recv_closed = true }

-- the error that closing leaves
abbrev closing_error : BaseStream → Option StreamError → Bool → Option StreamError
closing_error s (some e) expected = some e
closing_error s none expected = if expected then some expected_closure else s.error

unfoldable pub close_with_error : Option StreamError → Bool → BaseStream → BaseStream
unfolding close_recv
close_with_error e expected s = if s.closed then s else record (close_recv s) {
  closed = true;
  error = closing_error s e expected;
  cancelled = true;
  done_calls = suc s.done_calls;
}

abbrev pub is_nil : Option StreamError → Bool
is_nil none = true
is_nil (some e) = false

unfoldable pub close_from_trailers : Option StreamError → BaseStream → BaseStream
unfolding close_with_error
close_from_trailers e s = close_with_error e (is_nil e) s

-- processMessage: the message that the packet ends, and the buffer that it leaves
unfoldable pub process_packet : Bytes → PacketMessage → Option Bytes × Bytes
process_packet buf p =
    if (length p.data_ == 0) && p.eom
    then (some [], buf)
    else if ltb max_message_size (length p.data_ + length buf)
    then (none, [])
    else if p.eom
    then (some (buf ++ p.data_), [])
    else (none, buf ++ p.data_)

-- The end of both streams' processMessage, from the lock on.
unfoldable pub deliver : Bytes → BaseStream → BaseStream
deliver bytes s =
    if s.recv_closed
    then s
    else if s.cancelled && not s.takes
    then s
    else record s { delivered = s.delivered ++ bytes ∷ [] }

abbrev pub metadata_to_proto : Option Metadata → Option Metadata
metadata_to_proto none = none
metadata_to_proto (some []) = none
metadata_to_proto (some (x ∷ md)) = some (x ∷ md)

abbrev pub metadata_from_proto : Option Metadata → Option Metadata
metadata_from_proto none = none
metadata_from_proto (some []) = none
metadata_from_proto (some (x ∷ md)) = some (x ∷ md)

-- one packet of the loop of writeMessage and SendMsg, and the bytes behind it
abbrev pub next_packet : ℕ → Bytes → PacketMessage × Bytes
next_packet n bytes =
    let amount = if ltb (length bytes) n then length bytes else n in
    let rest = drop amount bytes in
    (record { data_ = take amount bytes; eom = length rest == 0 }, rest)

-- The loop `for len(data) != 0`, on fuel; `wrap` is the message around a packet.
unfoldable pub send_loop :
    {M : Type 0} → ℕ → ℕ → (PacketMessage → M) → Bytes → Channel M → Option StreamError × Channel M
send_loop zero n wrap bytes ch = (none, ch)
send_loop (suc fuel) n wrap bytes ch =
    let (p, rest) = next_packet n bytes in
    let (e, ch') = write ch (wrap p) in
    let after = send_loop fuel n wrap rest ch' in
    if length bytes == 0 then (none, ch) else elim e [ some x ↦ (some x, ch') | none ↦ after ]
