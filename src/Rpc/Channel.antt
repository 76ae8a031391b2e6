-- ===== src/Rpc/Channel.antt =====
-- rpc/wrtc_base_channel.go: writing to the data channel and closing it. What the data channel
-- answers is in the state: it accepts `room` more messages, and then fails. A writer that waits for
-- the buffered amount to fall is one that has not yet come to its step.
use goutils.Common.{
  ℕ, suc, ◌-◌, ◌≡◌, String, Bool, true, false, Option, none, some, List, [], ◌∷◌, ◌++◌,
  if◌then◌else◌, ◌==◌, arith,
}

pub data StreamError : Type 0 where
  -- io.ErrClosedPipe, errExpectedClosure, errDataChannelClosed, sctp.ErrStreamClosed
  closed_pipe expected_closure data_channel_closed stream_closed : StreamError
  -- context.Canceled
  context_canceled : StreamError
  text : String → StreamError
  -- status.Error, with the name of its code
  status : String → String → StreamError
  wrap : String → StreamError → StreamError

pub record Channel (M : Type 0) : Type 0 where
  pub sent : List M
  pub room : ℕ
  pub send_error : StreamError
  -- whether the context of the channel is done
  pub cancelled : Bool
  pub closed : Bool
  pub closed_reason : Option StreamError
  -- how often bufferWriteMu is held for reading
  pub readers : ℕ

module _ {M : Type 0} where
  -- write, of a message that can be marshalled. The locker of bufferWriteCond holds bufferWriteMu
  -- for reading.
  unfoldable pub write : Channel M → M → Option StreamError × Channel M
  write ch m =
      if ch.cancelled
      then (some closed_pipe, record ch { readers = suc ch.readers })
      else if ch.room == 0
      then (some ch.send_error, ch)
      else (none, record ch { sent = ch.sent ++ m ∷ []; room = ch.room - 1 })

  unfoldable pub close_with_reason : Option StreamError → Channel M → Channel M
  close_with_reason e ch =
      if ch.closed then ch else record ch { closed = true; closed_reason = e; cancelled = true }

  -- Whether the callback for a low buffered amount can take bufferWriteMu for writing.
  unfoldable pub can_broadcast : Channel M → Bool
  can_broadcast ch = ch.readers == 0

  abbrev pub write_all : Channel M → List M → Channel M
  write_all ch [] = ch
  write_all ch (m ∷ ms) = write_all (write ch m).1 ms

  write_all-readers :
      (ch : Channel M) (ms : List M)
      → ch.cancelled ≡ true
      → (ch.readers == 0) ≡ false
      → can_broadcast (write_all ch ms) ≡ false
  unfolding can_broadcast write
  write_all-readers ch [] h k = k
  write_all-readers ch (m ∷ ms) h k =
      write_all-readers (write ch m).1 ms (ground arith) (ground arith)

  -- After closeWithReason on an open channel, one write or more leave bufferWriteMu held for
  -- reading for good: the callback that announces a low buffered amount cannot take it.
  pub close-write_all-can_broadcast :
      (ch : Channel M) (e : Option StreamError) (m : M) (ms : List M)
      → ch.closed ≡ false
      → can_broadcast (write_all (close_with_reason e ch) (m ∷ ms)) ≡ false
  unfolding write close_with_reason
  close-write_all-can_broadcast ch e m ms h =
      write_all-readers (write (close_with_reason e ch) m).1 ms (ground arith) (ground arith)
