-- ===== src/Rpc/BaseStream/Closing.antt =====
-- What closing and receiving keep of the base stream.
use goutils.Common.{
  ◌≤◌, ◌≡◌, refl, ◌∙◌, Bool, true, Option, if◌then◌else◌, length, length-append, arith,
}
use goutils.Rpc.Channel.{StreamError}
use goutils.Rpc.BaseStream.{
  Bytes, PacketMessage, BaseStream, max_message_size, close_recv, close_with_error, process_packet,
  deliver,
}

-- onDone has been called once where the stream is closed and never otherwise; a closed stream has
-- its receiving side closed and its context done; the buffer holds at most max_message_size bytes.
pub record IsSound (b : BaseStream) : Type 0 where
  pub done_once : b.done_calls ≡ (if b.closed then 1 else 0)
  pub closed_recv : b.closed ≡ true → b.recv_closed ≡ true
  pub closed_context : b.closed ≡ true → b.cancelled ≡ true
  pub bounded : length b.packet_buf ≤ max_message_size

-- Nothing that a user or onDone sees of the stream changes.
pub record Same (b b' : BaseStream) : Type 0 where
  pub delivered : b'.delivered ≡ b.delivered
  pub error : b'.error ≡ b.error
  pub done_calls : b'.done_calls ≡ b.done_calls
  pub closed : b'.closed ≡ b.closed

-- A step of the base stream that keeps it sound, and changes nothing of it once it is closed.
pub record Keeps (b b' : BaseStream) : Type 0 where
  pub sound : IsSound b → IsSound b'
  pub quiet : IsSound b → b.closed ≡ true → Same b b'

pub unchanged : (b : BaseStream) → Keeps b b
unchanged b = record {
  sound = λ v. v;
  quiet = λ v h. record { delivered = refl; error = refl; done_calls = refl; closed = refl };
}

pub followed_by : {a b c : BaseStream} → Keeps a b → Keeps b c → Keeps a c
followed_by k l = record {
  sound = λ v. l.sound (k.sound v);
  quiet = λ v h.
      let s = k.quiet v h in
      let t = l.quiet (k.sound v) (s.closed ∙ h) in
      record {
        delivered = t.delivered ∙ s.delivered;
        error = t.error ∙ s.error;
        done_calls = t.done_calls ∙ s.done_calls;
        closed = t.closed ∙ s.closed;
      };
}

pub close_recv-Keeps : (b : BaseStream) → Keeps b (close_recv b)
unfolding close_recv
close_recv-Keeps b = record {
  sound = λ v. record {
    done_once = ground (arith, v.done_once);
    closed_recv = ground (arith, v.closed_recv);
    closed_context = ground (arith, v.closed_context);
    bounded = ground (arith, v.bounded);
  };
  quiet = λ v h. record {
    delivered = ground arith;
    error = ground arith;
    done_calls = ground arith;
    closed = ground arith;
  };
}

pub close_with_error-Keeps :
    (e : Option StreamError) (x : Bool) (b : BaseStream) → Keeps b (close_with_error e x b)
unfolding close_with_error close_recv
close_with_error-Keeps e x b = record {
  sound = λ v. record {
    done_once = ground (arith, v.done_once);
    closed_recv = ground (arith, v.closed_recv);
    closed_context = ground (arith, v.closed_context);
    bounded = ground (arith, v.bounded);
  };
  quiet = λ v h. record {
    delivered = ground arith;
    error = ground arith;
    done_calls = ground arith;
    closed = ground arith;
  };
}

pub deliver-Keeps : (m : Bytes) (b : BaseStream) → Keeps b (deliver m b)
unfolding deliver
deliver-Keeps m b = record {
  sound = λ v. record {
    done_once = ground (arith, v.done_once);
    closed_recv = ground (arith, v.closed_recv);
    closed_context = ground (arith, v.closed_context);
    bounded = ground (arith, v.bounded);
  };
  quiet = λ v h. record {
    delivered = ground (arith, v.closed_recv);
    error = ground arith;
    done_calls = ground arith;
    closed = ground arith;
  };
}

pub process_packet_bound :
    (buf : Bytes) (p : PacketMessage)
    → length buf ≤ max_message_size
    → length (process_packet buf p).1 ≤ max_message_size
unfolding process_packet
process_packet_bound buf p h = ground (arith, length-append buf p.data_)

pub buffer-Keeps :
    (p : PacketMessage) (b : BaseStream)
    → Keeps b (record b { packet_buf = (process_packet b.packet_buf p).1 })
buffer-Keeps p b = record {
  sound = λ v. record {
    done_once = v.done_once;
    closed_recv = v.closed_recv;
    closed_context = v.closed_context;
    bounded = process_packet_bound b.packet_buf p v.bounded;
  };
  quiet = λ v h. record { delivered = refl; error = refl; done_calls = refl; closed = refl };
}

pub cancel-Keeps : (b : BaseStream) → Keeps b (record b { cancelled = true })
cancel-Keeps b = record {
  sound = λ v. record {
    done_once = v.done_once;
    closed_recv = v.closed_recv;
    closed_context = λ h. refl;
    bounded = v.bounded;
  };
  quiet = λ v h. record { delivered = refl; error = refl; done_calls = refl; closed = refl };
}
