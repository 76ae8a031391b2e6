-- ===== src/Rpc/ClientChannel/Fresh.antt =====
-- The ids of the client's streams.
use goutils.Common.{
  ℕ, suc, ◌≤◌, ◌<◌, ◌+◌, ◌%◌, ◌≡◌, refl, ap, ◌∙◌, String, Bool, true, false, Option, none, some,
  List, [], ◌∷◌, if◌then◌else◌, ◌==◌, length, arith, if_both, All,
}
use goutils.Rpc.StreamMap.{get, put, get-put, put-All, remove-All, get-below, get-above}
use goutils.Rpc.Channel.{Channel}
use goutils.Rpc.BaseStream.{Metadata}
use goutils.Rpc.ClientStream.{Request, Response, Outgoing, ClientStream, write_headers, on_response}
use goutils.Rpc.ClientChannel.{
  max_stream_count, ClientChannel, new_client_channel, client_stream, next_stream_id, found_or_new,
  new_stream, store, on_channel, Opened, max_streams, write_error, opened, with_headers,
  new_client_stream, Call, call, sends, closes, call_found, call_stream, with_message, invoke,
  respond, on_channel_message, ids, close_each, close_channel, Event, opens, invokes, calls, gets,
  closes_channel, step, run,
}

-- The ids are at most the given number.
abbrev IsBelow : ℕ → ClientChannel → Type 0
IsBelow n c = All (λ x. x.0 ≤ n) c.streams

-- A step that keeps the counter and brings no id.
abbrev Stays : ℕ → ℕ → ClientChannel → Type 0
Stays n k c = IsBelow n c × (c.stream_id_counter ≡ k)

store-Stays :
    (n k : ℕ) (c : ClientChannel) (id : ℕ) (s t : ClientStream)
    → Stays n k c
    → get c.streams id ≡ some t
    → Stays n k (store c id s)
store-Stays n k c id s t (h, e) p = (
  if_both (All (λ (x : ℕ × ClientStream). x.0 ≤ n)) s.base.closed
      (remove-All (λ x. x.0 ≤ n) c.streams id h)
      (put-All (λ x. x.0 ≤ n) c.streams id s h (get-below n c.streams id t h p)),
  e,
)

abbrev Placed : ℕ → ℕ → ℕ → Option ClientStream × ClientChannel → Type 0
Placed n k id (none, c) = Stays n k c
Placed n k id (some s, c) = Stays n k c × (get c.streams id ≡ some s)

new_stream-Placed :
    (takes : Bool) (n k : ℕ) (c : ClientChannel) (id : ℕ)
    → Stays n k c
    → id ≤ n
    → Placed n k id (new_stream takes c id)
unfolding new_stream
new_stream-Placed takes n k c id (h, e) below = go (get c.streams id) refl
  where
    s : ClientStream
    s = client_stream takes c.base

    room :
        (b : Bool)
        → Placed n k id
            (if b then (none, c) else (some s, record c { streams = put c.streams id s }))
    room true = (h, e)
    room false = ((put-All (λ x. x.0 ≤ n) c.streams id s h below, e), get-put c.streams id s)

    go :
        (r : Option ClientStream) → get c.streams id ≡ r → Placed n k id (found_or_new takes c id r)
    go (some t) p = ((h, e), p)
    go none p = room (length c.streams == max_stream_count)

with_headers-Stays :
    (method : String) (md : Option Metadata) (n k id : ℕ) (r : Option ClientStream × ClientChannel)
    → Placed n k id r
    → Stays n k (with_headers method md id r).1
with_headers-Stays method md n k id (none, c) h = h
with_headers-Stays method md n k id (some s, c) (h, e) =
    store-Stays n k c id (write_headers method md (on_channel c s)).1 s h e

call_stream-Stays :
    (x : Call) (n k : ℕ) (c : ClientChannel) (id : ℕ)
    → Stays n k c
    → Stays n k (call_stream x c id).1
unfolding call_stream
call_stream-Stays x n k c id h = go (get c.streams id) refl
  where
    go : (r : Option ClientStream) → get c.streams id ≡ r → Stays n k (call_found x c id r).1
    go none e = h
    go (some s) e = store-Stays n k c id (call x (on_channel c s)).1 s h e

with_message-Stays :
    (n : ℕ) (m : Outgoing) (a k : ℕ) (r : Opened × ClientChannel)
    → Stays a k r.1
    → Stays a k (with_message n m r).1
with_message-Stays n m a k (max_streams, c) h = h
with_message-Stays n m a k (write_error e, c) h = h
with_message-Stays n m a k (opened id, c) h = call_stream-Stays (sends n m true) a k c id h

on_channel_message-Stays :
    (x : Option (ℕ × Response)) (n k : ℕ) (c : ClientChannel)
    → Stays n k c
    → Stays n k (on_channel_message x c)
unfolding on_channel_message
on_channel_message-Stays none n k c h = h
on_channel_message-Stays (some (id, r)) n k c h = go (get c.streams id) refl
  where
    go : (o : Option ClientStream) → get c.streams id ≡ o → Stays n k (respond r c id o)
    go none e = h
    go (some s) e = store-Stays n k c id (on_response r (on_channel c s)) s h e

close_each-Stays :
    (l : List ℕ) (n k : ℕ) (c : ClientChannel) → Stays n k c → Stays n k (close_each l c)
close_each-Stays [] n k c h = h
close_each-Stays (id ∷ l) n k c h =
    close_each-Stays l n k (call_stream closes c id).1 (call_stream-Stays closes n k c id h)

above : (n : ℕ) (m : List (ℕ × ClientStream)) → All (λ x. x.0 ≤ n) m → All (λ x. x.0 ≤ suc n) m
above n [] h = tt
above n (x ∷ m) (p, h) = (omega (arith, p), above n m h)

abbrev next_id : ℕ → ℕ
next_id n = suc n % 18446744073709551616

next_small : (n : ℕ) → suc n < 18446744073709551616 → next_id n ≡ suc n
next_small n h = omega arith

new_client_stream-Stays :
    (takes : Bool) (method : String) (md : Option Metadata) (n : ℕ) (c : ClientChannel)
    → Stays n n c
    → suc n < 18446744073709551616
    → Stays (suc n) (suc n) (new_client_stream takes method md c).1
unfolding new_client_stream
new_client_stream-Stays takes method md n c (h, e) small =
    let d = next_stream_id c in
    let same : d.stream_id_counter ≡ suc n = ap next_id e ∙ next_small n small in
    with_headers-Stays method md (suc n) (suc n) d.stream_id_counter
      (new_stream takes d d.stream_id_counter)
      (new_stream-Placed takes (suc n) (suc n) d d.stream_id_counter (above n c.streams h, same)
        (omega (arith, same)))

abbrev Counts : ℕ → ClientChannel → Type 0
Counts n c = (k : ℕ) × Stays k k c × (k ≤ n)

step-Counts :
    (e : Event) (n : ℕ) (c : ClientChannel)
    → Stays n n c
    → suc n < 18446744073709551616
    → Counts (suc n) (step e c)
unfolding invoke close_channel
step-Counts (opens takes method md) n c h small =
    (suc n, new_client_stream-Stays takes method md n c h small, omega arith)
step-Counts (invokes takes method md a m) n c h small = (
  suc n,
  with_message-Stays a m (suc n) (suc n) (new_client_stream takes method md c)
      (new_client_stream-Stays takes method md n c h small),
  omega arith,
)
step-Counts (calls id x) n c h small = (n, call_stream-Stays x n n c id h, omega arith)
step-Counts (gets x) n c h small = (n, on_channel_message-Stays x n n c h, omega arith)
step-Counts closes_channel n c h small = (n, close_each-Stays (ids c.streams) n n c h, omega arith)

run-Counts :
    (es : List Event) (n : ℕ) (c : ClientChannel)
    → Stays n n c
    → n + length es < 18446744073709551616
    → Counts (n + length es) (run es c)
run-Counts [] n c h small = (n, h, omega arith)
run-Counts (e ∷ es) n c h small =
    let (k, s, p) = step-Counts e n c h (omega (arith, small)) in
    let (j, t, q) = run-Counts es k (step e c) s (omega (arith, small, p)) in
    (j, t, omega (arith, p, q))

-- Behind fewer than 2^64 - 1 events on a new client's channel, the id that the next stream gets is that
-- of no stream that is there.
pub run-next_unused :
    (ch : Channel Request) (es : List Event)
    → suc (length es) < 18446744073709551616
    → let c = run es (new_client_channel ch) in
      get c.streams (next_stream_id c).stream_id_counter ≡ none
run-next_unused ch es small =
    let c = run es (new_client_channel ch) in
    let (k, (h, e), p) =
      run-Counts es 0 (new_client_channel ch) (tt, refl) (omega (arith, small)) in
    let same : (next_stream_id c).stream_id_counter ≡ suc k =
      ap next_id e ∙ next_small k (omega (arith, small, p)) in
    get-above k c.streams (next_stream_id c).stream_id_counter h (omega (arith, same))
