-- ===== src/Rpc/ClientChannel/Streams.antt =====
-- The streams of the client's channel: how many, and that they are open.
use goutils.Common.{
  ℕ, ◌≤◌, ◌≡◌, refl, sym, ap, String, Bool, true, false, Option, none, some, List, [], ◌∷◌,
  if◌then◌else◌, ◌==◌, length, arith, All,
}
use goutils.Rpc.StreamMap.{
  get, put, remove, length-put, length-put_found, get-put, length-remove, put-All, remove-All,
}
use goutils.Rpc.Channel.{Channel}
use goutils.Rpc.BaseStream.{Metadata}
use goutils.Rpc.BaseStream.Closing as Base
use goutils.Rpc.ClientStream.{Request, Response, Outgoing, ClientStream, write_headers, on_response}
use goutils.Rpc.ClientChannel.{
  max_stream_count, ClientChannel, new_client_channel, client_stream, next_stream_id, found_or_new,
  new_stream, store, on_channel, Opened, max_streams, write_error, opened, with_headers,
  new_client_stream, Call, call, sends, closes, call_found, call_stream, with_message, invoke,
  respond, on_channel_message, ids, close_each, close_channel, Event, opens, invokes, calls, gets,
  closes_channel, step, run,
}

abbrev pub IsOpen : ℕ × ClientStream → Type 0
IsOpen x = x.1.base.closed ≡ false

-- At most max_stream_count streams, and all of them open.
abbrev pub IsSound : ClientChannel → Type 0
IsSound c = (length c.streams ≤ max_stream_count) × All IsOpen c.streams

-- For a stream that is sound, the map is the one that the calls of onDone leave.
store-done_calls :
    (c : ClientChannel) (id : ℕ) (s : ClientStream)
    → Base.IsSound s.base
    → (store c id s).streams
      ≡ (if s.base.done_calls == 0 then put c.streams id s else remove c.streams id)
store-done_calls c id s v = go s.base.closed s.base.done_calls v.done_once
  where
    go :
        (b : Bool) (n : ℕ)
        → n ≡ (if b then 1 else 0)
        → (if b then remove c.streams id else put c.streams id s)
          ≡ (if n == 0 then put c.streams id s else remove c.streams id)
    go true n e = ap (λ k. if k == 0 then put c.streams id s else remove c.streams id) (sym e)
    go false n e = ap (λ k. if k == 0 then put c.streams id s else remove c.streams id) (sym e)

store-IsSound :
    (c : ClientChannel) (id : ℕ) (s t : ClientStream)
    → IsSound c
    → get c.streams id ≡ some t
    → IsSound (store c id s)
store-IsSound c id s t (n, o) h = go s.base.closed refl
  where
    go :
        (b : Bool)
        → s.base.closed ≡ b
        → (length (if b then remove c.streams id else put c.streams id s) ≤ max_stream_count)
          × All IsOpen (if b then remove c.streams id else put c.streams id s)
    go true e = (omega (arith, length-remove c.streams id, n), remove-All IsOpen c.streams id o)
    go false e =
        (omega (arith, length-put_found c.streams id s t h, n), put-All IsOpen c.streams id s o e)

-- what newStream leaves: the stream, where it answers one, is in the map
abbrev Placed : ℕ → Option ClientStream × ClientChannel → Type 0
Placed id (none, c) = IsSound c
Placed id (some s, c) = IsSound c × (get c.streams id ≡ some s)

new_stream-Placed :
    (takes : Bool) (c : ClientChannel) (id : ℕ) → IsSound c → Placed id (new_stream takes c id)
unfolding new_stream
new_stream-Placed takes c id (n, o) = go (get c.streams id) refl
  where
    s : ClientStream
    s = client_stream takes c.base

    room :
        (b : Bool)
        → (length c.streams == max_stream_count) ≡ b
        → Placed id (if b then (none, c) else (some s, record c { streams = put c.streams id s }))
    room true e = (n, o)
    room false e = (
      ((ground (arith, length-put c.streams id s)), put-All IsOpen c.streams id s o refl),
      get-put c.streams id s,
    )

    go : (r : Option ClientStream) → get c.streams id ≡ r → Placed id (found_or_new takes c id r)
    go (some t) e = ((n, o), e)
    go none e = room (length c.streams == max_stream_count) refl

with_headers-IsSound :
    (method : String) (md : Option Metadata) (id : ℕ) (r : Option ClientStream × ClientChannel)
    → Placed id r
    → IsSound (with_headers method md id r).1
with_headers-IsSound method md id (none, c) h = h
with_headers-IsSound method md id (some s, c) (h, e) =
    store-IsSound c id (write_headers method md (on_channel c s)).1 s h e

new_client_stream-IsSound :
    (takes : Bool) (method : String) (md : Option Metadata) (c : ClientChannel)
    → IsSound c
    → IsSound (new_client_stream takes method md c).1
unfolding new_client_stream
new_client_stream-IsSound takes method md c h =
    let d = next_stream_id c in
    with_headers-IsSound method md d.stream_id_counter (new_stream takes d d.stream_id_counter)
      (new_stream-Placed takes d d.stream_id_counter h)

call_stream-IsSound :
    (x : Call) (c : ClientChannel) (id : ℕ) → IsSound c → IsSound (call_stream x c id).1
unfolding call_stream
call_stream-IsSound x c id h = go (get c.streams id) refl
  where
    go : (r : Option ClientStream) → get c.streams id ≡ r → IsSound (call_found x c id r).1
    go none e = h
    go (some s) e = store-IsSound c id (call x (on_channel c s)).1 s h e

with_message-IsSound :
    (n : ℕ) (m : Outgoing) (r : Opened × ClientChannel)
    → IsSound r.1
    → IsSound (with_message n m r).1
with_message-IsSound n m (max_streams, c) h = h
with_message-IsSound n m (write_error e, c) h = h
with_message-IsSound n m (opened id, c) h = call_stream-IsSound (sends n m true) c id h

on_channel_message-IsSound :
    (x : Option (ℕ × Response)) (c : ClientChannel) → IsSound c → IsSound (on_channel_message x c)
unfolding on_channel_message
on_channel_message-IsSound none c h = h
on_channel_message-IsSound (some (id, r)) c h = go (get c.streams id) refl
  where
    go : (o : Option ClientStream) → get c.streams id ≡ o → IsSound (respond r c id o)
    go none e = h
    go (some s) e = store-IsSound c id (on_response r (on_channel c s)) s h e

close_each-IsSound : (l : List ℕ) (c : ClientChannel) → IsSound c → IsSound (close_each l c)
close_each-IsSound [] c h = h
close_each-IsSound (id ∷ l) c h =
    close_each-IsSound l (call_stream closes c id).1 (call_stream-IsSound closes c id h)

step-IsSound : (e : Event) (c : ClientChannel) → IsSound c → IsSound (step e c)
unfolding invoke close_channel
step-IsSound (opens takes method md) c h = new_client_stream-IsSound takes method md c h
step-IsSound (invokes takes method md n m) c h =
    with_message-IsSound n m (new_client_stream takes method md c)
      (new_client_stream-IsSound takes method md c h)
step-IsSound (calls id x) c h = call_stream-IsSound x c id h
step-IsSound (gets x) c h = on_channel_message-IsSound x c h
step-IsSound closes_channel c h = close_each-IsSound (ids c.streams) c h

run-IsSound_from : (es : List Event) (c : ClientChannel) → IsSound c → IsSound (run es c)
run-IsSound_from [] c h = h
run-IsSound_from (e ∷ es) c h = run-IsSound_from es (step e c) (step-IsSound e c h)

-- Whatever is called on a new client's channel and its streams, and whatever messages come, it holds at
-- most max_stream_count streams, and only open ones: each stream that closes is taken out.
pub run-new_client_channel-IsSound :
    (ch : Channel Request) (es : List Event) → IsSound (run es (new_client_channel ch))
run-new_client_channel-IsSound ch es = run-IsSound_from es (new_client_channel ch) (omega arith, tt)
