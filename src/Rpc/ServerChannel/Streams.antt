-- ===== src/Rpc/ServerChannel/Streams.antt =====
-- The bound on a channel's streams, and that they do not disturb each other.
use goutils.Common.{
  ℕ, ◌≤◌, ◌≡◌, refl, ◌∙◌, Bool, true, false, Option, none, some, List, [], ◌∷◌, if◌then◌else◌, ◌==◌,
  length, arith, if_both, inl, inr, Bool-cases,
}
use goutils.Rpc.StreamMap.{
  get, put, length-put, length-put_found, get-put, length-remove, get-put_other, get-remove_other,
}
use goutils.Rpc.Channel.{Channel}
use goutils.Rpc.ClientStream.{Request, Response}
use goutils.Rpc.ServerStream.{Server, ServerStream, on_request}
use goutils.Rpc.ServerChannel.{
  StreamMap, max_stream_count, new_stream, is_headers, after, dispatch, on_channel_message, run,
}

after-length :
    (m : StreamMap) (id : ℕ) (r : Server × ServerStream)
    → length (put m id r.1) ≤ max_stream_count
    → length m ≤ max_stream_count
    → length (after m id r).1 ≤ max_stream_count
after-length m id r h k =
    if_both (λ (x : StreamMap). length x ≤ max_stream_count) r.1.base.closed
      (omega (arith, length-remove m id)) h

after-get_other :
    (m : StreamMap) (id j : ℕ) (r : Server × ServerStream)
    → (id == j) ≡ false
    → get (after m id r).1 j ≡ get m j
after-get_other m id j r h =
    if_both (λ (x : StreamMap). get x j ≡ get m j) r.1.base.closed (get-remove_other m id j h)
      (get-put_other m id j r.1 h)

dispatch-length :
    (takes : Bool) (ch : Channel Response) (id : ℕ) (r : Request) (srv : Server) (m : StreamMap)
    (o : Option ServerStream)
    → get m id ≡ o
    → length m ≤ max_stream_count
    → length (dispatch takes ch id r (srv, m) o).1 ≤ max_stream_count
dispatch-length takes ch id r srv m (some s) e h =
    after-length m id (on_request r (srv, s))
      (omega (arith, length-put_found m id (on_request r (srv, s)).1 s e, h)) h
dispatch-length takes ch id r srv m none e h = elim (Bool-cases (length m == max_stream_count)) [
  | inl k ↦ rw k h
  | inr k ↦ rw k (
      let new = new_stream takes ch in
      let x = on_request r (srv, new) in
      let room : length (put m id new) ≤ max_stream_count = ground (arith, length-put m id new) in
      if_both (λ (y : Server × StreamMap). length y.1 ≤ max_stream_count) (is_headers r)
        (after-length (put m id new) id x
          (omega (arith, length-put_found (put m id new) id x.1 new (get-put m id new), room)) room)
        h)
]

on_channel_message-length :
    (takes : Bool) (ch : Channel Response) (x : Option (ℕ × Request)) (srv : Server) (m : StreamMap)
    → length m ≤ max_stream_count
    → length (on_channel_message takes ch x (srv, m)).1 ≤ max_stream_count
unfolding on_channel_message
on_channel_message-length takes ch none srv m h = h
on_channel_message-length takes ch (some (id, r)) srv m h =
    dispatch-length takes ch id r srv m (get m id) refl h

-- Whatever messages come, the channel never has more than max_stream_count streams.
pub run_bounded :
    (takes : Bool) (ch : Channel Response) (xs : List (Option (ℕ × Request))) (srv : Server)
    (m : StreamMap)
    → length m ≤ max_stream_count
    → length (run takes ch xs (srv, m)).1 ≤ max_stream_count
unfolding run
run_bounded takes ch [] srv m h = h
run_bounded takes ch (x ∷ xs) srv m h =
    let r = on_channel_message takes ch x (srv, m) in
    run_bounded takes ch xs r.0 r.1 (on_channel_message-length takes ch x srv m h)

dispatch-get_other :
    (takes : Bool) (ch : Channel Response) (id j : ℕ) (r : Request) (srv : Server) (m : StreamMap)
    (o : Option ServerStream)
    → (id == j) ≡ false
    → get (dispatch takes ch id r (srv, m) o).1 j ≡ get m j
dispatch-get_other takes ch id j r srv m (some s) h =
    after-get_other m id j (on_request r (srv, s)) h
dispatch-get_other takes ch id j r srv m none h =
    let P : Server × StreamMap → Type 0 = λ x. get x.1 j ≡ get m j in
    let new = new_stream takes ch in
    if_both P (length m == max_stream_count) refl (
      if_both P (is_headers r)
        (after-get_other (put m id new) id j (on_request r (srv, new)) h
          ∙ get-put_other m id j new h)
        refl)

-- whether no message is for the stream
abbrev pub spares : ℕ → List (Option (ℕ × Request)) → Bool
spares j [] = true
spares j (none ∷ xs) = spares j xs
spares j (some (id, r) ∷ xs) = let rest = spares j xs in if id == j then false else rest

-- Messages for other streams, and those that cannot be decoded, leave a stream as it is: they
-- neither change it nor make nor remove it.
pub run-get_other :
    (takes : Bool) (ch : Channel Response) (j : ℕ) (xs : List (Option (ℕ × Request))) (srv : Server)
    (m : StreamMap)
    → spares j xs ≡ true
    → get (run takes ch xs (srv, m)).1 j ≡ get m j
unfolding run on_channel_message
run-get_other takes ch j [] srv m h = refl
run-get_other takes ch j (none ∷ xs) srv m h = run-get_other takes ch j xs srv m h
run-get_other takes ch j (some (id, r) ∷ xs) srv m h =
    let x = dispatch takes ch id r (srv, m) (get m id) in
    run-get_other takes ch j xs x.0 x.1 (ground arith)
    ∙ dispatch-get_other takes ch id j r srv m (get m id) (ground arith)
