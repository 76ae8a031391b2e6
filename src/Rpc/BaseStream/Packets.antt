-- ===== src/Rpc/BaseStream/Packets.antt =====
-- The packets of a message and their reassembly.
use goutils.Common.{
  ℕ, suc, zero, ◌+◌, ◌-◌, ◌≤◌, ◌<◌, ◌≡◌, refl, ap, sym, subst, ◌∙◌, true, false, Option, none, some,
  List, [], ◌∷◌, ◌++◌, map, if◌then◌else◌, ◌==◌, ltb, length, take, drop, length-append,
  length-take, length-drop, take-append-drop, arith, Bool-cases, inl, inr,
}
use mathlib.Core.List.{append_assoc, append-nil as append_nil}
use goutils.Rpc.Channel.{StreamError, Channel, write}
use goutils.Rpc.BaseStream.{
  Bytes, PacketMessage, max_message_size, process_packet, next_packet, send_loop,
}

-- the packets of the loop
abbrev pub packets : ℕ → ℕ → Bytes → List PacketMessage
packets zero n bytes = []
packets (suc fuel) n bytes =
    let (p, rest) = next_packet n bytes in
    let after = packets fuel n rest in if length bytes == 0 then [] else p ∷ after

-- The packets end one message: behind what the buffer holds, all but the last leave it open, and
-- the last gives it and empties the buffer.
pub data Completes : Bytes → List PacketMessage → Bytes → Type 0 where
  last :
      (buf : Bytes) (p : PacketMessage) (m : Bytes)
      → process_packet buf p ≡ (some m, [])
      → Completes buf (p ∷ []) m
  more :
      (buf b : Bytes) (p : PacketMessage) (ps : List PacketMessage) (m : Bytes)
      → process_packet buf p ≡ (none, b)
      → Completes b ps m
      → Completes buf (p ∷ ps) m

process_packet-last :
    (buf : Bytes) (p : PacketMessage)
    → (length p.data_ == 0) ≡ false
    → p.eom ≡ true
    → length p.data_ + length buf ≤ max_message_size
    → process_packet buf p ≡ (some (buf ++ p.data_), [])
unfolding process_packet
process_packet-last buf p h k l = ground arith

process_packet-more :
    (buf : Bytes) (p : PacketMessage)
    → p.eom ≡ false
    → length p.data_ + length buf ≤ max_message_size
    → process_packet buf p ≡ (none, buf ++ p.data_)
unfolding process_packet
process_packet-more buf p k l = ground arith

pub append_empty : {A : Type 0} (xs ys : List A) → (length ys == 0) ≡ true → xs ++ ys ≡ xs
append_empty [] [] h = refl
append_empty (x ∷ xs) [] h = rw (append_empty xs [] h)
append_empty xs (y ∷ ys) h = absurd (ground arith)

abbrev amount : ℕ → Bytes → ℕ
amount n bytes = if ltb (length bytes) n then length bytes else n

amount_bounds :
    (n : ℕ) (bytes : Bytes)
    → 0 < n
    → (length bytes == 0) ≡ false
    → (0 < amount n bytes) × (amount n bytes ≤ length bytes)
amount_bounds n bytes h k = ground arith

packets_empty :
    (fuel n : ℕ) (bytes : Bytes) → (length bytes == 0) ≡ true → packets fuel n bytes ≡ []
packets_empty zero n bytes h = refl
packets_empty (suc fuel) n bytes h = rw h

packets_more :
    (fuel n : ℕ) (bytes : Bytes)
    → (length bytes == 0) ≡ false
    → packets (suc fuel) n bytes ≡ (next_packet n bytes).0 ∷ packets fuel n (next_packet n bytes).1
packets_more fuel n bytes h = rw h

pub packets-Completes :
    (fuel n : ℕ) (buf bytes : Bytes)
    → 0 < n
    → length bytes ≤ fuel
    → (length bytes == 0) ≡ false
    → length bytes + length buf ≤ max_message_size
    → Completes buf (packets fuel n bytes) (buf ++ bytes)
packets-Completes zero n buf bytes h k l m = absurd (ground arith)
packets-Completes (suc fuel) n buf bytes h k l m =
    let a = amount n bytes in
    let p = (next_packet n bytes).0 in
    let bounds = amount_bounds n bytes h l in
    let lt = length-take a bytes in
    let ld = length-drop a bytes in
    subst (λ ps. Completes buf ps (buf ++ bytes)) (sym (packets_more fuel n bytes l))
      (elim (Bool-cases (length (drop a bytes) == 0)) [
        | inl e ↦
            subst (λ ps. Completes buf (p ∷ ps) (buf ++ bytes))
              (sym (packets_empty fuel n (drop a bytes) e))
              (last buf p (buf ++ bytes) (
                process_packet-last buf p (ground arith) e (ground arith)
                ∙ ap (λ xs. (some (buf ++ xs), []))
                    (sym (append_empty (take a bytes) (drop a bytes) e)
                      ∙ take-append-drop a bytes)))
        | inr e ↦
            more buf (buf ++ take a bytes) p (packets fuel n (drop a bytes)) (buf ++ bytes)
              (process_packet-more buf p e (ground arith))
              (subst (Completes (buf ++ take a bytes) (packets fuel n (drop a bytes)))
                (append_assoc buf (take a bytes) (drop a bytes)
                  ∙ ap (λ xs. buf ++ xs) (take-append-drop a bytes))
                (packets-Completes fuel n (buf ++ take a bytes) (drop a bytes) h (ground arith) e
                  (ground (arith, length-append buf (take a bytes)))))
      ])

write-room :
    {M : Type 0} (ch : Channel M) (m : M)
    → ch.cancelled ≡ false
    → 0 < ch.room
    → write ch m ≡ (none, record ch { sent = ch.sent ++ m ∷ []; room = ch.room - 1 })
unfolding write
write-room ch m h r = ground arith

send_loop_more :
    {M : Type 0} (fuel n : ℕ) (wrap : PacketMessage → M) (bytes : Bytes) (ch ch' : Channel M)
    → (length bytes == 0) ≡ false
    → write ch (wrap (next_packet n bytes).0) ≡ (none, ch')
    → send_loop (suc fuel) n wrap bytes ch ≡ send_loop fuel n wrap (next_packet n bytes).1 ch'
unfolding send_loop
send_loop_more fuel n wrap bytes ch ch' h e =
    rw (h, send_loop)
      (ap
        (λ r. elim r.0 [
          | some x ↦ (some x, r.1)
          | none ↦ send_loop fuel n wrap (next_packet n bytes).1 r.1
        ])
        e)

-- What a loop that was not refused leaves.
pub record Sent {M : Type 0} (ch : Channel M) (ms : List M) (r : Option StreamError × Channel M)
    : Type 0 where
  pub no_error : r.0 ≡ none
  pub all_sent : r.1.sent ≡ ch.sent ++ ms
  pub still_open : r.1.cancelled ≡ false
  pub left : r.1.room ≡ ch.room - length ms

nothing_written : {M : Type 0} (ch : Channel M) → ch.cancelled ≡ false → Sent ch [] (none, ch)
nothing_written ch h = record {
  no_error = refl;
  all_sent = sym (append_nil ch.sent);
  still_open = h;
  left = ground arith;
}

pub write-Sent :
    {M : Type 0} (ch : Channel M) (m : M)
    → ch.cancelled ≡ false
    → 0 < ch.room
    → Sent ch (m ∷ []) (write ch m)
write-Sent ch m h r =
    subst (Sent ch (m ∷ [])) (sym (write-room ch m h r))
      (record { no_error = refl; all_sent = refl; still_open = h; left = refl })

-- Where the channel has room for all packets, the loop writes them in order and answers nil.
pub send_loop-Sent :
    {M : Type 0} (fuel n : ℕ) (wrap : PacketMessage → M) (bytes : Bytes) (ch : Channel M)
    → ch.cancelled ≡ false
    → length (packets fuel n bytes) ≤ ch.room
    → Sent ch (map wrap (packets fuel n bytes)) (send_loop fuel n wrap bytes ch)
unfolding send_loop
send_loop-Sent zero n wrap bytes ch h r = nothing_written ch h
send_loop-Sent (suc fuel) n wrap bytes ch h r = elim (Bool-cases (length bytes == 0)) [
  | inl e ↦ rw (e, send_loop) (nothing_written ch h)
  | inr e ↦
      let p = (next_packet n bytes).0 in
      let ps = packets fuel n (next_packet n bytes).1 in
      let ch' = record ch { sent = ch.sent ++ wrap p ∷ []; room = ch.room - 1 } in
      let r' = subst (λ ps. length ps ≤ ch.room) (packets_more fuel n bytes e) r in
      let s = send_loop-Sent fuel n wrap (next_packet n bytes).1 ch' h (omega (arith, r')) in
      subst (Sent ch (map wrap (packets (suc fuel) n bytes)))
        (sym (
          send_loop_more fuel n wrap bytes ch ch' e (write-room ch (wrap p) h (omega (arith, r')))))
        (subst (λ ps. Sent ch (map wrap ps) (send_loop fuel n wrap (next_packet n bytes).1 ch'))
          (sym (packets_more fuel n bytes e))
          (record {
            no_error = s.no_error;
            all_sent = s.all_sent ∙ append_assoc ch.sent (wrap p ∷ []) (map wrap ps);
            still_open = s.still_open;
            left = s.left ∙ omega arith;
          }))
]

process_packet_alone :
    (q : PacketMessage)
    → q.eom ≡ true
    → length q.data_ ≤ max_message_size
    → process_packet [] q ≡ (some q.data_, [])
unfolding process_packet
process_packet_alone q h k = go q.data_ refl
  where
    go : (d : Bytes) → q.data_ ≡ d → process_packet [] q ≡ (some q.data_, [])
    go [] e = ground arith
    go (x ∷ xs) e = ground arith

-- A message that goes over the limit is not discarded as a whole: the packet that goes over it is
-- dropped with those before it, and the last packet behind it is given as a message of its own.
pub process_packet_over_limit :
    (buf : Bytes) (p q : PacketMessage)
    → p.eom ≡ false
    → max_message_size < length p.data_ + length buf
    → q.eom ≡ true
    → length q.data_ ≤ max_message_size
    → (process_packet buf p ≡ (none, []))
      × (process_packet (process_packet buf p).1 q ≡ (some q.data_, []))
unfolding process_packet
process_packet_over_limit buf p q h k l m =
    let dropped : process_packet buf p ≡ (none, []) = ground arith in
    (dropped, ap (λ r. process_packet r.1 q) dropped ∙ process_packet_alone q l m)
