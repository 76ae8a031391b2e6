-- ===== src/Rpc/ClientChannel/Closing.antt =====
-- What Close of the client's channel leaves.
use goutils.Common.{
  ℕ, ◌≡◌, refl, sym, ap, subst, Bool, true, false, ◌||◌, Option, none, some, List, [], ◌∷◌,
  if◌then◌else◌, ◌==◌, arith, All,
}
use goutils.Rpc.StreamMap.{get, put, remove, remove_absent}
use goutils.Rpc.Channel.{Channel, close_with_reason}
use goutils.Rpc.BaseStream.{BaseStream, close_with_error}
use goutils.Rpc.ClientStream.{Request, ClientStream, close}
use goutils.Rpc.ClientChannel.{
  ClientChannel, on_channel, call, closes, call_found, call_stream, ids, close_each, close_channel,
}

close-closed : (s : ClientStream) → (close s).base.closed ≡ true
unfolding close close_with_error
close-closed s = go s.base.closed refl
  where
    b : BaseStream
    b = record (s.base) { cancelled = true }

    go : (x : Bool) → s.base.closed ≡ x → (close_with_error none false b).closed ≡ true
    go x e = ground (arith, e)

call_stream-closes :
    (c : ClientChannel) (id : ℕ) → (call_stream closes c id).1.streams ≡ remove c.streams id
unfolding call_stream call
call_stream-closes c id = go (get c.streams id) refl
  where
    go :
        (r : Option ClientStream)
        → get c.streams id ≡ r
        → (call_found closes c id r).1.streams ≡ remove c.streams id
    go none e = sym (remove_absent c.streams id e)
    go (some s) e =
        ap (λ b. if b then remove c.streams id else put c.streams id (close (on_channel c s)))
          (close-closed (on_channel c s))

is_listed : List ℕ → ℕ → Bool
is_listed [] j = false
is_listed (i ∷ l) j = (i == j) || is_listed l j

abbrev AreListed : List ℕ → List (ℕ × ClientStream) → Type 0
AreListed l m = All (λ x. is_listed l x.0 ≡ true) m

remove-AreListed :
    (i : ℕ) (l : List ℕ) (m : List (ℕ × ClientStream))
    → AreListed (i ∷ l) m
    → AreListed l (remove m i)
unfolding is_listed remove
remove-AreListed i l [] h = tt
remove-AreListed i l ((j, s) ∷ m) (p, h) = go (j == i) refl (remove-AreListed i l m h)
  where
    go :
        (b : Bool)
        → (j == i) ≡ b
        → AreListed l (remove m i)
        → AreListed l (if b then remove m i else (j, s) ∷ remove m i)
    go true e rest = rest
    go false e rest = (ground (arith, p, e), rest)

close_each_empty :
    (l : List ℕ) (c : ClientChannel) → AreListed l c.streams → (close_each l c).streams ≡ []
unfolding is_listed
close_each_empty [] c h = go c.streams h
  where
    go : (m : List (ℕ × ClientStream)) → AreListed [] m → m ≡ []
    go [] h = refl
    go (x ∷ m) (p, h) = absurd (cc)
close_each_empty (i ∷ l) c h =
    close_each_empty l (call_stream closes c i).1
      (subst (AreListed l) (sym (call_stream-closes c i)) (remove-AreListed i l c.streams h))

more-AreListed :
    (i : ℕ) (l : List ℕ) (m : List (ℕ × ClientStream)) → AreListed l m → AreListed (i ∷ l) m
unfolding is_listed
more-AreListed i l [] h = tt
more-AreListed i l (x ∷ m) (p, h) = (ground (arith, p), more-AreListed i l m h)

ids-AreListed : (m : List (ℕ × ClientStream)) → AreListed (ids m) m
unfolding is_listed
ids-AreListed [] = tt
ids-AreListed ((i, s) ∷ m) = (ground arith, more-AreListed i (ids m) m (ids-AreListed m))

-- After Close of the client's channel it has no stream left, and its data channel is closed.
pub close_channel_lem :
    (c : ClientChannel) → ((close_channel c).streams ≡ []) × ((close_channel c).base.closed ≡ true)
unfolding close_channel close_with_reason
close_channel_lem c =
    let d = close_each (ids c.streams) c in
    (close_each_empty (ids c.streams) c (ids-AreListed c.streams), go d.base d.base.closed refl)
  where
    go :
        (ch : Channel Request) (b : Bool)
        → ch.closed ≡ b
        → (if ch.closed
            then ch
            else record ch { closed = true; closed_reason = none; cancelled = true }).closed
          ≡ true
    go ch b e = ground (arith, e)
