-- ===== src/Rpc/DialDirect/CacheKey.antt =====
-- The key under which the connections of Dial are shared, with the dialer that shares them.
use Prim.Native.String.{◌++◌ as append}
use goutils.Common.{
  ℕ, String, ◌≡◌, refl, ap, ◌∙◌, Bool, true, false, Option, none, some, [], ◌∷◌, ◌++◌,
  if◌then◌else◌, ◌==◌, arith,
}
use goutils.Common.Dict.{get-put_self}
use goutils.Utils.Ref.{counted, ref}
use goutils.Rpc.DialOptions.{DialOptions, with_static_authentication_material, apply}
use goutils.Rpc.DialDirect.{cache_key, cache_text}
use goutils.Rpc.CachedDialer.{
  Wrapper, Conn, Dialer, change, ref_of, ref_conn, new_wrapper, insert_at, insert, look_up,
  given_out, dialed, dial_at, dial_func,
}
use goutils.Rpc.CachedDialer.Inserting.{with_new}

-- the key of DialFunc in dialInner
abbrev pub dial_key : (String → String) → String → DialOptions → String
dial_key hash address o = append "multi:" (append address (append ":" (cache_key hash o)))

-- the reference that a dial gives out for a new connection
abbrev pub first_conn : Dialer → Conn
first_conn d = record { wrapper = d.next; closed = false }

-- a new connection with n references
abbrev referred : String → ℕ → Wrapper
referred key n = record (new_wrapper key) { count = counted n }

-- what a second dial of the key does after a first one that has made a connection
abbrev pub Shares : Dialer → String → String → Bool → Type 0
Shares d key_s key_t can_dial =
    (e : Dialer) × (f : Dialer) × (dial_func d d key_s true ≡ some (given_out false, e))
    × (dial_func e e key_t can_dial ≡ some (given_out true, f))
    × (f.given ≡ (d.given ++ first_conn d ∷ []) ++ first_conn d ∷ [])

made_first :
    (d : Dialer) (key : String) (o : Option ℕ)
    → look_up d key ≡ o
    → o ≡ none
    → dial_at d key true o ≡ dialed (given_out false) (ref_conn (with_new d key) d.next)
unfolding ref_conn insert
made_first d key (some w) e h = absurd (cc)
made_first d key none e h = ap (λ o. dialed (given_out false) (insert_at d key o)) e

-- the dialer behind a dial that has made a connection, and behind a second dial that shares it
abbrev after_first : Dialer → String → Dialer
after_first d key = record (change (with_new d key) d.next (λ x. record x { count = counted 1 })) {
  given = d.given ++ first_conn d ∷ [];
}

abbrev after_second : Dialer → String → Dialer
after_second d key =
    record (change (after_first d key) d.next (λ x. record x { count = counted 2 })) {
      given = (d.given ++ first_conn d ∷ []) ++ first_conn d ∷ [];
    }

self_eq : (n : ℕ) → (n == n) ≡ true
self_eq n = ground arith

ref_first :
    (d : Dialer) (key : String) → ref_conn (with_new d key) d.next ≡ some (after_first d key)
unfolding ref_conn ref
ref_first d key =
    ap
      (λ b.
        ref_of (with_new d key) d.next (if b then some (new_wrapper key) else d.wrappers d.next))
      (self_eq d.next)

ref_second :
    (d : Dialer) (key : String) → ref_conn (after_first d key) d.next ≡ some (after_second d key)
unfolding ref_conn ref
ref_second d key =
    ap (ref_of (after_first d key) d.next) (found (d.next == d.next) (self_eq d.next))
  where
    found :
        (b : Bool)
        → b ≡ true
        → (if b
            then elim (if b then some (new_wrapper key) else d.wrappers d.next) [
              | none ↦ none
              | some x ↦ some (record x { count = counted 1 })
            ]
            else if b
            then some (new_wrapper key)
            else d.wrappers d.next)
          ≡ some (referred key 1)
    found true h = refl
    found false h = absurd (cc)

twice :
    (d : Dialer) (key : String) (can_dial : Bool) → look_up d key ≡ none → Shares d key key can_dial
unfolding dial_func
twice d key can_dial free = (
  after_first d key,
  after_second d key,
  made_first d key (look_up d key) refl free ∙ ap (dialed (given_out false)) (ref_first d key),
  ap (dial_at (after_first d key) key can_dial) (get-put_self d.conns key d.next)
      ∙ ap (dialed (given_out true)) (ref_second d key),
  refl,
)

-- Where a dialer has no connection for the key of an address and one static authentication material, a
-- dial with that material makes one, and a dial with any other material that follows gets a reference to
-- that same connection, and dials nothing.
pub dial_func-other_material :
    (hash : String → String) (address : String) (o : DialOptions) (s t : String) (d : Dialer)
    (can_dial : Bool)
    → look_up d (dial_key hash address (apply o (with_static_authentication_material s))) ≡ none
    → Shares d
        (dial_key hash address (apply o (with_static_authentication_material s)))
        (dial_key hash address (apply o (with_static_authentication_material t)))
        can_dial
unfolding cache_key cache_text
dial_func-other_material hash address o s t d can_dial free =
    twice d (dial_key hash address (apply o (with_static_authentication_material s))) can_dial free
