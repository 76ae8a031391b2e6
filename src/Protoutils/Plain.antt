-- ===== src/Protoutils/Plain.antt =====
-- A converted value has a type that structpb takes.
use goutils.Common.{
  String, ◌≡◌, refl, subst, Bool, true, false, List, [], ◌∷◌, All, if◌then◌else◌, if_both, arith,
}
use goutils.Protoutils.{
  Kind, struct_kind, map_kind, slice_kind, string_kind, int_kind, uint_kind, other_kind, Integer,
  Value, nil_value, bool, string, int, uint, float, errno, uintptr, array, slice, map_of, struct_of,
  ptr, nil_ptr, other, Values, no_values, value, Entries, no_entries, entry, Fields, no_fields,
  field, Result, ok, err, panics, mapped, both, field_key, is_skipped, key_text, key_is, put_entry,
  build, built, pair, assign, nil_pointee, marshal_slice, marshal_map, struct_to_map, to_pointee,
  to_interface, interface_to_map,
}
use goutils.Protoutils.Types.{
  IsPlain, ArePlain, HasPlain, IsSupportedNil, IsSupported, IsSupportedPointee, AreSupported,
  HasSupported, FieldsSupported,
}

mapped-ok :
    {A B : Type 0} (f : A → B) (r : Result A) (b : B)
    → mapped f r ≡ ok b
    → (a : A) × (r ≡ ok a) × (f a ≡ b)
mapped-ok f (ok a) b h = (a, refl, cc)
mapped-ok f (err e) b h = absurd (cc)
mapped-ok f panics b h = absurd (cc)

both-ok :
    {A B C : Type 0} (f : A → B → C) (r : Result A) (s : Result B) (c : C)
    → both f r s ≡ ok c
    → (a : A) × (b : B) × (r ≡ ok a) × (s ≡ ok b) × (f a b ≡ c)
both-ok f (ok a) s c h = let (b, e, g) = mapped-ok (f a) s c h in (a, b, refl, e, g)
both-ok f (err e) s c h = absurd (cc)
both-ok f panics s c h = absurd (cc)

put_entry-HasPlain :
    (es : Entries) (k : String) (v : Value) → HasPlain es → IsPlain v → HasPlain (put_entry es k v)
unfolding put_entry IsPlain
put_entry-HasPlain no_entries k v h p = (tt, p, tt)
put_entry-HasPlain (entry j w es) k v (t, q, h) p =
    if_both HasPlain (key_is j k) (tt, p, h) (t, q, put_entry-HasPlain es k v h p)

abbrev PairPlain : String × Value → Type 0
PairPlain kv = IsPlain kv.1

build-HasPlain :
    (acc : Entries) (kvs : List (String × Value))
    → HasPlain acc
    → All PairPlain kvs
    → HasPlain (build acc kvs)
build-HasPlain acc [] h ps = h
build-HasPlain acc ((k, v) ∷ kvs) h (p, ps) =
    build-HasPlain (put_entry acc k v) kvs (put_entry-HasPlain acc k v h p) ps

built-IsPlain :
    (r : Result (List (String × Value))) (x : Value)
    → ((kvs : List (String × Value)) → r ≡ ok kvs → All PairPlain kvs)
    → mapped built r ≡ ok x
    → IsPlain x
unfolding IsPlain
built-IsPlain r x plain h =
    let (kvs, e, same) = mapped-ok built r x h in
    subst IsPlain same (build-HasPlain no_entries kvs tt (plain kvs e))

nil_pointee-IsPlain : (k : Kind) (x : Value) → IsSupportedNil k → nil_pointee k ≡ ok x → IsPlain x
unfolding IsPlain
nil_pointee-IsPlain struct_kind x s h = let e : map_of no_entries ≡ x = cc in subst IsPlain e tt
nil_pointee-IsPlain map_kind x s h = absurd (cc)
nil_pointee-IsPlain slice_kind x s h = absurd (cc)
nil_pointee-IsPlain string_kind x s h =
    let e : string false "<invalid Value>" ≡ x = cc in subst IsPlain e refl
nil_pointee-IsPlain int_kind x s h = absurd (cc)
nil_pointee-IsPlain uint_kind x s h = absurd (cc)
nil_pointee-IsPlain other_kind x s h = absurd s

pair-PairPlain :
    (k : Result String) (r : Result Value) (kv : String × Value)
    → ((x : Value) → r ≡ ok x → IsPlain x)
    → both pair k r ≡ ok kv
    → PairPlain kv
pair-PairPlain k r kv plain h =
    let (a, x, e, f, same) = both-ok pair k r kv h in subst PairPlain same (plain x f)

assigned-All :
    (r : Result (String × Value)) (rest : Result (List (String × Value)))
    (kvs : List (String × Value))
    → ((kv : String × Value) → r ≡ ok kv → PairPlain kv)
    → ((kvs : List (String × Value)) → rest ≡ ok kvs → All PairPlain kvs)
    → both assign r rest ≡ ok kvs
    → All PairPlain kvs
assigned-All r rest kvs p ps h =
    let (kv, tail, e, f, same) = both-ok assign r rest kvs h in
    subst (All PairPlain) same (p kv e, ps tail f)

-- a field that is taken is exported
taken :
    (i : Bool) (name tag : String) (exported : Bool) (v : Value)
    (rest : Result (List (String × Value))) (kvs : List (String × Value))
    → ((kvs : List (String × Value)) → rest ≡ ok kvs → All PairPlain kvs)
    → (exported ≡ true → (x : Value) → to_interface i v ≡ ok x → IsPlain x)
    → (if is_skipped i tag exported v
        then rest
        else both assign (mapped (pair (field_key name tag)) (to_interface i v)) rest)
      ≡ ok kvs
    → All PairPlain kvs
taken i name tag exported v rest kvs tail plain h = go (is_skipped i tag exported v) refl h
  where
    one :
        exported ≡ true
        → (kv : String × Value) → mapped (pair (field_key name tag)) (to_interface i v) ≡ ok kv
        → PairPlain kv
    one p kv e =
        let (x, f, same) = mapped-ok (pair (field_key name tag)) (to_interface i v) kv e in
        subst PairPlain same (plain p x f)

    go :
        (b : Bool)
        → is_skipped i tag exported v ≡ b
        → (if b
            then rest
            else both assign (mapped (pair (field_key name tag)) (to_interface i v)) rest)
          ≡ ok kvs
        → All PairPlain kvs
    go true p e = tail kvs e
    go false p e =
        assigned-All (mapped (pair (field_key name tag)) (to_interface i v)) rest kvs
          (one (ground arith)) tail e

mutual
  unfolding to_interface IsPlain IsSupported

  to_interface-IsPlain :
      (i : Bool) (v x : Value) → IsSupported v → to_interface i v ≡ ok x → IsPlain x
  to_interface-IsPlain i nil_value x s h = let e : nil_value ≡ x = cc in subst IsPlain e tt
  to_interface-IsPlain i (bool named b) x s h = let e : bool named b ≡ x = cc in subst IsPlain e s
  to_interface-IsPlain i (string named t) x s h =
      let e : string false t ≡ x = cc in subst IsPlain e refl
  to_interface-IsPlain i (int t n) x s h = let e : int "int64" n ≡ x = cc in subst IsPlain e refl
  to_interface-IsPlain i (uint t n) x s h = let e : uint "uint64" n ≡ x = cc in subst IsPlain e refl
  to_interface-IsPlain i (float named bits) x s h =
      let e : float named bits ≡ x = cc in subst IsPlain e s
  to_interface-IsPlain i (uintptr n) x s h = absurd s
  to_interface-IsPlain i (errno n) x s h =
      let e : int "int" (Integer.pos n) ≡ x = cc in subst IsPlain e refl
  to_interface-IsPlain i (array vs) x s h = absurd s
  to_interface-IsPlain i (slice vs) x s h =
      let (ws, e, same) = mapped-ok slice (marshal_slice i vs) x h in
      subst IsPlain same (marshal_slice-ArePlain i vs ws s e)
  to_interface-IsPlain i (map_of es) x s h =
      built-IsPlain (marshal_map i es) x (λ kvs e. marshal_map-All i es kvs s e) h
  to_interface-IsPlain i (struct_of fs) x s h =
      built-IsPlain (struct_to_map i fs) x (λ kvs e. struct_to_map-All i fs kvs s e) h
  to_interface-IsPlain i (ptr v) x s h = to_pointee-IsPlain i v x s h
  to_interface-IsPlain i (nil_ptr k) x s h = nil_pointee-IsPlain k x s h
  to_interface-IsPlain i (other n) x s h = absurd s

  to_pointee-IsPlain :
      (i : Bool) (v x : Value) → IsSupportedPointee v → to_pointee i v ≡ ok x → IsPlain x
  to_pointee-IsPlain i (struct_of fs) x s h =
      built-IsPlain (struct_to_map i fs) x (λ kvs e. struct_to_map-All i fs kvs s e) h
  to_pointee-IsPlain i (string named t) x s h =
      let e : string false t ≡ x = cc in subst IsPlain e refl
  to_pointee-IsPlain i (int t n) x s h = let e : int "int64" n ≡ x = cc in subst IsPlain e refl
  to_pointee-IsPlain i (uint t n) x s h = let e : uint "uint64" n ≡ x = cc in subst IsPlain e refl
  to_pointee-IsPlain i (slice vs) x s h = absurd (cc)
  to_pointee-IsPlain i (map_of es) x s h = absurd (cc)
  to_pointee-IsPlain i nil_value x s h = absurd s
  to_pointee-IsPlain i (bool named b) x s h = absurd s
  to_pointee-IsPlain i (float named b) x s h = absurd s
  to_pointee-IsPlain i (errno n) x s h = absurd s
  to_pointee-IsPlain i (uintptr n) x s h = absurd s
  to_pointee-IsPlain i (array vs) x s h = absurd s
  to_pointee-IsPlain i (ptr v) x s h = absurd s
  to_pointee-IsPlain i (nil_ptr k) x s h = absurd s
  to_pointee-IsPlain i (other n) x s h = absurd s

  marshal_slice-ArePlain :
      (i : Bool) (vs ws : Values) → AreSupported vs → marshal_slice i vs ≡ ok ws → ArePlain ws
  marshal_slice-ArePlain i no_values ws s h = let e : no_values ≡ ws = cc in subst ArePlain e tt
  marshal_slice-ArePlain i (value v vs) ws (s, ss) h =
      let (x, xs, e, f, same) = both-ok value (to_interface i v) (marshal_slice i vs) ws h in
      subst ArePlain same (to_interface-IsPlain i v x s e, marshal_slice-ArePlain i vs xs ss f)

  marshal_map-All :
      (i : Bool) (es : Entries) (kvs : List (String × Value))
      → HasSupported es
      → marshal_map i es ≡ ok kvs
      → All PairPlain kvs
  marshal_map-All i no_entries kvs s h = let e : [] ≡ kvs = cc in subst (All PairPlain) e tt
  marshal_map-All i (entry k v es) kvs (s, ss) h =
      assigned-All (both pair (key_text k) (to_interface i v)) (marshal_map i es) kvs
        (λ kv e.
          pair-PairPlain (key_text k) (to_interface i v) kv (λ x f. to_interface-IsPlain i v x s f)
            e)
        (λ rest e. marshal_map-All i es rest ss e) h

  struct_to_map-All :
      (i : Bool) (fs : Fields) (kvs : List (String × Value))
      → FieldsSupported fs
      → struct_to_map i fs ≡ ok kvs
      → All PairPlain kvs
  struct_to_map-All i no_fields kvs s h = let e : [] ≡ kvs = cc in subst (All PairPlain) e tt
  struct_to_map-All i (field name tag exported v fs) kvs (s, ss) h =
      taken i name tag exported v (struct_to_map i fs) kvs
        (λ rest e. struct_to_map-All i fs rest ss e) (λ p x e. to_interface-IsPlain i v x (s p) e) h

-- What InterfaceToMap answers for a supported value is plain: a map whose keys are texts and whose values
-- have, all the way down, types that structpb.NewStruct has a case for.
pub interface_to_map-IsPlain :
    (i : Bool) (v x : Value) → IsSupported v → interface_to_map i v ≡ ok x → IsPlain x
unfolding interface_to_map IsPlain IsSupported
interface_to_map-IsPlain i (struct_of fs) x s h =
    built-IsPlain (struct_to_map i fs) x (λ kvs e. struct_to_map-All i fs kvs s e) h
interface_to_map-IsPlain i (map_of es) x s h =
    built-IsPlain (marshal_map i es) x (λ kvs e. marshal_map-All i es kvs s e) h
interface_to_map-IsPlain i (ptr (struct_of fs)) x s h =
    built-IsPlain (struct_to_map i fs) x (λ kvs e. struct_to_map-All i fs kvs s e) h
interface_to_map-IsPlain i (nil_ptr struct_kind) x s h =
    let e : map_of no_entries ≡ x = cc in subst IsPlain e tt
interface_to_map-IsPlain i (nil_ptr map_kind) x s h = absurd (cc)
interface_to_map-IsPlain i (nil_ptr slice_kind) x s h = absurd (cc)
interface_to_map-IsPlain i (nil_ptr string_kind) x s h = absurd (cc)
interface_to_map-IsPlain i (nil_ptr int_kind) x s h = absurd (cc)
interface_to_map-IsPlain i (nil_ptr uint_kind) x s h = absurd (cc)
interface_to_map-IsPlain i (nil_ptr other_kind) x s h = absurd (cc)
interface_to_map-IsPlain i nil_value x s h = absurd (cc)
interface_to_map-IsPlain i (bool n b) x s h = absurd (cc)
interface_to_map-IsPlain i (string n b) x s h = absurd (cc)
interface_to_map-IsPlain i (int t n) x s h = absurd (cc)
interface_to_map-IsPlain i (uint t n) x s h = absurd (cc)
interface_to_map-IsPlain i (float n b) x s h = absurd (cc)
interface_to_map-IsPlain i (errno n) x s h = absurd (cc)
interface_to_map-IsPlain i (uintptr n) x s h = absurd (cc)
interface_to_map-IsPlain i (array vs) x s h = absurd (cc)
interface_to_map-IsPlain i (slice vs) x s h = absurd (cc)
interface_to_map-IsPlain i (other n) x s h = absurd (cc)
interface_to_map-IsPlain i (ptr nil_value) x s h = absurd (cc)
interface_to_map-IsPlain i (ptr (bool n b)) x s h = absurd (cc)
interface_to_map-IsPlain i (ptr (string n b)) x s h = absurd (cc)
interface_to_map-IsPlain i (ptr (int t n)) x s h = absurd (cc)
interface_to_map-IsPlain i (ptr (uint t n)) x s h = absurd (cc)
interface_to_map-IsPlain i (ptr (float n b)) x s h = absurd (cc)
interface_to_map-IsPlain i (ptr (errno n)) x s h = absurd (cc)
interface_to_map-IsPlain i (ptr (uintptr n)) x s h = absurd (cc)
interface_to_map-IsPlain i (ptr (array vs)) x s h = absurd (cc)
interface_to_map-IsPlain i (ptr (slice vs)) x s h = absurd (cc)
interface_to_map-IsPlain i (ptr (ptr w)) x s h = absurd (cc)
interface_to_map-IsPlain i (ptr (other n)) x s h = absurd (cc)
interface_to_map-IsPlain i (ptr (map_of es)) x s h = absurd (cc)
interface_to_map-IsPlain i (ptr (nil_ptr k)) x s h = absurd (cc)
