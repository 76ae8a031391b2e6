-- ===== src/Protoutils.antt =====
-- protoutils/protoutils.go: how a Go value becomes a map that structpb takes. A value is described by
-- what reflection tells of it; structpb.NewStruct is a parameter.
pub mod Types
pub mod Plain
pub mod Keys
mod Tests
use goutils.Common.{
  ℕ, suc, String, Bool, true, false, not, ◌&&◌, ◌||◌, Option, none, some, List, [], ◌∷◌,
  if◌then◌else◌, ◌==◌, str_eq, after_prefix, contains,
}

-- a pointee's kind, where the pointer is nil
pub data Kind : Type 0 where
  struct_kind : Kind
  map_kind : Kind
  slice_kind : Kind
  string_kind : Kind
  int_kind : Kind
  uint_kind : Kind
  other_kind : Kind

-- a key of kind string, one that implements String, or another
pub data Key : Type 0 where
  text_key : String → Key
  stringer_key : String → Key
  other_key : Key

pub data Integer : Type 0 where
  pos : ℕ → Integer
  negsuc : ℕ → Integer

-- A value in an interface. The Booleans tell a named type from the built-in one; an integer has the
-- name of its type, and a float its bits as a float64.
mutual
  pub data Value : Type 0 where
    nil_value : Value
    bool : Bool → Bool → Value
    string : Bool → String → Value
    int : String → Integer → Value
    uint : String → ℕ → Value
    float : Bool → ℕ → Value
    errno : ℕ → Value
    uintptr : ℕ → Value
    array : Values → Value
    slice : Values → Value
    map_of : Entries → Value
    struct_of : Fields → Value
    ptr : Value → Value
    nil_ptr : Kind → Value
    other : ℕ → Value

  pub data Values : Type 0 where
    no_values : Values
    value : Value → Values → Values

  pub data Entries : Type 0 where
    no_entries : Entries
    entry : Key → Value → Entries → Entries

  -- the name, the tag "json", whether the field is exported, and its value
  pub data Fields : Type 0 where
    no_fields : Fields
    field : String → String → Bool → Value → Fields → Fields

pub data Result (A : Type 0) : Type 0 where
  ok : A → Result A
  err : String → Result A
  panics : Result A

module _ {A B : Type 0} where
  abbrev pub mapped : (A → B) → Result A → Result B
  mapped f (ok a) = ok (f a)
  mapped f (err e) = err e
  mapped f panics = panics

module _ {A B C : Type 0} where
  -- the second is not reached where the first fails
  abbrev pub both : (A → B → C) → Result A → Result B → Result C
  both f (ok a) r = mapped (f a) r
  both f (err e) r = err e
  both f panics r = panics

-- strings.Split(tag, ",")[0]
abbrev pub first_part : String → String
first_part String.[] = String.[]
first_part (String.◌∷◌ c s) =
    let rest = first_part s in
    elim (after_prefix "," (String.◌∷◌ c s)) [ some r ↦ String.[] | none ↦ String.◌∷◌ c rest ]

abbrev pub is_negative_zero : ℕ → Bool
is_negative_zero bits = bits == 9223372036854775808

abbrev pub is_empty_value : Value → Bool
is_empty_value (array no_values) = true
is_empty_value (map_of no_entries) = true
is_empty_value (slice no_values) = true
is_empty_value (string named s) = str_eq s ""
is_empty_value (bool named b) = not b
is_empty_value (int t (pos n)) = n == 0
is_empty_value (uint t n) = n == 0
is_empty_value (errno n) = n == 0
is_empty_value (uintptr n) = n == 0
is_empty_value (float named bits) = bits == 0 || is_negative_zero bits
is_empty_value (nil_ptr k) = true
is_empty_value _ = false

-- the key of a field
abbrev pub field_key : String → String → String
field_key name tag = if str_eq (first_part tag) "" then name else first_part tag

-- whether the loop over the fields goes on to the next
abbrev pub is_skipped : Bool → String → Bool → Value → Bool
is_skipped ignore_omit_empty tag exported v =
    str_eq tag "-"
    || not exported
    || (not ignore_omit_empty && contains tag "omitempty" && is_empty_value v)

abbrev pub key_text : Key → Result String
key_text (text_key k) = ok k
key_text (stringer_key k) = ok k
key_text other_key = err "map keys are not strings and do not implement String"

abbrev pub key_is : Key → String → Bool
key_is (text_key j) k = str_eq j k
key_is _ k = false

-- result[key] = value
unfoldable pub put_entry : Entries → String → Value → Entries
put_entry no_entries k v = entry (text_key k) v no_entries
put_entry (entry j w es) k v =
    let rest = put_entry es k v in if key_is j k then entry (text_key k) v es else entry j w rest

-- the assignments to the result, in order
abbrev pub build : Entries → List (String × Value) → Entries
build acc [] = acc
build acc ((k, v) ∷ kvs) = build (put_entry acc k v) kvs

abbrev pub built : List (String × Value) → Value
built kvs = map_of (build no_entries kvs)

abbrev pub pair : String → Value → String × Value
pair k v = (k, v)

abbrev pub assign : String × Value → List (String × Value) → List (String × Value)
assign kv kvs = kv ∷ kvs

abbrev pub nil_pointee : Kind → Result Value
nil_pointee struct_kind = ok (map_of no_entries)
nil_pointee map_kind = err "data is not a map"
nil_pointee slice_kind = err "data is not a slice"
nil_pointee string_kind = ok (string false "<invalid Value>")
nil_pointee int_kind = panics
nil_pointee uint_kind = panics
nil_pointee other_kind = ok (nil_ptr other_kind)

unfoldable mutual
  -- toInterface
  pub to_interface : Bool → Value → Result Value
  to_interface i nil_value = ok nil_value
  to_interface i (bool named b) = ok (bool named b)
  to_interface i (string named s) = ok (string false s)
  to_interface i (int t n) = ok (int "int64" n)
  to_interface i (uint t n) = ok (uint "uint64" n)
  to_interface i (float named bits) = ok (float named bits)
  to_interface i (errno n) = ok (int "int" (pos n))
  to_interface i (uintptr n) = ok (uintptr n)
  to_interface i (array vs) = ok (array vs)
  to_interface i (slice vs) = mapped slice (marshal_slice i vs)
  to_interface i (map_of es) = mapped built (marshal_map i es)
  to_interface i (struct_of fs) = mapped built (struct_to_map i fs)
  to_interface i (ptr v) = to_pointee i v
  to_interface i (nil_ptr k) = nil_pointee k
  to_interface i (other n) = ok (other n)

  -- toInterface of a pointer to this value
  pub to_pointee : Bool → Value → Result Value
  to_pointee i (string named s) = ok (string false s)
  to_pointee i (int t n) = ok (int "int64" n)
  to_pointee i (uint t n) = ok (uint "uint64" n)
  to_pointee i (slice vs) = err "data is not a slice"
  to_pointee i (map_of es) = err "data is not a map"
  to_pointee i (struct_of fs) = mapped built (struct_to_map i fs)
  to_pointee i v = ok (ptr v)

  -- marshalSlice
  pub marshal_slice : Bool → Values → Result Values
  marshal_slice i no_values = ok no_values
  marshal_slice i (value v vs) = both value (to_interface i v) (marshal_slice i vs)

  -- marshalMap: what it assigns
  pub marshal_map : Bool → Entries → Result (List (String × Value))
  marshal_map i no_entries = ok []
  marshal_map i (entry k v es) =
      both assign (both pair (key_text k) (to_interface i v)) (marshal_map i es)

  -- structToMap: what it assigns
  pub struct_to_map : Bool → Fields → Result (List (String × Value))
  struct_to_map i no_fields = ok []
  struct_to_map i (field name tag exported v fs) =
      let rest = struct_to_map i fs in
      let first = mapped (pair (field_key name tag)) (to_interface i v) in
      if is_skipped i tag exported v then rest else both assign first rest

abbrev not_map_like : Result Value
not_map_like = err "not a struct or a map-like object"

-- interfaceToMapHelper
unfoldable pub interface_to_map : Bool → Value → Result Value
unfolding to_interface
interface_to_map i nil_value = err "no data passed in"
interface_to_map i (struct_of fs) = mapped built (struct_to_map i fs)
interface_to_map i (map_of es) = mapped built (marshal_map i es)
interface_to_map i (ptr (struct_of fs)) = mapped built (struct_to_map i fs)
interface_to_map i (ptr (map_of es)) = err "data is not a map"
interface_to_map i (nil_ptr struct_kind) = ok (map_of no_entries)
interface_to_map i (nil_ptr map_kind) = err "data is not a map"
interface_to_map i _ = not_map_like

abbrev constructed : {S : Type 0} → Option S → Result S
constructed none = err "unable to construct structpb.Struct"
constructed (some s) = ok s

abbrev pub encoded : {S : Type 0} → (Value → Option S) → Result Value → Result S
encoded new_struct (ok m) = constructed (new_struct m)
encoded new_struct (err e) = err "unable to convert interface"
encoded new_struct panics = panics

-- StructToStructPb and, where the first is true, StructToStructPbIgnoreOmitEmpty
unfoldable pub struct_to_struct_pb : {S : Type 0} → (Value → Option S) → Bool → Value → Result S
unfolding interface_to_map
struct_to_struct_pb new_struct i v = encoded new_struct (interface_to_map i v)
