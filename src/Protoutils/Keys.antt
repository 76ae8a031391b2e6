-- ===== src/Protoutils/Keys.antt =====
-- Which field gives the value of a key of a converted struct.
use text.Mathlib.TextLemmas.{cons≢nil}
use goutils.Common.{
  String, ◌≡◌, refl, sym, ap, ◌∙◌, Bool, true, false, Option, none, some, List, [], ◌∷◌,
  if◌then◌else◌, str_eq, eq_iff, arith, contains, ◌||◌, ◌&&◌,
}
use goutils.Protoutils.{
  text_key, stringer_key, other_key, Value, map_of, struct_of, Entries, no_entries, entry, Fields,
  no_fields, field, Result, ok, err, panics, mapped, both, field_key, first_part, is_empty_value,
  is_skipped, key_is, put_entry, build, built, pair, assign, struct_to_map, to_interface,
  interface_to_map,
}

-- m[key]
abbrev pub value_at : Entries → String → Option Value
value_at no_entries k = none
value_at (entry j v es) k = if key_is j k then some v else value_at es k

abbrev pub member : Value → String → Option Value
member (map_of es) k = value_at es k
member v k = none

abbrev ok_value : Result Value → Option Value
ok_value (ok v) = some v
ok_value (err e) = none
ok_value panics = none

abbrev or_else : Option Value → Option Value → Option Value
or_else (some v) o = some v
or_else none o = o

-- the name of a field, or the first part of its tag where that has one
abbrev pub named_by : String → String → String
named_by name String.[] = name
named_by name (String.◌∷◌ c s) = String.◌∷◌ c s

-- omitempty stands in the tag of an empty value, and is not ignored
abbrev pub is_omitted : Bool → Bool → Value → Bool
is_omitted true omitempty v = false
is_omitted false omitempty v = if omitempty then is_empty_value v else false

-- the fields that are left out: those that are not exported, that are tagged "-", or that are omitted
abbrev pub is_left_out : Bool → String → Bool → Value → Bool
is_left_out i tag false v = true
is_left_out i tag true v =
    if str_eq tag "-" then true else is_omitted i (contains tag "omitempty") v

-- the value of the last field that is not left out and has the key
unfoldable pub last_field : Bool → Fields → String → Option Value
unfolding to_interface
last_field i no_fields k = none
last_field i (field name tag exported v fs) k =
    let rest = last_field i fs k in
    let own =
      if str_eq (named_by name (first_part tag)) k then ok_value (to_interface i v) else none in
    if is_left_out i tag exported v then rest else or_else rest own

-- the same, by what the loop tests
unfoldable last_kept : Bool → Fields → String → Option Value
unfolding to_interface
last_kept i no_fields k = none
last_kept i (field name tag exported v fs) k =
    let rest = last_kept i fs k in
    let own = if str_eq (field_key name tag) k then ok_value (to_interface i v) else none in
    if is_skipped i tag exported v then rest else or_else rest own

field_key-named_by : (name tag : String) → field_key name tag ≡ named_by name (first_part tag)
field_key-named_by name tag = go (first_part tag)
  where
    go : (s : String) → (if str_eq s "" then name else s) ≡ named_by name s
    go String.[] = refl
    go (String.◌∷◌ c s) = full (str_eq (String.◌∷◌ c s) "") refl
      where
        full :
            (b : Bool)
            → str_eq (String.◌∷◌ c s) "" ≡ b
            → (if b then name else String.◌∷◌ c s) ≡ String.◌∷◌ c s
        full false e = refl
        full true e = absurd (cons≢nil ((eq_iff (String.◌∷◌ c s) "").0 e))

is_skipped-is_left_out :
    (i : Bool) (tag : String) (exported : Bool) (v : Value)
    → is_skipped i tag exported v ≡ is_left_out i tag exported v
is_skipped-is_left_out i tag false v = ground arith
is_skipped-is_left_out true tag true v = ground arith
is_skipped-is_left_out false tag true v =
    go (str_eq tag "-") (contains tag "omitempty") (is_empty_value v)
  where
    go :
        (d c z : Bool)
        → (d || false || (true && c && z)) ≡ (if d then true else if c then z else false)
    go d c z = ground arith

-- the last assignment to the key
abbrev last_assigned : List (String × Value) → String → Option Value
last_assigned [] k = none
last_assigned ((j, v) ∷ kvs) k = or_else (last_assigned kvs k) (if str_eq j k then some v else none)

value_at-put_entry :
    (es : Entries) (j k : String) (v : Value)
    → value_at (put_entry es j v) k ≡ (if str_eq j k then some v else value_at es k)
unfolding put_entry
value_at-put_entry no_entries j k v = refl
value_at-put_entry (entry (text_key l) w es) j k v =
    ground (arith, eq_iff j k, eq_iff l j, eq_iff l k, value_at-put_entry es j k v)
value_at-put_entry (entry (stringer_key l) w es) j k v = ground (arith, value_at-put_entry es j k v)
value_at-put_entry (entry other_key w es) j k v = ground (arith, value_at-put_entry es j k v)

value_at-build :
    (acc : Entries) (kvs : List (String × Value)) (k : String)
    → value_at (build acc kvs) k ≡ or_else (last_assigned kvs k) (value_at acc k)
value_at-build acc [] k = refl
value_at-build acc ((j, v) ∷ kvs) k =
    value_at-build (put_entry acc j v) kvs k
    ∙ ap (or_else (last_assigned kvs k)) (value_at-put_entry acc j k v)
    ∙ go (last_assigned kvs k) (str_eq j k)
  where
    go :
        (o : Option Value) (b : Bool)
        → or_else o (if b then some v else value_at acc k)
          ≡ or_else (or_else o (if b then some v else none)) (value_at acc k)
    go (some w) b = refl
    go none true = refl
    go none false = refl

struct_to_map-last_kept :
    (i : Bool) (fs : Fields) (kvs : List (String × Value)) (k : String)
    → struct_to_map i fs ≡ ok kvs
    → last_assigned kvs k ≡ last_kept i fs k
unfolding struct_to_map last_kept
struct_to_map-last_kept i no_fields kvs k h =
    let e : [] ≡ kvs = cc in ap (λ l. last_assigned l k) (sym e)
struct_to_map-last_kept i (field name tag exported v fs) kvs k h =
    go (is_skipped i tag exported v) (struct_to_map i fs) (to_interface i v)
      (λ rest e. struct_to_map-last_kept i fs rest k e) refl h
  where
    go :
        (b : Bool) (rest : Result (List (String × Value))) (r : Result Value)
        → ((tail : List (String × Value))
            → rest ≡ ok tail
            → last_assigned tail k ≡ last_kept i fs k)
        → to_interface i v ≡ r
        → (if b then rest else both assign (mapped (pair (field_key name tag)) r) rest) ≡ ok kvs
        → last_assigned kvs k ≡ (
            if b
            then last_kept i fs k
            else or_else
                (last_kept i fs k)
                (if str_eq (field_key name tag) k then ok_value r else none))
    go true rest r ih p e = ih kvs e
    go false (ok tail) (ok x) ih p e =
        let same : assign (field_key name tag, x) tail ≡ kvs = cc in
        ap (λ l. last_assigned l k) (sym same)
        ∙ ap (λ o. or_else o (if str_eq (field_key name tag) k then some x else none))
            (ih tail refl)
    go false (err y) (ok x) ih p e = absurd (cc)
    go false panics (ok x) ih p e = absurd (cc)
    go false rest (err y) ih p e = absurd (cc)
    go false rest panics ih p e = absurd (cc)

last_kept-last_field : (i : Bool) (fs : Fields) (k : String) → last_kept i fs k ≡ last_field i fs k
unfolding last_kept last_field
last_kept-last_field i no_fields k = refl
last_kept-last_field i (field name tag exported v fs) k =
    ap
      (λ b.
        if b
        then last_kept i fs k
        else or_else (last_kept i fs k)
            (if str_eq (field_key name tag) k then ok_value (to_interface i v) else none))
      (is_skipped-is_left_out i tag exported v)
    ∙ ap
        (λ s.
          if is_left_out i tag exported v
          then last_kept i fs k
          else or_else (last_kept i fs k)
              (if str_eq s k then ok_value (to_interface i v) else none))
        (field_key-named_by name tag)
    ∙ ap
        (λ r.
          if is_left_out i tag exported v
          then r
          else or_else r (
              if str_eq (named_by name (first_part tag)) k
              then ok_value (to_interface i v)
              else none))
        (last_kept-last_field i fs k)

-- In the map that a struct becomes, each key has the value of the last field with this key, by its name
-- or its tag, that is exported, not tagged "-", and not left out as empty; other keys are absent.
pub interface_to_map-last_field :
    (i : Bool) (fs : Fields) (x : Value) (k : String)
    → interface_to_map i (struct_of fs) ≡ ok x
    → member x k ≡ last_field i fs k
unfolding interface_to_map
interface_to_map-last_field i fs x k h = go (struct_to_map i fs) refl h
  where
    go :
        (r : Result (List (String × Value)))
        → struct_to_map i fs ≡ r
        → mapped built r ≡ ok x
        → member x k ≡ last_field i fs k
    go (ok kvs) e h =
        let same : built kvs ≡ x = cc in
        ap (λ y. member y k) (sym same)
        ∙ value_at-build no_entries kvs k
        ∙ none_else (last_assigned kvs k)
        ∙ struct_to_map-last_kept i fs kvs k e
        ∙ last_kept-last_field i fs k
      where
        none_else : (o : Option Value) → or_else o none ≡ o
        none_else none = refl
        none_else (some v) = refl
    go (err y) e h = absurd (cc)
    go panics e h = absurd (cc)
