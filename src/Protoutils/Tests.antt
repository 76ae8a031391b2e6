-- ===== src/Protoutils/Tests.antt =====
-- The theorems about the conversion of Go values, on a struct with tags.
use goutils.Common.{◌≡◌, refl, true, false}
use goutils.Protoutils.{
  text_key, pos, Value, nil_value, string, int, uint, map_of, struct_of, ptr, nil_ptr, string_kind,
  uint_kind, no_entries, entry, Fields, no_fields, field, ok, panics, to_interface,
  interface_to_map, put_entry,
}
use goutils.Protoutils.Types.{IsPlain, IsSupported}
use goutils.Protoutils.Plain.{interface_to_map-IsPlain}
use goutils.Protoutils.Keys.{member, last_field, interface_to_map-last_field}

-- the second field is hidden, the third is left out, and the fourth replaces the first
abbrev some_fields : Fields
some_fields = field "A" "a" true (int "int8" (pos 3)) (
    field "hidden" "" false (nil_ptr uint_kind) (
      field "B" "b,omitempty" true (string true "")
        (field "C" "a,omitempty" true (ptr (uint "uint8" 7)) no_fields)))

abbrev some_map : Value
some_map = map_of (entry (text_key "a") (uint "uint64" 7) no_entries)

some_fields_map : interface_to_map false (struct_of some_fields) ≡ ok some_map
unfolding interface_to_map to_interface put_entry
some_fields_map = refl

some_fields-IsSupported : IsSupported (struct_of some_fields)
unfolding IsSupported
some_fields-IsSupported = (λ p. tt, (λ p. absurd (cc), (λ p. tt, (λ p. tt, tt))))

interface_to_map-IsPlain_example : IsPlain some_map
interface_to_map-IsPlain_example =
    interface_to_map-IsPlain false (struct_of some_fields) some_map some_fields-IsSupported
      some_fields_map

interface_to_map-last_field_example : member some_map "a" ≡ last_field false some_fields "a"
interface_to_map-last_field_example =
    interface_to_map-last_field false some_fields some_map "a" some_fields_map

-- a nil pointer to a text becomes a text, and one to a number panics
nil_text : to_interface false (nil_ptr string_kind) ≡ ok (string false "<invalid Value>")
unfolding to_interface
nil_text = refl

nil_number : to_interface false (nil_ptr uint_kind) ≡ panics
unfolding to_interface
nil_number = refl

-- a nil interface is not left out as empty
nil_kept :
    interface_to_map false (struct_of (field "A" "a,omitempty" true nil_value no_fields))
    ≡ ok (map_of (entry (text_key "a") nil_value no_entries))
unfolding interface_to_map to_interface put_entry
nil_kept = refl
