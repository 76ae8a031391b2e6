-- ===== src/Protoutils/Types.antt =====
-- The types of values that structpb takes, and those that convert to them.
use goutils.Common.{◌≡◌, true, false, ◌||◌, str_eq}
use goutils.Protoutils.{
  Kind, other_kind, Key, text_key, Value, nil_value, bool, string, int, uint, float, errno, uintptr,
  array, slice, map_of, struct_of, ptr, nil_ptr, other, Values, no_values, value, Entries,
  no_entries, entry, Fields, no_fields, field,
}

-- Is a text key.
abbrev pub IsText : Key → Type 0
IsText (text_key k) = Unit
IsText k = ⊥

unfoldable mutual
  -- a value that structpb.NewStruct has a case for
  pub IsPlain : Value → Type 0
  IsPlain nil_value = Unit
  IsPlain (bool named b) = named ≡ false
  IsPlain (string named s) = named ≡ false
  IsPlain (int t n) = (str_eq t "int" || str_eq t "int64") ≡ true
  IsPlain (uint t n) = str_eq t "uint64" ≡ true
  IsPlain (float named bits) = named ≡ false
  IsPlain (slice vs) = ArePlain vs
  IsPlain (map_of es) = HasPlain es
  IsPlain _ = ⊥

  pub ArePlain : Values → Type 0
  ArePlain no_values = Unit
  ArePlain (value v vs) = IsPlain v × ArePlain vs

  pub HasPlain : Entries → Type 0
  HasPlain no_entries = Unit
  HasPlain (entry k v es) = IsText k × IsPlain v × HasPlain es

abbrev pub IsSupportedNil : Kind → Type 0
IsSupportedNil other_kind = ⊥
IsSupportedNil k = Unit

unfoldable mutual
  -- A value with no array, no named bool or float, no pointer to a bool, a float, an array or a pointer,
  -- and nothing that reflection sees as another kind; fields that are not exported may have any.
  pub IsSupported : Value → Type 0
  IsSupported (bool named b) = named ≡ false
  IsSupported (float named bits) = named ≡ false
  IsSupported (array vs) = ⊥
  IsSupported (slice vs) = AreSupported vs
  IsSupported (map_of es) = HasSupported es
  IsSupported (struct_of fs) = FieldsSupported fs
  IsSupported (ptr v) = IsSupportedPointee v
  IsSupported (nil_ptr k) = IsSupportedNil k
  IsSupported (other n) = ⊥
  IsSupported nil_value = Unit
  IsSupported (string named s) = Unit
  IsSupported (int t n) = Unit
  IsSupported (uint t n) = Unit
  IsSupported (errno n) = Unit
  IsSupported (uintptr n) = ⊥

  pub IsSupportedPointee : Value → Type 0
  IsSupportedPointee (struct_of fs) = FieldsSupported fs
  IsSupportedPointee (string named s) = Unit
  IsSupportedPointee (int t n) = Unit
  IsSupportedPointee (uint t n) = Unit
  IsSupportedPointee (slice vs) = Unit
  IsSupportedPointee (map_of es) = Unit
  IsSupportedPointee v = ⊥

  pub AreSupported : Values → Type 0
  AreSupported no_values = Unit
  AreSupported (value v vs) = IsSupported v × AreSupported vs

  pub HasSupported : Entries → Type 0
  HasSupported no_entries = Unit
  HasSupported (entry k v es) = IsSupported v × HasSupported es

  pub FieldsSupported : Fields → Type 0
  FieldsSupported no_fields = Unit
  FieldsSupported (field name tag exported v fs) =
      (exported ≡ true → IsSupported v) × FieldsSupported fs
