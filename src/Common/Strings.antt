-- ===== src/Common/Strings.antt =====
-- Prefixes of a text, as in Go's package strings.
use Prim.Native.Char.{code}
use Prim.Native.String.{String}
use mathlib.Core.Bool.{Bool, true, false, ◌||◌}
use mathlib.Core.List.{List, [], ◌∷◌}
use mathlib.Core.Option.{Option, none, some}
use text.Mathlib.Text.{◌==◌ as str_eq}
use goutils.Common.Tests.{if◌then◌else◌, ◌==◌}

-- the rest of the text behind the prefix
abbrev pub after_prefix : String → String → Option String
after_prefix String.[] s = some s
after_prefix (String.◌∷◌ c p) String.[] = none
after_prefix (String.◌∷◌ c p) (String.◌∷◌ d s) =
    let rest = after_prefix p s in if code c == code d then rest else none

-- strings.Contains
abbrev pub contains : String → String → Bool
contains String.[] p = elim (after_prefix p String.[]) [ some r ↦ true | none ↦ false ]
contains (String.◌∷◌ c s) p =
    let rest = contains s p in
    elim (after_prefix p (String.◌∷◌ c s)) [ some r ↦ true | none ↦ rest ]

-- strings.TrimPrefix
abbrev pub trim_prefix : String → String → String
trim_prefix s p = elim (after_prefix p s) [ none ↦ s | some rest ↦ rest ]

-- Whether one of the texts is the given one.
abbrev pub is_in : List String → String → Bool
is_in [] k = false
is_in (x ∷ xs) k = str_eq x k || is_in xs k

-- strings.HasSuffix
abbrev pub has_suffix : String → String → Bool
has_suffix String.[] p = str_eq "" p
has_suffix (String.◌∷◌ c s) p = str_eq (String.◌∷◌ c s) p || has_suffix s p
