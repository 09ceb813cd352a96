-- ===== src/Knobs.antt =====
-- src/app_knob.c and src/app_knob.h: the application knobs, named values that the configuration
-- file sets and the traced program asks for. A double is its bit pattern of 64 bits and an `int`
-- an integer; the conversions between them, which the hardware makes, are parameters.
pub mod Laws
use pinsight.Common.{
  ℕ, zero, suc, ◌+◌, ◌-◌, ◌*◌, ◌^◌, Bool, true, false, Option, none, some, List, [], ◌∷◌, ◌++◌,
  length, get_elem?, modify, ltb, leb, if◌then◌else◌, str_eq,
}
use pinsight.Common.Int.{ℤ, pos, negsuc}
use pinsight.Node.{take}

-- The union `value` together with the tag `type`, which says what was stored last.
pub data KnobValue : Type 0 where
  int_value : ℤ → KnobValue
  double_value : ℕ → KnobValue
  string_value : List ℕ → KnobValue

pub record AppKnob : Type 0 where
  pub name : List ℕ
  pub value : KnobValue

-- knob_table: the first num_knobs entries.
abbrev pub max_num_knobs : ℕ
max_num_knobs = 64

abbrev pub max_knob_name_len : ℕ
max_knob_name_len = 64

abbrev pub max_knob_string_len : ℕ
max_knob_string_len = 256

find_from : List ℕ → List AppKnob → ℕ → Option ℕ
find_from name [] i = none
find_from name (k ∷ ks) i =
    let rest = find_from name ks (i + 1) in if str_eq k.name name then some i else rest

-- -1 is `none`.
unfoldable pub find_knob : List AppKnob → List ℕ → Option ℕ
unfolding find_from
find_knob ks name = find_from name ks 0

-- The zeroed union that a new entry has under the tag of its type.
pub data KnobType : Type 0 where
  type_int type_double type_string : KnobType

abbrev pub zero_value : KnobType → KnobValue
zero_value type_int = int_value (pos 0)
zero_value type_double = double_value 0
zero_value type_string = string_value []

unfoldable pub find_or_create_knob : List AppKnob → List ℕ → KnobType → List AppKnob × Option ℕ
unfolding find_knob
find_or_create_knob ks name type = elim (find_knob ks name) [
  | some i ↦ (ks, some i)
  | none ↦ if leb max_num_knobs (length ks) then (ks, none) else (
    ks ++ record { name = take (max_knob_name_len - 1) name; value = zero_value type } ∷ [],
    some (length ks),
  )
]

abbrev pub with_value : KnobValue → AppKnob → AppKnob
with_value v k = record k { value = v }

-- The assignment that the three setters share; an index out of range changes nothing.
abbrev pub set_value : List AppKnob → ℕ → KnobValue → List AppKnob
set_value ks idx v = modify ks idx (with_value v)

unfoldable pub set_knob_int : List AppKnob → ℕ → ℤ → List AppKnob
set_knob_int ks idx v = set_value ks idx (int_value v)

unfoldable pub set_knob_double : List AppKnob → ℕ → ℕ → List AppKnob
set_knob_double ks idx v = set_value ks idx (double_value v)

unfoldable pub set_knob_string : List AppKnob → ℕ → List ℕ → List AppKnob
set_knob_string ks idx v = set_value ks idx (string_value (take (max_knob_string_len - 1) v))

-- The first n bytes of a string that zeroes follow, read as a little-endian number.
unfoldable pub bytes_value : ℕ → List ℕ → ℕ
bytes_value zero s = 0
bytes_value (suc n) [] = 0
bytes_value (suc n) (c ∷ s) = c + 256 * bytes_value n s

abbrev pub signed_32 : ℕ → ℤ
signed_32 u = if ltb u (2 ^ 31) then pos u else negsuc (2 ^ 32 - 1 - u)

unfoldable pub int_of : (ℕ → ℤ) → KnobValue → ℤ
unfolding bytes_value
int_of double_to_int (int_value v) = v
int_of double_to_int (double_value d) = double_to_int d
int_of double_to_int (string_value s) = signed_32 (bytes_value 4 s)

unfoldable pub double_of : (ℤ → ℕ) → KnobValue → ℕ
unfolding bytes_value
double_of int_to_double (int_value v) = int_to_double v
double_of int_to_double (double_value d) = d
double_of int_to_double (string_value s) = bytes_value 8 s

abbrev pub value_at : List AppKnob → Option ℕ → Option KnobValue
value_at ks none = none
value_at ks (some i) = elim (get_elem? ks i) [ none ↦ none | some k ↦ some k.value ]

-- The value under a name.
unfoldable pub look_up_knob : List AppKnob → List ℕ → Option KnobValue
unfolding find_knob
look_up_knob ks name = value_at ks (find_knob ks name)

unfoldable pub get_knob_int : (ℕ → ℤ) → List AppKnob → List ℕ → ℤ
unfolding look_up_knob int_of
get_knob_int double_to_int ks name = elim (look_up_knob ks name) [
  | none ↦ pos 0
  | some v ↦ int_of double_to_int v
]

unfoldable pub get_knob_double : (ℤ → ℕ) → List AppKnob → List ℕ → ℕ
unfolding look_up_knob double_of
get_knob_double int_to_double ks name = elim (look_up_knob ks name) [
  | none ↦ 0
  | some v ↦ double_of int_to_double v
]

-- `none` where the union holds another member, whose bytes the caller then reads as text.
abbrev pub text_of : KnobValue → Option (List ℕ)
text_of (string_value s) = some s
text_of _ = none

unfoldable pub get_knob_string : List AppKnob → List ℕ → Option (List ℕ)
unfolding look_up_knob
get_knob_string ks name = elim (look_up_knob ks name) [ none ↦ some [] | some v ↦ text_of v ]
