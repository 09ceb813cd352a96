-- ===== src/Parse/Text.antt =====
-- src/trace_config_parse.c: trim_whitespace, and what the parser uses of the string functions of
-- the C library. A pointer into a text is the rest of the text from there; a 0 that is written
-- into a buffer cuts the text.
use pinsight.Common.{
  ℕ, zero, suc, ◌-◌, ◌%◌, ◌^◌, min, Bool, true, false, ◌&&◌, ◌||◌, Option, none, some, List, [],
  ◌∷◌, ltb, ◌==◌, if◌then◌else◌, reverse, skip_spaces, digit_value, digits_value, behind_digits,
}
use pinsight.Common.Int.{ℤ, pos, negsuc}
use pinsight.Node.{negated}

unfoldable pub drop : ℕ → List ℕ → List ℕ
drop zero s = s
drop (suc n) [] = []
drop (suc n) (c ∷ s) = drop n s

unfoldable pub trim_whitespace : List ℕ → List ℕ
unfolding skip_spaces
trim_whitespace s = reverse (skip_spaces (reverse (skip_spaces s)))

-- The same with blanks only.
unfoldable pub skip_blank : List ℕ → List ℕ
skip_blank [] = []
skip_blank (c ∷ s) = let rest = skip_blank s in if c == 32 then rest else c ∷ s

-- The blanks at the end are cut, but the first character stays.
unfoldable pub cut_blanks : List ℕ → List ℕ
unfolding skip_blank
cut_blanks [] = []
cut_blanks (c ∷ s) = c ∷ reverse (skip_blank (reverse s))

-- strchr: the text before the first c, all of it without one, and the text behind it.
unfoldable pub before : ℕ → List ℕ → List ℕ
before d [] = []
before d (c ∷ s) = let rest = before d s in if c == d then [] else c ∷ rest

unfoldable pub behind : ℕ → List ℕ → Option (List ℕ)
behind d [] = none
behind d (c ∷ s) = let rest = behind d s in if c == d then some s else rest

-- strrchr: the text before the last c.
unfoldable pub before_last : ℕ → List ℕ → List ℕ
unfolding behind
before_last d s = elim (behind d (reverse s)) [ none ↦ s | some r ↦ reverse r ]

-- strtok: the pieces between the delimiters that are not empty; `word` is the piece that was
-- begun, its last character first.
abbrev pub end_word : List ℕ → List (List ℕ) → List (List ℕ)
end_word [] ws = ws
end_word (c ∷ word) ws = reverse (c ∷ word) ∷ ws

unfoldable pub tokens_from : ℕ → List ℕ → List ℕ → List (List ℕ)
tokens_from d word [] = end_word word []
tokens_from d word (c ∷ s) = elim (c == d) [
  | true ↦ end_word word (tokens_from d [] s)
  | false ↦ tokens_from d (c ∷ word) s
]

unfoldable pub tokens : ℕ → List ℕ → List (List ℕ)
unfolding tokens_from
tokens d s = tokens_from d [] s

abbrev pub has_digit : ℕ → List ℕ → Bool
has_digit base [] = false
has_digit base (c ∷ s) = ltb (digit_value c) base

-- What strtol gives back: the number, and where it stops; `none` where no digit is read.
pub record Scanned : Type 0 where
  pub number : ℤ
  pub rest : List ℕ

-- A `long` has 64 bits; a number out of range is cut to the nearest one.
abbrev pub clamp : Bool → ℕ → ℤ
clamp false n = pos (min n (2 ^ 63 - 1))
clamp true n = negated (min n (2 ^ 63))

unfoldable pub scan_digits : ℕ → Bool → List ℕ → Option Scanned
unfolding digits_value behind_digits
scan_digits base negative s =
    if has_digit base s
    then some
        (record { number = clamp negative (digits_value base 0 s); rest = behind_digits base s })
    else none

-- Base 0: `0x` and a digit is hexadecimal, `0` octal, anything else decimal.
unfoldable pub scan_any : Bool → List ℕ → Option Scanned
unfolding scan_digits
scan_any negative [] = none
scan_any negative (c ∷ []) = scan_digits 10 negative (c ∷ [])
scan_any negative (c ∷ d ∷ s) =
    if c == b'0'
    then if ((d == b'x') || (d == b'X')) && has_digit 16 s
      then scan_digits 16 negative s
      else scan_digits 8 negative (c ∷ d ∷ s)
    else scan_digits 10 negative (c ∷ d ∷ s)

abbrev pub scan_sign : (Bool → List ℕ → Option Scanned) → List ℕ → Option Scanned
scan_sign scan [] = none
scan_sign scan (c ∷ s) =
    if c == b'-' then scan true s else if c == b'+' then scan false s else scan false (c ∷ s)

unfoldable pub strtol : ℕ → List ℕ → Option Scanned
unfolding skip_spaces scan_digits
strtol base s = scan_sign (λ negative t. scan_digits base negative t) (skip_spaces s)

-- strtol with base 0.
unfoldable pub strtol_any : List ℕ → Option Scanned
unfolding skip_spaces scan_any
strtol_any s = scan_sign (λ negative t. scan_any negative t) (skip_spaces s)

-- A number that fills the text.
abbrev pub whole : Option Scanned → Option ℤ
whole none = none
whole (some s) = elim s.rest [ [] ↦ some s.number | c ∷ t ↦ none ]

-- strtoull(s, NULL, 16) on a text that starts with `0x`.
unfoldable pub read_address : List ℕ → ℕ
unfolding digits_value
read_address [] = 0
read_address (c ∷ []) = 0
read_address (c ∷ d ∷ s) = min (digits_value 16 0 s) (2 ^ 64 - 1)

-- The conversions of a long to `unsigned int` and to `int`.
abbrev pub to_uint : ℤ → ℕ
to_uint (pos n) = n % 2 ^ 32
to_uint (negsuc n) = 2 ^ 32 - 1 - n % 2 ^ 32

abbrev pub to_signed : ℕ → ℤ
to_signed u = if ltb u (2 ^ 31) then pos u else negsuc (2 ^ 32 - 1 - u)

abbrev pub to_int : ℤ → ℤ
to_int z = to_signed (to_uint z)
