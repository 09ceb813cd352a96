-- ===== src/Common/Text.antt =====
-- C strings as lists of bytes, with the functions of ctype.h and string.h that the program calls.
use Prim.Native.Nat.{ℕ, ◌+◌, ◌-◌, ◌*◌}
use Prim.Native.Char.{code}
use Prim.Native.String.{String}
use mathlib.Core.Bool.{Bool, true, false, ◌&&◌, ◌||◌}
use mathlib.Core.List.{List, [], ◌∷◌}
use pinsight.Common.Tests.{ltb, leb, ◌==◌, if◌then◌else◌}

-- The bytes of an ASCII text.
abbrev pub codes : String → List ℕ
codes String.[] = []
codes (String.◌∷◌ c s) = code c ∷ codes s

-- isspace and isdigit in the C locale.
abbrev pub is_space : ℕ → Bool
is_space c = (c == 32) || (leb 9 c && leb c 13)

abbrev pub is_digit : ℕ → Bool
is_digit c = leb b'0' c && leb c b'9'

abbrev pub to_lower : ℕ → ℕ
to_lower c = if leb b'A' c && leb c b'Z' then c + 32 else c

-- strcmp(s, t) == 0 and strcasecmp(s, t) == 0.
unfoldable pub str_eq : List ℕ → List ℕ → Bool
str_eq [] [] = true
str_eq (c ∷ s) (d ∷ t) = (c == d) && str_eq s t
str_eq _ _ = false

unfoldable pub str_case_eq : List ℕ → List ℕ → Bool
str_case_eq [] [] = true
str_case_eq (c ∷ s) (d ∷ t) = (to_lower c == to_lower d) && str_case_eq s t
str_case_eq _ _ = false

-- strncmp(s, p, strlen(p)) == 0.
unfoldable pub starts_with : List ℕ → List ℕ → Bool
starts_with s [] = true
starts_with [] (d ∷ p) = false
starts_with (c ∷ s) (d ∷ p) = (c == d) && starts_with s p

-- strncasecmp(s, p, strlen(p)) == 0.
unfoldable pub starts_with_case : List ℕ → List ℕ → Bool
starts_with_case s [] = true
starts_with_case [] (d ∷ p) = false
starts_with_case (c ∷ s) (d ∷ p) = (to_lower c == to_lower d) && starts_with_case s p

-- `while (isspace(*s)) s++;`
unfoldable pub skip_spaces : List ℕ → List ℕ
skip_spaces [] = []
skip_spaces (c ∷ s) = let rest = skip_spaces s in if is_space c then rest else c ∷ s

-- The value of a digit; 36 for any other character.
abbrev pub digit_value : ℕ → ℕ
digit_value c =
    if leb b'0' c && leb c b'9'
    then c - 48
    else if leb b'a' c && leb c b'z'
    then c - 87
    else if leb b'A' c && leb c b'Z'
    then c - 55
    else 36

-- The number that the digits at the start of a text write after n, and the text behind them.
unfoldable pub digits_value : ℕ → ℕ → List ℕ → ℕ
digits_value base n [] = n
digits_value base n (c ∷ s) =
    let rest = digits_value base (n * base + digit_value c) s in
    if ltb (digit_value c) base then rest else n

unfoldable pub behind_digits : ℕ → List ℕ → List ℕ
behind_digits base [] = []
behind_digits base (c ∷ s) =
    let rest = behind_digits base s in if ltb (digit_value c) base then rest else c ∷ s
