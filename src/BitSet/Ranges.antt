-- ===== src/BitSet/Ranges.antt =====
-- src/bitset.c: bit sets as text, `0,2-4,11`. A pointer into the text is the text from there.
pub mod Laws
use pinsight.Common.{
  ℕ, zero, suc, ◌+◌, ◌-◌, ◌^◌, Bool, true, false, ◌||◌, Option, none, some, List, [], ◌∷◌, length,
  ltb, leb, ◌==◌, if◌then◌else◌, is_space, is_digit, skip_spaces, digits_value, behind_digits,
}
use pinsight.BitSet.{BitSet, reset, set_bit}

-- A number with the text behind it.
pub record Number : Type 0 where
  pub number : ℕ
  pub rest : List ℕ

-- strtoul on a text that starts with a digit; a number beyond an `unsigned long` sets errno.
unfoldable pub to_ulong : List ℕ → Option Number
unfolding digits_value behind_digits
to_ulong s =
    if ltb (digits_value 10 0 s) (2 ^ 64)
    then some (record { number = digits_value 10 0 s; rest = behind_digits 10 s })
    else none

abbrev pub at_digit : List ℕ → Option Number
at_digit [] = none
at_digit (c ∷ s) = if is_digit c then to_ulong (c ∷ s) else none

-- -1 is `none`.
unfoldable pub parse_uint : List ℕ → Option Number
unfolding skip_spaces digits_value behind_digits
parse_uint s = at_digit (skip_spaces s)

-- `first` or `first-last`, with the text behind it and its spaces.
pub record Range : Type 0 where
  pub first : ℕ
  pub last : ℕ
  pub rest : List ℕ

abbrev pub range_to : ℕ → Option Number → Option Range
range_to start none = none
range_to start (some n) =
    if ltb n.number start
    then none
    else some (record { first = start; last = n.number; rest = n.rest })

unfoldable pub range_end : ℕ → List ℕ → Option Range
unfolding parse_uint
range_end start [] = some (record { first = start; last = start; rest = [] })
range_end start (c ∷ s) = elim (c == 45) [
  | true ↦ range_to start (parse_uint (skip_spaces s))
  | false ↦ some (record { first = start; last = start; rest = c ∷ s })
]

unfoldable pub parse_range : List ℕ → Option Range
unfolding parse_uint
parse_range s = elim (parse_uint s) [
  | none ↦ none
  | some n ↦ range_end n.number (skip_spaces n.rest)
]

-- `for (i = start; i <= end; ++i) bitset_set(bs, i);` with the number of rounds.
unfoldable pub set_range : BitSet → ℕ → ℕ → BitSet
unfolding set_bit
set_range bs i zero = bs
set_range bs i (suc left) = set_range (set_bit bs i) (i + 1) left

unfoldable pub skip_separators : List ℕ → List ℕ
skip_separators [] = []
skip_separators (c ∷ s) =
    let rest = skip_separators s in if is_space c || (c == 44) then rest else c ∷ s

-- The result 0, the result -1, and a loop that was not given enough rounds.
pub data Ranges : Type 0 where
  accepted rejected : BitSet → Ranges
  unfinished : Ranges

-- A range at the start of a text: the set with it, and the text behind the comma that follows,
-- where there is one.
pub data Step : Type 0 where
  stop : Ranges → Step
  more : BitSet → List ℕ → Step

abbrev pub behind_range : BitSet → List ℕ → Step
behind_range bs [] = stop (accepted bs)
behind_range bs (c ∷ s) = if c == 44 then more bs s else stop (rejected bs)

unfoldable pub add_range : BitSet → Option Range → Step
unfolding set_range
add_range bs none = stop (rejected bs)
add_range bs (some r) =
    if ltb bs.nbits r.last
    then stop (rejected bs)
    else behind_range (set_range bs r.first (r.last + 1 - r.first)) (skip_spaces r.rest)

unfoldable pub at_range : BitSet → List ℕ → Step
unfolding set_range parse_range
at_range bs [] = stop (accepted bs)
at_range bs (c ∷ s) = add_range bs (parse_range (c ∷ s))

-- The body of the loop.
unfoldable pub step : BitSet → List ℕ → Step
unfolding set_range parse_range skip_separators
step bs s = at_range bs (skip_separators s)

unfoldable pub range_rounds : ℕ → BitSet → List ℕ → Ranges
unfolding step
range_rounds zero bs s = unfinished
range_rounds (suc left) bs s = elim (step bs s) [
  | stop r ↦ r
  | more bs' rest ↦ range_rounds left bs' rest
]

abbrev result : BitSet → Ranges → BitSet × Bool
result bs (accepted bs') = (bs', true)
result bs (rejected bs') = (bs', false)
result bs unfinished = (bs, false)

-- A round takes at least one character; false is the result -1.
unfoldable pub parse_ranges : BitSet → List ℕ → BitSet × Bool
unfolding range_rounds reset
parse_ranges bs spec = result bs (range_rounds (length spec + 1) (reset bs) spec)
