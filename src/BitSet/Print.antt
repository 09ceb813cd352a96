-- ===== src/BitSet/Print.antt =====
-- src/bitset.c: a bit set as the text of its ranges, `0,2-4,11`. The memory for the buffer is taken
-- to be there, and the indices of the set to fit an `int`, so that -1 is the only negative result of
-- a search.
pub mod Laws
pub mod RoundTrip
pub mod Room
pub mod Reading
pub mod Decimal
use pinsight.Common.{
  ℕ, zero, suc, ◌+◌, ◌-◌, ◌*◌, ◌/◌, ◌%◌, Bool, true, false, ◌&&◌, Option, none, some, List, [], ◌∷◌,
  ◌++◌, length, ltb, leb, ◌==◌, if◌then◌else◌,
}
use pinsight.Common.Int.{ℤ, pos, negsuc}
use pinsight.BitSet.{BitSet}
use pinsight.BitSet.Scan.{first_set, next_set}

-- `end` and `next` behind the loop that extends a range.
record Extended : Type 0 where
  end : ℕ
  next : ℤ

-- `while (next != -1 && next == end + 1)`.
extend : ℕ → BitSet → ℕ → ℤ → Extended
unfolding next_set
extend zero bs end next = record { end = end; next = next }
extend (suc left) bs end (negsuc n) = record { end = end; next = negsuc n }
extend (suc left) bs end (pos n) =
    let rest = extend left bs n (next_set bs (pos n)) in
    if n == end + 1 then rest else record { end = end; next = pos n }

pub record Run : Type 0 where
  pub start : ℕ
  pub end : ℕ

-- The ranges that the loop over the members writes, from the index idx on. A range ends after at
-- most nbits extensions.
runs : ℕ → BitSet → ℤ → List Run
unfolding extend next_set
runs zero bs idx = []
runs (suc left) bs (negsuc n) = []
runs (suc left) bs (pos start) =
    let e = extend bs.nbits bs start (next_set bs (pos start)) in
    record { start = start; end = e.end } ∷ runs left bs e.next

-- The characters of `%d`, in front of the text behind it.
decimal_rounds : ℕ → ℕ → List ℕ → List ℕ
decimal_rounds zero n text = text
decimal_rounds (suc left) n text =
    let rest = decimal_rounds left (n / 10) ((b'0' + n % 10) ∷ text) in
    if ltb n 10 then (b'0' + n) ∷ text else rest

-- An `int` has at most ten digits.
pub decimal : ℕ → List ℕ
unfolding decimal_rounds
decimal n = decimal_rounds 10 n []

pub print_run : Run → List ℕ
unfolding decimal
print_run r =
    if r.start == r.end then decimal r.start else decimal r.start ++ (b'-' ∷ decimal r.end)

-- `buf` up to its end, and `len`, which counts the characters that did not fit as well.
pub record Buffer : Type 0 where
  pub text : List ℕ
  pub len : ℕ

abbrev pub take : ℕ → List ℕ → List ℕ
take zero s = []
take (suc n) [] = []
take (suc n) (c ∷ s) = c ∷ take n s

-- `len += snprintf(buf + len, size - len, ...)`, which cuts the text where it does not fit; once
-- len is beyond the size, size - len wraps and the write is outside the buffer (`none`).
pub print : ℕ → List ℕ → Buffer → Option Buffer
print size s b =
    if leb b.len size
    then some (record { text = b.text ++ take (size - 1 - b.len) s; len = b.len + length s })
    else none

pub put_comma : ℕ → Buffer → Buffer
put_comma size b =
    if ltb 0 b.len && ltb b.len (size - 1)
    then record { text = b.text ++ b',' ∷ []; len = b.len + 1 }
    else b

pub write_runs : ℕ → List Run → Buffer → Option Buffer
unfolding print print_run put_comma
write_runs size [] b = some b
write_runs size (r ∷ rs) b = elim (print size (print_run r) (put_comma size b)) [
  | none ↦ none
  | some b' ↦ write_runs size rs b'
]

-- The loop has at most one round for each index.
pub all_runs : BitSet → List Run
unfolding runs first_set
all_runs bs = runs (bs.nbits + 1) bs (first_set bs)

-- Six characters for each index, and one for the end.
abbrev pub buffer_size : BitSet → ℕ
buffer_size bs = (bs.nbits + 1) * 6 + 1

unfoldable pub to_rangestring : BitSet → Option (List ℕ)
unfolding all_runs write_runs
to_rangestring bs =
    elim (write_runs (buffer_size bs) (all_runs bs) (record { text = []; len = 0 })) [
      | none ↦ none
      | some b ↦ some b.text
    ]
