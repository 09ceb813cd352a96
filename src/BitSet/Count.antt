-- ===== src/BitSet/Count.antt =====
-- src/bitset.c: the number of members of a set, and its members as zeroes and ones.
pub mod Laws
use pinsight.Common.{
  ℕ, zero, suc, ◌+◌, ◌-◌, bit_and, Bool, true, false, Option, none, some, List, [], ◌∷◌, ◌==◌,
  if◌then◌else◌,
}
use pinsight.BitSet.{BitSet, get_word, test}

-- The loop of popcount_ulong, which clears the lowest bit of x in each round; `none` is a loop
-- that was not given enough rounds.
unfoldable pub popcount_rounds : ℕ → ℕ → ℕ → Option ℕ
popcount_rounds zero x cnt = if x == 0 then some cnt else none
popcount_rounds (suc left) x cnt =
    let rest = popcount_rounds left (bit_and x (x - 1)) (cnt + 1) in
    if x == 0 then some cnt else rest

-- An `unsigned long` has 64 bits.
unfoldable pub popcount_ulong : ℕ → Option ℕ
unfolding popcount_rounds
popcount_ulong x = popcount_rounds 64 x 0

-- The loop over the words from i on.
unfoldable pub count_words : BitSet → ℕ → ℕ → ℕ → Option ℕ
unfolding popcount_ulong get_word
count_words bs i zero total = some total
count_words bs i (suc left) total = elim (popcount_ulong (get_word bs i)) [
  | none ↦ none
  | some n ↦ count_words bs (i + 1) left (total + n)
]

unfoldable pub count : BitSet → Option ℕ
unfolding count_words
count bs = count_words bs 0 bs.nwords 0

-- The characters of the indices below n, the highest first.
unfoldable pub digits_below : BitSet → ℕ → List ℕ
unfolding test
digits_below bs zero = []
digits_below bs (suc n) = (if test bs n then b'1' else b'0') ∷ digits_below bs n

unfoldable pub to_string : BitSet → List ℕ
unfolding digits_below
to_string bs = digits_below bs (bs.nbits + 1)
