-- ===== src/BitSet/Scan.antt =====
-- src/bitset.c: the queries over whole sets. An index
-- that is found is returned as an `int`. In the loops the last argument counts the rounds that are left.
pub mod Laws
pub mod Whole
use pinsight.Common.{
  ℕ, zero, suc, ◌+◌, ◌-◌, ◌*◌, ◌/◌, ◌%◌, ◌^◌, bit_and, bit_or, Bool, true, false, not, ◌&&◌, ◌||◌,
  Option, none, some, List, [], ◌∷◌, get_or, ltb, leb, ◌==◌, if◌then◌else◌,
}
use pinsight.Common.Int.{ℤ, pos, negsuc}
use pinsight.Common.Words.{bit_not}
use pinsight.BitSet.{
  BitSet, Storage, value, array, is_inline, get_word, set_word, test, word_index, bits_per_word,
}

-- The inner loop from bit b upwards.
scan_word : ℕ → ℕ → ℕ → Option ℕ
scan_word w b zero = none
scan_word w b (suc left) =
    let rest = scan_word w (b + 1) left in if not (bit_and w (2 ^ b) == 0) then some b else rest

-- The index of a bit that was found, if it is one of the set's.
abbrev in_set : BitSet → ℕ → Option ℕ
in_set bs i = if leb i bs.nbits then some i else none

-- A word of zeroes is skipped.
abbrev scan_from : ℕ → ℕ → Option ℕ
scan_from w b = if w == 0 then none else scan_word w b (bits_per_word - b)

-- The loop over the words from wi on.
scan_words : BitSet → ℕ → ℕ → Option ℕ
scan_words bs wi zero = none
scan_words bs wi (suc left) = elim (scan_from (get_word bs wi) 0) [
  | none ↦ scan_words bs (wi + 1) left
  | some b ↦ in_set bs (wi * bits_per_word + b)
]

first_index : BitSet → Option ℕ
unfolding scan_words scan_word get_word
first_index bs = scan_words bs 0 bs.nwords

-- `(int)bit_index`.
abbrev pub as_int : ℕ → ℤ
as_int i = let m = i % 2 ^ 32 in if ltb m (2 ^ 31) then pos m else negsuc (2 ^ 32 - 1 - m)

-- The result of a search: the index as an `int`, or -1.
abbrev pub returned : Option ℕ → ℤ
returned none = negsuc 0
returned (some i) = as_int i

unfoldable pub first_set : BitSet → ℤ
unfolding first_index
first_set bs = returned (first_index bs)

-- `~0UL << b`.
abbrev high_mask : ℕ → ℕ
high_mask b = bit_not bits_per_word (2 ^ b - 1)

abbrev masked : ℕ → ℕ → ℕ
masked w b = if ltb 0 b then bit_and w (high_mask b) else w

-- The search from an index on: its own word first, then the words behind it.
next_from : BitSet → ℕ → ℕ → Option ℕ
unfolding scan_words scan_word get_word
next_from bs wi b = elim (scan_from (masked (get_word bs wi) b) b) [
  | none ↦ scan_words bs (wi + 1) (bs.nwords - (wi + 1))
  | some k ↦ in_set bs (wi * bits_per_word + k)
]

next_index : BitSet → ℕ → Option ℕ
unfolding next_from
next_index bs prev =
    let start = prev + 1 in
    if ltb bs.nbits start
    then none
    else if leb bs.nwords (word_index start)
    then none
    else next_from bs (word_index start) (start % bits_per_word)

unfoldable pub next_set : BitSet → ℤ → ℤ
unfolding first_set next_index
next_set bs (negsuc _) = first_set bs
next_set bs (pos prev) = returned (next_index bs prev)

-- `for (i = 0; i < dst->nwords; ++i)` of the two operations on whole sets, with the operation on
-- words; `dst` is another object than a and b.
combine : (ℕ → ℕ → ℕ) → BitSet → BitSet → BitSet → ℕ → ℕ → BitSet
combine op dst a b i zero = dst
combine op dst a b i (suc left) =
    combine op (set_word dst i (op (get_word a i) (get_word b i))) a b (i + 1) left

abbrev same_size : BitSet → BitSet → BitSet → Bool
same_size dst a b = (dst.nbits == a.nbits) && (dst.nbits == b.nbits)

unfoldable pub union : BitSet → BitSet → BitSet → BitSet
unfolding combine get_word set_word
union dst a b = if same_size dst a b then combine bit_or dst a b 0 dst.nwords else dst

unfoldable pub inter : BitSet → BitSet → BitSet → BitSet
unfolding combine get_word set_word
inter dst a b = if same_size dst a b then combine bit_and dst a b 0 dst.nwords else dst

same_words : List ℕ → List ℕ → ℕ → ℕ → Bool
same_words ws vs i zero = true
same_words ws vs i (suc left) = (get_or ws i 0 == get_or vs i 0) && same_words ws vs (i + 1) left

-- The two ways to compare the field `words`.
abbrev same_value : Storage → Storage → Bool
same_value (value v) (value w) = v == w
same_value _ _ = false

same_array : Storage → Storage → ℕ → Bool
unfolding same_words
same_array (array ws) (array vs) n = same_words ws vs 0 n
same_array _ _ n = false

unfoldable pub equal : BitSet → BitSet → Bool
unfolding same_array
equal a b =
    if not (a.nbits == b.nbits)
    then false
    else if (a.nwords == 0) && (b.nwords == 0)
    then true
    else if ltb a.nbits 64
    then same_value a.words b.words
    else same_array a.words b.words ((a.nbits + 63) / 64)
