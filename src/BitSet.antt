-- ===== src/BitSet.antt =====
-- src/bitset.c and src/bitset.h: the bit sets that the punit constraints of the configuration hold.
-- A set of the indices 0..nbits keeps its only word in the pointer itself when nbits < 64, and
-- an array of nwords words on the heap otherwise. `NULL` arguments, which every function of the
-- file answers by returning at once, are not modelled.
pub mod Laws
pub mod Scan
pub mod Print
pub mod Ranges
pub mod Count
use pinsight.Common.{
  ℕ, zero, suc, ◌+◌, ◌-◌, ◌*◌, ◌/◌, ◌%◌, ◌^◌, bit_and, bit_or, Bool, true, false, not, Option, none,
  some, List, [], ◌∷◌, length, get_or, set, replicate, ltb, leb, ◌==◌, if◌then◌else◌,
}
use pinsight.Common.Words.{bit_not}

-- BITS_PER_WORD: an `unsigned long int` has 8 bytes.
abbrev pub bits_per_word : ℕ
bits_per_word = 64

abbrev pub word_index : ℕ → ℕ
word_index bit = bit / bits_per_word

-- BIT_MASK.
abbrev pub bit_mask : ℕ → ℕ
bit_mask bit = 2 ^ (bit % bits_per_word)

-- The field `words`: the bits themselves, or the array it points to. `value 0` is also NULL.
pub data Storage : Type 0 where
  value : ℕ → Storage
  array : List ℕ → Storage

pub record BitSet : Type 0 where
  pub words : Storage
  pub nbits : ℕ
  pub nwords : ℕ

unfoldable pub is_inline : BitSet → Bool
is_inline bs = ltb bs.nbits bits_per_word

-- The word at an index of a storage that is read as the value, or as the array.
abbrev pub value_word : Storage → ℕ → ℕ
value_word (value v) index = if ltb 0 index then 0 else v
value_word (array ws) index = 0

abbrev pub array_word : Storage → ℕ → ℕ → ℕ
array_word (value v) nwords index = 0
array_word (array ws) nwords index = if leb nwords index then 0 else get_or ws index 0

unfoldable pub get_word : BitSet → ℕ → ℕ
unfolding is_inline
get_word bs index =
    if is_inline bs then value_word bs.words index else array_word bs.words bs.nwords index

abbrev pub set_array_word : Storage → ℕ → ℕ → ℕ → Storage
set_array_word (value v) nwords index w = value v
set_array_word (array ws) nwords index w =
    if leb nwords index then array ws else array (set ws index w)

unfoldable pub set_word : BitSet → ℕ → ℕ → BitSet
unfolding is_inline
set_word bs index w =
    if is_inline bs
    then if ltb 0 index then bs else record bs { words = value w }
    else record bs { words = set_array_word bs.words bs.nwords index w }

-- `allocated` is whether calloc returns memory.
unfoldable pub init : ℕ → Bool → BitSet
init nbits allocated =
    if ltb nbits bits_per_word
    then record { words = value 0; nbits = nbits; nwords = 1 }
    else if allocated
    then record {
      words = array (replicate (word_index nbits + 1) 0);
      nbits = nbits;
      nwords = word_index nbits + 1;
    }
    else record { words = value 0; nbits = nbits; nwords = 0 }

-- What `free` gives back to the allocator is not kept.
unfoldable pub free : BitSet → BitSet
free bs = record { words = value 0; nbits = 0; nwords = 0 }

abbrev pub zero_storage : Storage → ℕ → Storage
zero_storage (value v) nwords = value v
zero_storage (array ws) nwords = array (replicate nwords 0)

unfoldable pub reset : BitSet → BitSet
unfolding is_inline
reset bs =
    if is_inline bs
    then record bs { words = value 0 }
    else record bs { words = zero_storage bs.words bs.nwords }

unfoldable pub set_bit : BitSet → ℕ → BitSet
unfolding get_word set_word
set_bit bs bit =
    if ltb bs.nbits bit
    then bs
    else set_word bs (word_index bit) (bit_or (get_word bs (word_index bit)) (bit_mask bit))

unfoldable pub clear_bit : BitSet → ℕ → BitSet
unfolding get_word set_word
clear_bit bs bit =
    if ltb bs.nbits bit
    then bs
    else set_word bs (word_index bit)
        (bit_and (get_word bs (word_index bit)) (bit_not bits_per_word (bit_mask bit)))

unfoldable pub test : BitSet → ℕ → Bool
unfolding get_word
test bs bit =
    if ltb bs.nbits bit
    then false
    else not (bit_and (get_word bs (word_index bit)) (bit_mask bit) == 0)
