-- ===== src/BitSet/Laws.antt =====
-- What the operations on single bits do to the set of indices that `test` reads.
use pinsight.Common.{
  ℕ, zero, suc, ◌+◌, ◌/◌, ◌%◌, ◌^◌, ◌≤◌, ◌<◌, bit_and, bit_or, true, false, not, ◌&&◌, ◌||◌, List,
  length, get_or, set, replicate, ltb, leb, ◌==◌, if◌then◌else◌, ◌≡◌, refl, arith, ◌∙◌,
  get_or-set_self, get_or-set_ne, length-set, Bool-cases, lt→ltb, ltb→lt, inl, inr,
  length-replicate,
}
use pinsight.Common.Words.{
  bit_at, bit_at-lt, bit_not, bit_at-bit_or, bit_at-bit_and, bit_at-pow, bit_at-bit_not,
  bit_and-pow_test, bit_at-zero,
}
use native.Mathlib.Nat.{pow-le-pow_right}
use pinsight.BitSet.{
  BitSet, value, array, is_inline, get_word, set_word, init, reset, set_bit, clear_bit, test,
  word_index, bits_per_word,
}

not_ltb : (n k : ℕ) → k ≤ n → ltb n k ≡ false
not_ltb n k h = ground arith

mask_lt : (b : ℕ) → 2 ^ (b % 64) < 2 ^ 64
mask_lt b =
    omega (arith, pow-le-pow_right {n = 2} (omega arith) {i = b % 64} {j = 63} (omega arith))

-- A set as `init` makes it when memory is there, and as the operations keep it.
pub data IsValid : BitSet → Type 0 where
  small :
      (v n : ℕ) → n < bits_per_word → IsValid (record { words = value v; nbits = n; nwords = 1 })
  large :
      (ws : List ℕ) (n : ℕ)
      → bits_per_word ≤ n
      → length ws ≡ word_index n + 1
      → IsValid (record { words = array ws; nbits = n; nwords = word_index n + 1 })

pub get_word-set_word :
    {bs : BitSet} (i j w : ℕ)
    → IsValid bs
    → i ≤ word_index bs.nbits
    → get_word (set_word bs i w) j ≡ (if i == j then w else get_word bs j)
unfolding get_word set_word is_inline
get_word-set_word i j w (small v n h) le = ground arith
get_word-set_word i j w (large ws n h e) le =
    ground (arith, get_or-set_self ws i w 0, get_or-set_ne ws i j w 0)

pub set_word-IsValid : {bs : BitSet} (i w : ℕ) → IsValid bs → IsValid (set_word bs i w)
unfolding set_word is_inline
set_word-IsValid i w (small v n h) = elim (Bool-cases (ltb 0 i)) [
  | inl p ↦ rw (lt→ltb n 64 h, p) (small v n h)
  | inr p ↦ rw (lt→ltb n 64 h, p) (small w n h)
]
set_word-IsValid i w (large ws n h e) = elim (Bool-cases (leb (word_index n + 1) i)) [
  | inl p ↦ rw (not_ltb n 64 h, p) (large ws n h e)
  | inr p ↦ rw (not_ltb n 64 h, p) (large (set ws i w) n h (length-set ws i w ∙ e))
]

pub nbits-set_word : (bs : BitSet) (i w : ℕ) → (set_word bs i w).nbits ≡ bs.nbits
unfolding set_word
nbits-set_word bs i w = ground arith

-- Every operation on a valid set leaves it valid, with the same indices.
pub init-IsValid : (n : ℕ) → IsValid (init n true)
unfolding init
init-IsValid n = elim (Bool-cases (ltb n 64)) [
  | inl p ↦ rw p (small 0 n (ltb→lt n 64 p))
  | inr p ↦ rw p (large (replicate (word_index n + 1) 0) n (ground arith) (length-replicate _ 0))
]

pub set_bit-IsValid : {bs : BitSet} (b : ℕ) → IsValid bs → IsValid (set_bit bs b)
unfolding set_bit
set_bit-IsValid {bs} b v = elim (Bool-cases (ltb bs.nbits b)) [
  | inl p ↦ rw p v
  | inr p ↦ rw p (set_word-IsValid _ _ v)
]

pub clear_bit-IsValid : {bs : BitSet} (b : ℕ) → IsValid bs → IsValid (clear_bit bs b)
unfolding clear_bit
clear_bit-IsValid {bs} b v = elim (Bool-cases (ltb bs.nbits b)) [
  | inl p ↦ rw p v
  | inr p ↦ rw p (set_word-IsValid _ _ v)
]

pub reset-IsValid : {bs : BitSet} → IsValid bs → IsValid (reset bs)
unfolding reset
reset-IsValid (small v n h) = rw (lt→ltb n 64 h) (small 0 n h)
reset-IsValid (large ws n h e) =
    rw (not_ltb n 64 h) (large (replicate (word_index n + 1) 0) n h (length-replicate _ 0))

-- What `test` reads, as a bit of a word.
pub test_lem :
    (bs : BitSet) (j : ℕ)
    → test bs j ≡ (if ltb bs.nbits j then false else bit_at (j % 64) (get_word bs (j / 64)) == 1)
unfolding test
test_lem bs j = rw (bit_and-pow_test (j % 64) (get_word bs (j / 64)))

-- After bitset_set of b, exactly the old members and b itself are members, provided that b is no
-- larger than nbits; otherwise the set is as it was.
pub test-set_bit :
    (bs : BitSet) (b j : ℕ)
    → IsValid bs
    → test (set_bit bs b) j ≡ ((b == j && leb b bs.nbits) || test bs j)
unfolding set_bit
test-set_bit bs b j v = ground (
  arith,
  test_lem (set_word bs (b / 64) (bit_or (get_word bs (b / 64)) (2 ^ (b % 64)))) j,
  test_lem bs j,
  nbits-set_word bs (b / 64) (bit_or (get_word bs (b / 64)) (2 ^ (b % 64))),
  get_word-set_word (b / 64) (j / 64) (bit_or (get_word bs (b / 64)) (2 ^ (b % 64))) v,
  bit_at-bit_or (j % 64) (get_word bs (b / 64)) (2 ^ (b % 64)),
  bit_at-pow (j % 64) (b % 64),
  bit_at-lt (j % 64) (get_word bs (b / 64)),
)

-- After bitset_clear of b, on a valid set, exactly the old members other than b are members.
pub test-clear_bit :
    (bs : BitSet) (b j : ℕ) → IsValid bs → test (clear_bit bs b) j ≡ (not (b == j) && test bs j)
unfolding clear_bit
test-clear_bit bs b j v = ground (
  arith,
  test_lem (set_word bs (b / 64) (bit_and (get_word bs (b / 64)) (bit_not 64 (2 ^ (b % 64))))) j,
  test_lem bs j,
  nbits-set_word bs (b / 64) (bit_and (get_word bs (b / 64)) (bit_not 64 (2 ^ (b % 64)))),
  get_word-set_word (b / 64) (j / 64) (bit_and (get_word bs (b / 64)) (bit_not 64 (2 ^ (b % 64))))
      v,
  bit_at-bit_and (j % 64) (get_word bs (b / 64)) (bit_not 64 (2 ^ (b % 64))),
  bit_at-bit_not (j % 64) 64 (2 ^ (b % 64)) (omega arith) (mask_lt b),
  bit_at-pow (j % 64) (b % 64),
  bit_at-lt (j % 64) (get_word bs (b / 64)),
)

get_or-replicate : (n i : ℕ) → get_or {A = ℕ} (replicate n 0) i 0 ≡ 0
get_or-replicate zero i = refl
get_or-replicate (suc n) zero = refl
get_or-replicate (suc n) (suc i) = get_or-replicate n i

get_word-reset : {bs : BitSet} (i : ℕ) → IsValid bs → get_word (reset bs) i ≡ 0
unfolding reset get_word
get_word-reset i (small v n h) = ground arith
get_word-reset i (large ws n h e) = ground (arith, get_or-replicate (word_index n + 1) i)

-- A set that was reset has no member.
pub test-reset : (bs : BitSet) (j : ℕ) → IsValid bs → test (reset bs) j ≡ false
test-reset bs j v =
    ground (arith, test_lem (reset bs) j, get_word-reset (j / 64) v, bit_at-zero (j % 64))

pub nbits-set_bit : (bs : BitSet) (b : ℕ) → (set_bit bs b).nbits ≡ bs.nbits
unfolding set_bit
nbits-set_bit bs b = elim (Bool-cases (ltb bs.nbits b)) [
  | inl p ↦ rw p refl
  | inr p ↦ rw p (nbits-set_word bs (word_index b) _)
]
