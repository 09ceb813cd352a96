-- ===== src/BitSet/Scan/Whole.antt =====
-- The operations on whole sets: union, intersection and the comparison.
use pinsight.Common.{
  ℕ, zero, suc, ◌+◌, ◌*◌, ◌/◌, ◌%◌, ◌^◌, ◌≤◌, ◌<◌, bit_and, bit_or, true, false, ◌&&◌, ◌||◌, List,
  get_or, set, ltb, leb, ◌==◌, if◌then◌else◌, ◌≡◌, refl, arith, inl, inr, Bool-cases, ◌∙◌, ◌≢◌,
  subst, get_or-set_ne,
}
use pinsight.Common.Words.{bit_at, bit_at-lt, bit_at-bit_or, bit_at-bit_and}
use pinsight.BitSet.{BitSet, is_inline, get_word, set_word, test, set_bit}
use pinsight.BitSet.Laws.{
  test-set_bit, IsValid, small, large, test_lem, get_word-set_word, set_word-IsValid,
  nbits-set_word,
}
use pinsight.BitSet.Scan.{combine, union, inter, equal, same_size, same_words}

nwords_lem : {bs : BitSet} → IsValid bs → bs.nwords ≡ bs.nbits / 64 + 1
nwords_lem (small v n h) = omega arith
nwords_lem (large ws n h e) = refl

nbits-combine :
    (op : ℕ → ℕ → ℕ) (dst a b : BitSet) (i left : ℕ) → (combine op dst a b i left).nbits ≡ dst.nbits
unfolding combine
nbits-combine op dst a b i zero = refl
nbits-combine op dst a b i (suc left) =
    nbits-combine op (set_word dst i (op (get_word a i) (get_word b i))) a b (i + 1) left
    ∙ nbits-set_word dst i (op (get_word a i) (get_word b i))

combine-IsValid :
    (op : ℕ → ℕ → ℕ) (dst a b : BitSet) (i left : ℕ)
    → IsValid dst
    → IsValid (combine op dst a b i left)
unfolding combine
combine-IsValid op dst a b i zero v = v
combine-IsValid op dst a b i (suc left) v =
    combine-IsValid op (set_word dst i (op (get_word a i) (get_word b i))) a b (i + 1) left
      (set_word-IsValid i (op (get_word a i) (get_word b i)) v)

-- Union and intersection keep a valid set valid.
pub union-inter-IsValid :
    (dst a b : BitSet) → IsValid dst → IsValid (union dst a b) × IsValid (inter dst a b)
unfolding union inter
union-inter-IsValid dst a b v = elim (Bool-cases (same_size dst a b)) [
  | inl p ↦ rw p (
    combine-IsValid bit_or dst a b 0 dst.nwords v,
    combine-IsValid bit_and dst a b 0 dst.nwords v,
  )
  | inr p ↦ rw p (v, v)
]

-- The loop at word i stores the words i, .., i + left - 1 and keeps the others.
get_word-combine :
    (op : ℕ → ℕ → ℕ) (dst a b : BitSet) (i left j : ℕ)
    → IsValid dst
    → i + left ≤ dst.nbits / 64 + 1
    → get_word (combine op dst a b i left) j
      ≡ (if leb i j && ltb j (i + left) then op (get_word a j) (get_word b j) else get_word dst j)
unfolding combine
get_word-combine op dst a b i zero j v h = ground arith
get_word-combine op dst a b i (suc left) j v h = ground (
  arith,
  get_word-combine op (set_word dst i (op (get_word a i) (get_word b i))) a b (i + 1) left j
      (set_word-IsValid i (op (get_word a i) (get_word b i)) v),
  nbits-set_word dst i (op (get_word a i) (get_word b i)),
  get_word-set_word i j (op (get_word a i) (get_word b i)) v,
)

test-combine :
    (op : ℕ → ℕ → ℕ) (dst a b : BitSet) (j : ℕ)
    → IsValid dst
    → test (combine op dst a b 0 dst.nwords) j ≡ (
        if ltb dst.nbits j
        then false
        else bit_at (j % 64) (op (get_word a (j / 64)) (get_word b (j / 64))) == 1)
test-combine op dst a b j v = ground (
  arith,
  test_lem (combine op dst a b 0 dst.nwords) j,
  nbits-combine op dst a b 0 dst.nwords,
  nwords_lem v,
  get_word-combine op dst a b 0 dst.nwords (j / 64) v,
)

-- bitset_or and bitset_and on sets of one size: the members of the result are the union and the
-- intersection of the members of the arguments, whatever the destination held before.
pub test-union-inter :
    (dst a b : BitSet) (j : ℕ)
    → IsValid dst
    → dst.nbits ≡ a.nbits
    → dst.nbits ≡ b.nbits
    → (test (union dst a b) j ≡ (test a j || test b j))
      × (test (inter dst a b) j ≡ (test a j && test b j))
unfolding union inter
test-union-inter dst a b j v p q = (
  ground (
    arith,
    test-combine bit_or dst a b j v,
    test_lem a j,
    test_lem b j,
    bit_at-bit_or (j % 64) (get_word a (j / 64)) (get_word b (j / 64)),
    bit_at-lt (j % 64) (get_word a (j / 64)),
    bit_at-lt (j % 64) (get_word b (j / 64)),
  ),
  ground (
    arith,
    test-combine bit_and dst a b j v,
    test_lem a j,
    test_lem b j,
    bit_at-bit_and (j % 64) (get_word a (j / 64)) (get_word b (j / 64)),
    bit_at-lt (j % 64) (get_word a (j / 64)),
    bit_at-lt (j % 64) (get_word b (j / 64)),
  ),
)

same_words_iff :
    (ws vs : List ℕ) (i n : ℕ)
    → same_words ws vs i n ≡ true
    → (j : ℕ) → i ≤ j
    → j < i + n
    → get_or {A = ℕ} ws j 0 ≡ get_or vs j 0
unfolding same_words
same_words_iff ws vs i zero h j p q = absurd (omega arith)
same_words_iff ws vs i (suc n) h j p q = elim (Bool-cases (i == j)) [
  | inl s ↦
      let e : i ≡ j = ground arith in
      subst (λ (k : ℕ). get_or {A = ℕ} ws k 0 ≡ get_or vs k 0) e (ground arith)
  | inr s ↦ same_words_iff ws vs (i + 1) n (ground arith) j (ground arith) (omega arith)
]

same_words-set : (ws : List ℕ) (k w i n : ℕ) → i + n ≤ k → same_words ws (set ws k w) i n ≡ true
unfolding same_words
same_words-set ws k w i zero h = refl
same_words-set ws k w i (suc n) h =
    ground (arith, get_or-set_ne ws k i w 0, same_words-set ws k w (i + 1) n)

equal-words :
    {a b : BitSet} (i : ℕ)
    → IsValid a
    → IsValid b
    → a.nbits % 64 ≢ 0
    → i * 64 ≤ a.nbits
    → equal a b ≡ true
    → (a.nbits ≡ b.nbits) × (get_word a i ≡ get_word b i)
unfolding equal get_word
equal-words i (small v n h) (small w m k) ne l e = ground arith
equal-words i (small v n h) (large ws m k q) ne l e = absurd (ground arith)
equal-words i (large ws n h q) (small v m k) ne l e = absurd (ground arith)
equal-words i (large ws n h q) (large vs m k r) ne l e =
    ground (arith, same_words_iff ws vs 0 ((n + 63) / 64) _ i)

-- bitset_equal on two valid sets whose largest index is no multiple of 64: if it says that they
-- are equal, they have the same members.
pub equal_sound :
    (a b : BitSet) (j : ℕ)
    → IsValid a
    → IsValid b
    → a.nbits % 64 ≢ 0
    → equal a b ≡ true
    → test a j ≡ test b j
equal_sound a b j v w n e = elim (Bool-cases (ltb a.nbits j)) [
  | inl p ↦ ground (arith, test_lem a j, test_lem b j, equal-words 0 v w n (omega arith) e)
  | inr p ↦ ground (arith, test_lem a j, test_lem b j, equal-words (j / 64) v w n (ground arith) e)
]

equal-set_last :
    (a : BitSet) → IsValid a → 64 ≤ a.nbits → a.nbits % 64 ≡ 0 → equal a (set_bit a a.nbits) ≡ true
unfolding equal set_bit set_word is_inline
equal-set_last a (small v n h) l m = absurd (omega arith)
equal-set_last a (large ws n h e) l m = ground (
  arith,
  same_words-set ws (n / 64) (bit_or (get_or ws (n / 64) 0) (2 ^ (n % 64))) 0 ((n + 63) / 64),
)

-- bitset_equal compares (nbits + 63) / 64 words, one too few where nbits is a multiple of 64 from
-- 64 on: there adding nbits itself to a valid set that does not have it gives another set, with
-- this member more, that compares equal to it.
pub equal-ignores_last :
    (a : BitSet)
    → IsValid a
    → 64 ≤ a.nbits
    → a.nbits % 64 ≡ 0
    → test a a.nbits ≡ false
    → (equal a (set_bit a a.nbits) ≡ true) × (test (set_bit a a.nbits) a.nbits ≡ true)
equal-ignores_last a v l m t =
    (equal-set_last a v l m, ground (arith, test-set_bit a a.nbits a.nbits v))
