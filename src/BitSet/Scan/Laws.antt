-- ===== src/BitSet/Scan/Laws.antt =====
-- The searches find the least member of a set from an index on, and nothing exactly where there
-- is none.
use pinsight.Common.{
  ℕ, zero, suc, ◌+◌, ◌-◌, ◌*◌, ◌/◌, ◌%◌, ◌^◌, ◌≤◌, ◌<◌, true, false, Option, none, some, ltb, leb,
  ◌==◌, ◌≡◌, arith, inl, inr, Bool-cases, ◌∙◌, sym, subst, refl,
}
use pinsight.Common.Int.{ℤ, pos, negsuc}
use pinsight.Common.Words.{
  bit_at, bit_at-lt, bit_at-bit_and, bit_at-bit_not, bit_and-pow_test, bit_at-low, bit_at-zero,
}
use native.Mathlib.Nat.{pow-le-pow_right}
use pinsight.BitSet.{BitSet, get_word, test, word_index}
use pinsight.BitSet.Laws.{IsValid, small, large, test_lem}
use pinsight.BitSet.Scan.{
  scan_word, scan_words, scan_from, first_set, next_set, first_index, next_index, as_int, returned,
  next_from, masked, high_mask, in_set,
}

-- The result of a search over the places lo..hi-1 of a word.
abbrev FoundBit : ℕ → ℕ → ℕ → Option ℕ → Type 0
FoundBit w lo hi none = (k : ℕ) → lo ≤ k → k < hi → bit_at k w ≡ 0
FoundBit w lo hi (some i) =
    (lo ≤ i) × (i < hi) × (bit_at i w ≡ 1) × ((k : ℕ) → lo ≤ k → k < i → bit_at k w ≡ 0)

FoundBit-miss :
    (w lo hi : ℕ) (r : Option ℕ) → bit_at lo w ≡ 0 → FoundBit w (lo + 1) hi r → FoundBit w lo hi r
FoundBit-miss w lo hi none e h = λ k p q. elim (Bool-cases (lo == k)) [
  | inl s ↦ let s' : lo ≡ k = ground arith in rw (← s') e
  | inr n ↦ h k (ground arith) q
]
FoundBit-miss w lo hi (some i) e h = (
  omega arith,
  h.1,
  h.2,
  λ k p q. elim (Bool-cases (lo == k)) [
    | inl s ↦ let s' : lo ≡ k = ground arith in rw (← s') e
    | inr n ↦ h.3 k (ground arith) q
  ],
)

scan_word-FoundBit : (w b left hi : ℕ) → b + left ≡ hi → FoundBit w b hi (scan_word w b left)
unfolding scan_word
scan_word-FoundBit w b zero hi e = λ k p q. absurd (omega arith)
scan_word-FoundBit w b (suc left) hi e = elim (Bool-cases (bit_at b w == 1)) [
  | inl p ↦
      rw (bit_and-pow_test b w, p)
        (omega arith, omega arith, ground arith, λ k r q. absurd (omega arith))
  | inr p ↦
      rw (bit_and-pow_test b w, p)
        (FoundBit-miss w b hi (scan_word w (b + 1) left) (ground (arith, bit_at-lt b w))
          (scan_word-FoundBit w (b + 1) left hi (omega arith)))
]

scan_from-FoundBit : (w b : ℕ) → b < 64 → FoundBit w b 64 (scan_from w b)
scan_from-FoundBit w b l = elim (Bool-cases (w == 0)) [
  | inl p ↦ let e : w ≡ 0 = ground arith in rw e (λ k q r. bit_at-zero k)
  | inr p ↦ rw p (scan_word-FoundBit w b (64 - b) 64 (omega arith))
]

-- The result of a search for the members from lo on.
abbrev IsNextIndex : BitSet → ℕ → Option ℕ → Type 0
IsNextIndex bs lo none = (j : ℕ) → lo ≤ j → test bs j ≡ false
IsNextIndex bs lo (some i) =
    (lo ≤ i) × (test bs i ≡ true) × ((j : ℕ) → lo ≤ j → j < i → test bs j ≡ false)

-- A bit that is zero is no member.
test-zero : (bs : BitSet) (j : ℕ) → bit_at (j % 64) (get_word bs (j / 64)) ≡ 0 → test bs j ≡ false
test-zero bs j h = ground (arith, test_lem bs j)

pub test-above : (bs : BitSet) (j : ℕ) → bs.nbits < j → test bs j ≡ false
test-above bs j h = ground (arith, test_lem bs j)

-- A bit that a word's search found decides the search of the set.
IsNextIndex-hit :
    (bs : BitSet) (wi b k : ℕ)
    → b < 64
    → (b ≤ k)
      × (k < 64)
      × (bit_at k (get_word bs wi) ≡ 1)
      × ((m : ℕ) → b ≤ m → m < k → bit_at m (get_word bs wi) ≡ 0)
    → IsNextIndex bs (wi * 64 + b) (in_set bs (wi * 64 + k))
IsNextIndex-hit bs wi b k l h = elim (Bool-cases (leb (wi * 64 + k) bs.nbits)) [
  | inl p ↦ rw p (omega arith, member p, λ j q r. below j q r)
  | inr p ↦ rw p (λ j q. elim (Bool-cases (leb j bs.nbits)) [
    | inl s ↦ below j q (ground arith)
    | inr s ↦ test-above bs j (ground arith)
  ])
]
  where
    below : (j : ℕ) → wi * 64 + b ≤ j → j < wi * 64 + k → test bs j ≡ false
    below j q r =
        test-zero bs j
          (let e : j / 64 ≡ wi = omega arith in rw e (h.3 (j % 64) (omega arith) (omega arith)))

    member : leb (wi * 64 + k) bs.nbits ≡ true → test bs (wi * 64 + k) ≡ true
    member p =
        let e : (wi * 64 + k) / 64 ≡ wi = omega arith in
        let f : (wi * 64 + k) % 64 ≡ k = omega arith in
        rw (test_lem bs (wi * 64 + k), e, f, h.2) (ground arith)

zero_word :
    (bs : BitSet) (wi b : ℕ)
    → ((m : ℕ) → b ≤ m → m < 64 → bit_at m (get_word bs wi) ≡ 0)
    → (j : ℕ) → wi * 64 + b ≤ j
    → j < (wi + 1) * 64
    → test bs j ≡ false
zero_word bs wi b h j q r =
    test-zero bs j
      (let e : j / 64 ≡ wi = omega arith in rw e (h (j % 64) (omega arith) (omega arith)))

-- A word without a bit from b on leaves the search to the words behind it.
IsNextIndex-miss :
    (bs : BitSet) (wi b : ℕ) (r : Option ℕ)
    → b < 64
    → ((m : ℕ) → b ≤ m → m < 64 → bit_at m (get_word bs wi) ≡ 0)
    → IsNextIndex bs ((wi + 1) * 64) r
    → IsNextIndex bs (wi * 64 + b) r
IsNextIndex-miss bs wi b none l h n = λ j q. elim (Bool-cases (ltb j ((wi + 1) * 64))) [
  | inl s ↦ zero_word bs wi b h j q (ground arith)
  | inr s ↦ n j (ground arith)
]
IsNextIndex-miss bs wi b (some i) l h n = (
  omega arith,
  n.1,
  λ j q r. elim (Bool-cases (ltb j ((wi + 1) * 64))) [
    | inl s ↦ zero_word bs wi b h j q (ground arith)
    | inr s ↦ n.2 j (ground arith) r
  ],
)

-- One word of a search and then the rest.
searched_word :
    (bs : BitSet) (wi b : ℕ) (found rest : Option ℕ)
    → b < 64
    → FoundBit (get_word bs wi) b 64 found
    → IsNextIndex bs ((wi + 1) * 64) rest
    → IsNextIndex bs (wi * 64 + b) (elim found [ none ↦ rest | some k ↦ in_set bs (wi * 64 + k) ])
searched_word bs wi b none rest l f n = IsNextIndex-miss bs wi b rest l f n
searched_word bs wi b (some k) rest l f n = IsNextIndex-hit bs wi b k l f

scan_words-IsNextIndex :
    (bs : BitSet) (wi left : ℕ)
    → bs.nbits < (wi + left) * 64
    → IsNextIndex bs (wi * 64) (scan_words bs wi left)
unfolding scan_words
scan_words-IsNextIndex bs wi zero h = λ j p. test-above bs j (omega arith)
scan_words-IsNextIndex bs wi (suc left) h =
    let lo : wi * 64 ≡ wi * 64 + 0 = omega arith in
    rw lo (
      searched_word bs wi 0 (scan_from (get_word bs wi) 0) (scan_words bs (wi + 1) left)
        (omega arith) (scan_from-FoundBit (get_word bs wi) 0 (omega arith))
        (scan_words-IsNextIndex bs (wi + 1) left (omega arith)))

words_enough : {bs : BitSet} → IsValid bs → bs.nbits < bs.nwords * 64
words_enough (small v n h) = omega arith
words_enough (large ws n h e) = omega arith

-- The mask of bitset_next_set keeps the bits from b on.
low_lt : (b : ℕ) → b < 64 → 2 ^ b - 1 < 2 ^ 64
low_lt b h = omega (arith, pow-le-pow_right {n = 2} (omega arith) {i = b} {j = 63} (omega arith))

bit_at-masked : (w b k : ℕ) → b < 64 → b ≤ k → k < 64 → bit_at k (masked w b) ≡ bit_at k w
bit_at-masked w b k h p q = ground (
  arith,
  bit_at-bit_and k w (high_mask b),
  bit_at-bit_not k 64 (2 ^ b - 1) q (low_lt b h),
  bit_at-low k b,
  bit_at-lt k w,
)

FoundBit-masked :
    (w b : ℕ) (r : Option ℕ) → b < 64 → FoundBit (masked w b) b 64 r → FoundBit w b 64 r
FoundBit-masked w b none l f = λ k p q. sym (bit_at-masked w b k l p q) ∙ f k p q
FoundBit-masked w b (some i) l f = (
  f.0,
  f.1,
  sym (bit_at-masked w b i l f.0 f.1) ∙ f.2,
  λ k p q. sym (bit_at-masked w b k l p (omega arith)) ∙ f.3 k p q,
)

next_from-IsNextIndex :
    (bs : BitSet) (wi b : ℕ)
    → IsValid bs
    → b < 64
    → wi < bs.nwords
    → IsNextIndex bs (wi * 64 + b) (next_from bs wi b)
unfolding next_from
next_from-IsNextIndex bs wi b v l h =
    searched_word bs wi b (scan_from (masked (get_word bs wi) b) b)
      (scan_words bs (wi + 1) (bs.nwords - (wi + 1))) l
      (FoundBit-masked (get_word bs wi) b (scan_from (masked (get_word bs wi) b) b) l
        (scan_from-FoundBit (masked (get_word bs wi) b) b l))
      (scan_words-IsNextIndex bs (wi + 1) (bs.nwords - (wi + 1)) (omega (arith, words_enough v)))

-- On a valid set bitset_first_set returns the least member, and -1 exactly if there is none.
first_index-IsNextIndex : (bs : BitSet) → IsValid bs → IsNextIndex bs 0 (first_index bs)
unfolding first_index
first_index-IsNextIndex bs v = scan_words-IsNextIndex bs 0 bs.nwords (omega (arith, words_enough v))

next_index-IsNextIndex :
    (bs : BitSet) (prev : ℕ) → IsValid bs → IsNextIndex bs (prev + 1) (next_index bs prev)
unfolding next_index
next_index-IsNextIndex bs prev v = elim (Bool-cases (ltb bs.nbits (prev + 1))) [
  | inl p ↦ rw p (λ j q. test-above bs j (ground arith))
  | inr p ↦
      rw
        (
          p,
          (let e : leb bs.nwords (word_index (prev + 1)) ≡ false = ground (arith, words_enough v) in
              e),
        )
        (let s : prev + 1 ≡ (prev + 1) / 64 * 64 + (prev + 1) % 64 = omega arith in
          subst (λ (lo : ℕ). IsNextIndex bs lo (next_from bs ((prev + 1) / 64) ((prev + 1) % 64)))
            (sym s)
            (next_from-IsNextIndex bs ((prev + 1) / 64) ((prev + 1) % 64) v (omega arith)
              (ground (arith, words_enough v))))
]

-- The result of a search for the members from lo on: -1, or the least member.
abbrev pub IsNext : BitSet → ℕ → ℤ → Type 0
IsNext bs lo (negsuc zero) = (j : ℕ) → lo ≤ j → test bs j ≡ false
IsNext bs lo (negsuc (suc n)) = ⊥
IsNext bs lo (pos i) =
    (lo ≤ i) × (test bs i ≡ true) × ((j : ℕ) → lo ≤ j → j < i → test bs j ≡ false)

pub member-le : (bs : BitSet) (j : ℕ) → test bs j ≡ true → j ≤ bs.nbits
member-le bs j h = elim (Bool-cases (ltb bs.nbits j)) [
  | inl p ↦
      let f : test bs j ≡ false = test-above bs j (ground (arith, p)) in
      absurd (ground (arith, f, h))
  | inr p ↦ ground (arith, p)
]

as_int-small : (i : ℕ) → i < 2 ^ 31 → as_int i ≡ pos i
as_int-small i h =
    let e : i % 2 ^ 32 ≡ i = omega (arith, h) in
    let l : ltb i (2 ^ 31) ≡ true = ground (arith, h) in rw (e, l) refl

returned-IsNext :
    (bs : BitSet) (lo : ℕ) (o : Option ℕ)
    → bs.nbits < 2 ^ 31
    → IsNextIndex bs lo o
    → IsNext bs lo (returned o)
returned-IsNext bs lo none l h = h
returned-IsNext bs lo (some i) l h =
    subst (λ (z : ℤ). IsNext bs lo z) (sym (as_int-small i (omega (arith, l, member-le bs i h.1))))
      h

pub first_set-IsNext : (bs : BitSet) → IsValid bs → bs.nbits < 2 ^ 31 → IsNext bs 0 (first_set bs)
unfolding first_set
first_set-IsNext bs v l = returned-IsNext bs 0 (first_index bs) l (first_index-IsNextIndex bs v)

-- On a valid set whose indices fit an `int`, bitset_next_set returns the least member above
-- `prev`, and -1 exactly if there is none.
pub next_set-IsNext :
    (bs : BitSet) (prev : ℕ)
    → IsValid bs
    → bs.nbits < 2 ^ 31
    → IsNext bs (prev + 1) (next_set bs (pos prev))
unfolding next_set
next_set-IsNext bs prev v l =
    returned-IsNext bs (prev + 1) (next_index bs prev) l (next_index-IsNextIndex bs prev v)
