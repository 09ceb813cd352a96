-- ===== src/BitSet/Ranges/Laws.antt =====
-- The loop over the ranges of a text: it ends, and a range adds exactly its indices.
use pinsight.Common.{
  ℕ, zero, suc, ◌+◌, ◌-◌, ◌≤◌, ◌<◌, ◌^◌, Bool, true, false, ◌&&◌, ◌||◌, Option, none, some, List,
  [], ◌∷◌, length, ltb, leb, ◌==◌, ◌≡◌, arith, inl, inr, Bool-cases, Option-cases, is_digit,
  skip_spaces, behind_digits, digits_value, digit_value, both_branches, subst,
}
use pinsight.BitSet.{BitSet, set_bit, test}
use pinsight.BitSet.Laws.{IsValid, set_bit-IsValid, test-set_bit, nbits-set_bit}
use pinsight.BitSet.Ranges.{
  Number, Range, Step, stop, more, Ranges, accepted, rejected, unfinished, parse_uint, at_digit,
  to_ulong, parse_range, range_to, range_end, set_range, skip_separators, behind_range, add_range,
  at_range, step, range_rounds,
}

pub length-skip_spaces : (s : List ℕ) → length (skip_spaces s) ≤ length s
unfolding skip_spaces
length-skip_spaces [] = omega arith
length-skip_spaces (c ∷ s) = ground (arith, length-skip_spaces s)

length-skip_separators : (s : List ℕ) → length (skip_separators s) ≤ length s
unfolding skip_separators
length-skip_separators [] = omega arith
length-skip_separators (c ∷ s) = ground (arith, length-skip_separators s)

length-behind_digits : (s : List ℕ) → length (behind_digits 10 s) ≤ length s
unfolding behind_digits
length-behind_digits [] = omega arith
length-behind_digits (c ∷ s) = ground (arith, length-behind_digits s)

-- What is left of a text is shorter than the text.
abbrev Shortens : List ℕ → Option Number → Type 0
Shortens s none = Unit
Shortens s (some n) = length n.rest < length s

behind_first :
    (c : ℕ) (s : List ℕ) → is_digit c ≡ true → length (behind_digits 10 (c ∷ s)) ≤ length s
unfolding behind_digits
behind_first c s h =
    let d : ltb (digit_value c) 10 ≡ true = ground arith in rw d (length-behind_digits s)

to_ulong-Shortens :
    (t s : List ℕ) → length (behind_digits 10 t) < length s → Shortens s (to_ulong t)
unfolding to_ulong digits_value behind_digits
to_ulong-Shortens t s h = both_branches (Shortens s) (ltb (digits_value 10 0 t) (2 ^ 64)) h tt

at_digit-Shortens : (s : List ℕ) → Shortens s (at_digit s)
at_digit-Shortens [] = tt
at_digit-Shortens (c ∷ s) = elim (Bool-cases (is_digit c)) [
  | inr p ↦ rw p tt
  | inl p ↦ rw p (to_ulong-Shortens (c ∷ s) (c ∷ s) (omega (arith, behind_first c s p)))
]

Shortens-trans :
    (t s : List ℕ) (o : Option Number) → length t ≤ length s → Shortens t o → Shortens s o
Shortens-trans t s none h k = tt
Shortens-trans t s (some n) h k = omega (arith, h, k)

parse_uint-Shortens : (s : List ℕ) → Shortens s (parse_uint s)
unfolding parse_uint
parse_uint-Shortens s =
    Shortens-trans (skip_spaces s) s (at_digit (skip_spaces s)) (length-skip_spaces s)
      (at_digit-Shortens (skip_spaces s))

abbrev RangeShortens : List ℕ → Option Range → Type 0
RangeShortens s none = Unit
RangeShortens s (some r) = length r.rest < length s

range_to-RangeShortens :
    (start : ℕ) (s : List ℕ) (o : Option Number) → Shortens s o → RangeShortens s (range_to start o)
range_to-RangeShortens start s none h = tt
range_to-RangeShortens start s (some n) h =
    both_branches (RangeShortens s) (ltb n.number start) tt h

range_end-RangeShortens :
    (start : ℕ) (t s : List ℕ) → length t < length s → RangeShortens s (range_end start t)
unfolding range_end parse_uint
range_end-RangeShortens start [] s h = h
range_end-RangeShortens start (c ∷ t) s h = go (c == 45)
  where
    go :
        (b : Bool)
        → RangeShortens s (elim b [
          | true ↦ range_to start (parse_uint (skip_spaces t))
          | false ↦ some (record { first = start; last = start; rest = c ∷ t })
        ])
    go false = h
    go true = range_to-RangeShortens start s (parse_uint (skip_spaces t)) (
        Shortens-trans (skip_spaces t) s (parse_uint (skip_spaces t))
          (omega (arith, length-skip_spaces t)) (parse_uint-Shortens (skip_spaces t)))

RangeShortens-trans :
    (t s : List ℕ) (o : Option Range) → length t ≤ length s → RangeShortens t o → RangeShortens s o
RangeShortens-trans t s none h k = tt
RangeShortens-trans t s (some r) h k = omega (arith, h, k)

parse_range-RangeShortens : (s : List ℕ) → RangeShortens s (parse_range s)
unfolding parse_range
parse_range-RangeShortens s = elim (Option-cases (parse_uint s)) [
  | inl e ↦ rw (e, parse_range) tt
  | inr (n, e) ↦
      let h : Shortens s (some n) =
        subst (λ (o : Option Number). Shortens s o) e (parse_uint-Shortens s) in
      rw (e, parse_range)
        (range_end-RangeShortens n.number (skip_spaces n.rest) s
          (omega (arith, length-skip_spaces n.rest)))
]

abbrev StepShortens : List ℕ → Step → Type 0
StepShortens s (stop unfinished) = ⊥
StepShortens s (stop (accepted bs)) = Unit
StepShortens s (stop (rejected bs)) = Unit
StepShortens s (more bs t) = length t < length s

behind_range-StepShortens :
    (bs : BitSet) (t s : List ℕ) → length t < length s → StepShortens s (behind_range bs t)
behind_range-StepShortens bs [] s h = tt
behind_range-StepShortens bs (c ∷ t) s h = both_branches (StepShortens s) (c == 44) (omega arith) tt

add_range-StepShortens :
    (bs : BitSet) (s : List ℕ) (o : Option Range)
    → RangeShortens s o
    → StepShortens s (add_range bs o)
unfolding add_range set_range
add_range-StepShortens bs s none h = tt
add_range-StepShortens bs s (some r) h = both_branches (StepShortens s) (ltb bs.nbits r.last) tt (
    behind_range-StepShortens (set_range bs r.first (r.last + 1 - r.first)) (skip_spaces r.rest) s
      (omega (arith, length-skip_spaces r.rest)))

at_range-StepShortens :
    (bs : BitSet) (t s : List ℕ) → length t ≤ length s → StepShortens s (at_range bs t)
unfolding at_range set_range parse_range
at_range-StepShortens bs [] s h = tt
at_range-StepShortens bs (c ∷ t) s h =
    add_range-StepShortens bs s (parse_range (c ∷ t))
      (RangeShortens-trans (c ∷ t) s (parse_range (c ∷ t)) h (parse_range-RangeShortens (c ∷ t)))

step-StepShortens : (bs : BitSet) (s : List ℕ) → StepShortens s (step bs s)
unfolding step
step-StepShortens bs s = at_range-StepShortens bs (skip_separators s) s (length-skip_separators s)

-- The outcome of a loop that ended.
abbrev pub IsFinished : Ranges → Type 0
IsFinished unfinished = ⊥
IsFinished (accepted bs) = Unit
IsFinished (rejected bs) = Unit

-- The loop of bitset_parse_ranges ends on every text and every set, after at most one round more
-- than the text has characters.
pub range_rounds-IsFinished :
    (left : ℕ) (bs : BitSet) (s : List ℕ) → length s < left → IsFinished (range_rounds left bs s)
unfolding range_rounds
range_rounds-IsFinished zero bs s h = absurd (omega arith)
range_rounds-IsFinished (suc left) bs s h =
    go (step bs s) (step-StepShortens bs s)
      (λ bs' rest k. range_rounds-IsFinished left bs' rest (omega (arith, h, k)))
  where
    go :
        (o : Step)
        → StepShortens s o
        → ((bs' : BitSet) (rest : List ℕ)
            → length rest < length s
            → IsFinished (range_rounds left bs' rest))
        → IsFinished (elim o [ stop r ↦ r | more bs' rest ↦ range_rounds left bs' rest ])
    go (stop (accepted bs')) k more_rounds = tt
    go (stop (rejected bs')) k more_rounds = tt
    go (stop unfinished) k more_rounds = k
    go (more bs' rest) k more_rounds = more_rounds bs' rest k

pub set_range-IsValid : (bs : BitSet) (i n : ℕ) → IsValid bs → IsValid (set_range bs i n)
unfolding set_range
set_range-IsValid bs i zero v = v
set_range-IsValid bs i (suc n) v = set_range-IsValid (set_bit bs i) (i + 1) n (set_bit-IsValid i v)

-- The loop over a range adds exactly the indices of the range that the set can hold.
pub test-set_range :
    (bs : BitSet) (i n j : ℕ)
    → IsValid bs
    → test (set_range bs i n) j ≡ ((leb i j && ltb j (i + n) && leb j bs.nbits) || test bs j)
unfolding set_range
test-set_range bs i zero j v = ground arith
test-set_range bs i (suc n) j v = ground (
  arith,
  test-set_range (set_bit bs i) (i + 1) n j (set_bit-IsValid i v),
  test-set_bit bs i j v,
  nbits-set_bit bs i,
)
