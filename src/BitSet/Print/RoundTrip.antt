-- ===== src/BitSet/Print/RoundTrip.antt =====
-- The text of a bit set, read by the parser of ranges.
use pinsight.Common.{
  some, ℕ, zero, suc, ◌+◌, ◌-◌, ◌^◌, ◌≤◌, ◌<◌, Bool, true, false, ◌&&◌, ◌||◌, List, [], ◌∷◌, ◌++◌,
  length, length-append, ltb, leb, ◌==◌, ◌≡◌, refl, ap, sym, ◌∙◌, arith, is_space, subst,
}
use pinsight.BitSet.{BitSet, test, reset, set_bit}
use pinsight.BitSet.Laws.{IsValid, reset-IsValid, test-reset, nbits-set_bit}
use pinsight.BitSet.Ranges.{
  Ranges, accepted, Step, parse_range, set_range, skip_separators, behind_range, add_range,
  at_range, step, more, stop, range_rounds, parse_ranges,
}
use pinsight.BitSet.Ranges.Laws.{test-set_range, set_range-IsValid}
use pinsight.BitSet.Print.{Run, print_run, all_runs, to_rangestring}
use pinsight.BitSet.Print.Decimal.{HeadDigit}
use pinsight.BitSet.Print.Laws.{covered, covered-all_runs, InBounds, all_runs-InBounds}
use pinsight.BitSet.Print.Room.{print_more, print_runs, to_rangestring_lem}
use pinsight.BitSet.Print.Reading.{
  AtComma, skip_spaces-AtComma, print_run-HeadDigit, parse_range-print_run,
}

abbrev set_runs : BitSet → List Run → BitSet
unfolding set_range
set_runs bs [] = bs
set_runs bs (r ∷ rs) = set_runs (set_range bs r.start (r.end + 1 - r.start)) rs

skip_separators-HeadDigit : (s : List ℕ) → HeadDigit s → skip_separators s ≡ s
unfolding skip_separators
skip_separators-HeadDigit [] h = refl
skip_separators-HeadDigit (c ∷ s) h =
    let n : (is_space c || (c == 44)) ≡ false = ground (arith, h) in rw n refl

at_range-HeadDigit :
    (bs : BitSet) (s : List ℕ) → HeadDigit s → at_range bs s ≡ add_range bs (parse_range s)
unfolding at_range
at_range-HeadDigit bs [] h = absurd h
at_range-HeadDigit bs (c ∷ s) h = refl

-- A round takes a range, up to the comma behind it.
step-print_run :
    (bs : BitSet) (r : Run) (t : List ℕ)
    → r.start ≤ r.end
    → r.end ≤ bs.nbits
    → bs.nbits < 10 ^ 10
    → AtComma t
    → step bs (print_run r ++ t) ≡ behind_range (set_range bs r.start (r.end + 1 - r.start)) t
unfolding step add_range
step-print_run bs r t l m n a =
    let digit : HeadDigit (print_run r ++ t) = print_run-HeadDigit r t in
    let fits : ltb bs.nbits r.end ≡ false = ground (arith, m) in
    ap (at_range bs) (skip_separators-HeadDigit (print_run r ++ t) digit)
    ∙ at_range-HeadDigit bs (print_run r ++ t) digit
    ∙ ap (add_range bs) (parse_range-print_run r t l (omega (arith, m, n)) a)
    ∙ rw (fits, skip_spaces-AtComma t a) refl

print_more-AtComma : (rs : List Run) → AtComma (print_more rs)
unfolding print_more
print_more-AtComma [] = tt
print_more-AtComma (r ∷ rs) = refl

nbits-set_range : (bs : BitSet) (i n : ℕ) → (set_range bs i n).nbits ≡ bs.nbits
unfolding set_range
nbits-set_range bs i zero = refl
nbits-set_range bs i (suc n) = nbits-set_range (set_bit bs i) (i + 1) n ∙ nbits-set_bit bs i

abbrev go_on : ℕ → Step → Ranges
unfolding range_rounds
go_on left o = elim o [ stop r ↦ r | more bs rest ↦ range_rounds left bs rest ]

go_on-print_more :
    (left : ℕ) (bs : BitSet) (rs : List Run)
    → range_rounds left bs (print_runs rs) ≡ accepted (set_runs bs rs)
    → go_on left (behind_range bs (print_more rs)) ≡ accepted (set_runs bs rs)
unfolding go_on print_more print_runs set_runs
go_on-print_more left bs [] h = refl
go_on-print_more left bs (r ∷ rs) h = h

-- Every range that was printed is read back, in one round each.
range_rounds-print_runs :
    (left : ℕ) (bs : BitSet) (rs : List Run)
    → length rs < left
    → InBounds bs.nbits rs
    → bs.nbits < 10 ^ 10
    → range_rounds left bs (print_runs rs) ≡ accepted (set_runs bs rs)
unfolding range_rounds print_runs go_on set_runs step at_range skip_separators
range_rounds-print_runs zero bs rs h b n = absurd (omega (arith, h))
range_rounds-print_runs (suc left) bs [] h b n = refl
range_rounds-print_runs (suc left) bs (r ∷ rs) h b n =
    let bs' : BitSet = set_range bs r.start (r.end + 1 - r.start) in
    let same : bs'.nbits ≡ bs.nbits = nbits-set_range bs r.start (r.end + 1 - r.start) in
    ap (go_on left) (step-print_run bs r (print_more rs) b.0 b.1 n (print_more-AtComma rs))
    ∙ go_on-print_more left bs' rs (
        range_rounds-print_runs left bs' rs (omega (arith, h))
          (subst (λ (k : ℕ). InBounds k rs) (sym same) b.2) (omega (arith, n, same)))

length-print_run : (r : Run) → 1 ≤ length (print_run r)
length-print_run r =
    omega (arith, go (print_run r ++ []) (print_run-HeadDigit r []), length-append (print_run r) [])
  where
    go : (s : List ℕ) → HeadDigit s → 1 ≤ length s
    go [] h = absurd h
    go (c ∷ s) h = omega arith

length-print_more : (rs : List Run) → length rs ≤ length (print_more rs)
unfolding print_more
length-print_more [] = omega arith
length-print_more (r ∷ rs) =
    omega (arith, length-append (print_run r) (print_more rs), length-print_more rs)

length-print_runs : (rs : List Run) → length rs ≤ length (print_runs rs)
unfolding print_runs
length-print_runs [] = omega arith
length-print_runs (r ∷ rs) =
    omega
      (arith, length-print_run r, length-append (print_run r) (print_more rs), length-print_more rs)

test-set_runs :
    (bs : BitSet) (rs : List Run) (j : ℕ)
    → IsValid bs
    → InBounds bs.nbits rs
    → test (set_runs bs rs) j ≡ (covered rs j || test bs j)
unfolding set_runs
test-set_runs bs [] j v b = refl
test-set_runs bs (r ∷ rs) j v b =
    let n : ℕ = r.end + 1 - r.start in
    let bs' : BitSet = set_range bs r.start n in
    let within : InBounds bs'.nbits rs =
      subst (λ (k : ℕ). InBounds k rs) (sym (nbits-set_range bs r.start n)) b.2 in
    test-set_runs bs' rs j (set_range-IsValid bs r.start n v) within
    ∙ ap (λ (t : Bool). covered rs j || t) (test-set_range bs r.start n j v)
    ∙ in_range r.start r.end bs.nbits j (covered rs j) (test bs j) b.0 b.1
  where
    in_range :
        (first last top j : ℕ) (c t : Bool)
        → first ≤ last
        → last ≤ top
        → (c || ((leb first j && ltb j (first + (last + 1 - first)) && leb j top) || t))
          ≡ (((leb first j && leb j last) || c) || t)
    in_range first last top j c t l m = ground (arith, l, m)

nbits-reset : (bs : BitSet) → (reset bs).nbits ≡ bs.nbits
unfolding reset
nbits-reset bs = ground arith

accepted_runs :
    (bs into : BitSet)
    → IsValid bs
    → IsValid into
    → into.nbits ≡ bs.nbits
    → bs.nbits < 2 ^ 31
    → ((parse_ranges into (print_runs (all_runs bs))).1 ≡ true)
      × ((j : ℕ) → test (parse_ranges into (print_runs (all_runs bs))).0 j ≡ test bs j)
unfolding parse_ranges
accepted_runs bs into v w e l =
    let rs : List Run = all_runs bs in
    let size : (reset into).nbits ≡ bs.nbits = nbits-reset into ∙ e in
    let within : InBounds (reset into).nbits rs =
      subst (λ (k : ℕ). InBounds k rs) (sym size) (all_runs-InBounds bs v l) in
    let read : range_rounds (length (print_runs rs) + 1) (reset into) (print_runs rs)
        ≡ accepted (set_runs (reset into) rs) =
      range_rounds-print_runs (length (print_runs rs) + 1) (reset into) rs
        (omega (arith, length-print_runs rs)) within (omega (arith, l, size)) in
    rw read (
      refl,
      λ j.
          test-set_runs (reset into) rs j (reset-IsValid w) within
          ∙ ap (λ (t : Bool). covered rs j || t) (test-reset into j w)
          ∙ or_false (covered rs j)
          ∙ (covered-all_runs bs v l).0 j,
    )
  where
    or_false : (b : Bool) → (b || false) ≡ b
    or_false true = refl
    or_false false = refl

-- bitset_to_rangestring has room for the text of a valid set whose indices are below 100,000. The
-- text is accepted by bitset_parse_ranges, and a valid set with the same indices then has the same
-- members, whatever it held before.
pub parse_ranges-to_rangestring :
    (bs into : BitSet)
    → IsValid bs
    → IsValid into
    → into.nbits ≡ bs.nbits
    → bs.nbits < 10 ^ 5
    → (text : List ℕ) × (to_rangestring bs ≡ some text)
      × ((parse_ranges into text).1 ≡ true)
      × ((j : ℕ) → test (parse_ranges into text).0 j ≡ test bs j)
parse_ranges-to_rangestring bs into v w e l =
    let read = accepted_runs bs into v w e (omega (arith, l)) in
    (
      print_runs (all_runs bs),
      to_rangestring_lem bs v l (λ r. omega (arith, length-print_run r)),
      read.0,
      read.1,
    )
