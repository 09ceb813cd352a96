-- ===== src/BitSet/Print/Reading.antt =====
-- A printed range, read by the parser of ranges.
use pinsight.Common.{
  ℕ, ◌^◌, ◌≤◌, ◌<◌, false, some, List, [], ◌∷◌, ◌++◌, ltb, ◌==◌, ◌≡◌, refl, ap, arith, inl, inr,
  Bool-cases, skip_spaces,
}
use pinsight.BitSet.Ranges.{parse_range, range_end}
use pinsight.BitSet.Print.{Run, decimal, print_run}
use pinsight.BitSet.Print.Decimal.{
  NoDigit, HeadDigit, decimal-HeadDigit, skip_spaces-HeadDigit, parse_uint-decimal,
}

append_assoc : (s t u : List ℕ) → (s ++ t) ++ u ≡ s ++ (t ++ u)
append_assoc [] t u = refl
append_assoc (c ∷ s) t u = ap (λ (r : List ℕ). c ∷ r) (append_assoc s t u)

-- The end of the text, or a comma.
abbrev pub AtComma : List ℕ → Type 0
AtComma [] = Unit
AtComma (c ∷ s) = c ≡ 44

AtComma-NoDigit : (t : List ℕ) → AtComma t → NoDigit t
AtComma-NoDigit [] h = tt
AtComma-NoDigit (c ∷ t) h = rw h refl

pub skip_spaces-AtComma : (t : List ℕ) → AtComma t → skip_spaces t ≡ t
unfolding skip_spaces
skip_spaces-AtComma [] h = refl
skip_spaces-AtComma (c ∷ t) h = rw h refl

pub print_run-HeadDigit : (r : Run) (t : List ℕ) → HeadDigit (print_run r ++ t)
unfolding print_run
print_run-HeadDigit r t = elim (Bool-cases (r.start == r.end)) [
  | inl p ↦ rw p (decimal-HeadDigit r.start t)
  | inr p ↦
      rw (p, append_assoc (decimal r.start) (45 ∷ decimal r.end) t)
        (decimal-HeadDigit r.start (45 ∷ (decimal r.end ++ t)))
]

range_end-AtComma :
    (n : ℕ) (t : List ℕ)
    → AtComma t
    → range_end n t ≡ some (record { first = n; last = n; rest = t })
unfolding range_end
range_end-AtComma n [] h = refl
range_end-AtComma n (c ∷ t) h = rw h refl

parse_range-single :
    (n : ℕ) (t : List ℕ)
    → n < 10 ^ 10
    → AtComma t
    → parse_range (decimal n ++ t) ≡ some (record { first = n; last = n; rest = t })
unfolding parse_range
parse_range-single n t h a =
    rw (parse_uint-decimal n t h (AtComma-NoDigit t a), parse_range, skip_spaces-AtComma t a)
      (range_end-AtComma n t a)

range_end-last :
    (n m : ℕ) (t : List ℕ)
    → n ≤ m
    → m < 10 ^ 10
    → AtComma t
    → range_end n (45 ∷ (decimal m ++ t)) ≡ some (record { first = n; last = m; rest = t })
unfolding range_end
range_end-last n m t l h a =
    let ordered : ltb m n ≡ false = ground (arith, l) in
    rw
      (
        skip_spaces-HeadDigit (decimal m ++ t) (decimal-HeadDigit m t),
        parse_uint-decimal m t h (AtComma-NoDigit t a),
        ordered,
      )
      refl

parse_range-pair :
    (n m : ℕ) (t : List ℕ)
    → n ≤ m
    → m < 10 ^ 10
    → AtComma t
    → parse_range (decimal n ++ (45 ∷ (decimal m ++ t)))
      ≡ some (record { first = n; last = m; rest = t })
unfolding parse_range skip_spaces
parse_range-pair n m t l h a =
    rw (parse_uint-decimal n (45 ∷ (decimal m ++ t)) (omega (arith, l, h)) refl, parse_range)
      (range_end-last n m t l h a)

-- A range that was printed is read back, whatever follows its comma.
pub parse_range-print_run :
    (r : Run) (t : List ℕ)
    → r.start ≤ r.end
    → r.end < 10 ^ 10
    → AtComma t
    → parse_range (print_run r ++ t) ≡ some (record { first = r.start; last = r.end; rest = t })
unfolding print_run
parse_range-print_run r t l h a = elim (Bool-cases (r.start == r.end)) [
  | inl p ↦
      let e : r.end ≡ r.start = ground (arith, p) in
      rw (p, e) (parse_range-single r.start t (omega (arith, h, e)) a)
  | inr p ↦
      rw (p, append_assoc (decimal r.start) (45 ∷ decimal r.end) t)
        (parse_range-pair r.start r.end t l h a)
]
