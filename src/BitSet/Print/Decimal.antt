-- ===== src/BitSet/Print/Decimal.antt =====
-- A number that was printed is read back, whatever the text behind it.
use pinsight.Common.{
  ℕ, zero, suc, ◌+◌, ◌*◌, ◌/◌, ◌%◌, ◌^◌, ◌<◌, true, false, some, List, [], ◌∷◌, ◌++◌, length, ◌≤◌,
  ltb, ◌≡◌, refl, ap, ◌∙◌, arith, inl, inr, Bool-cases, is_digit, is_space, skip_spaces,
  digit_value, digits_value, behind_digits,
}
use pinsight.BitSet.Ranges.{parse_uint, at_digit, to_ulong}
use pinsight.BitSet.Print.{decimal_rounds, decimal}

-- A text with no digit at its start.
abbrev pub NoDigit : List ℕ → Type 0
NoDigit [] = Unit
NoDigit (c ∷ s) = ltb (digit_value c) 10 ≡ false

abbrev pub HeadDigit : List ℕ → Type 0
HeadDigit [] = ⊥
HeadDigit (c ∷ s) = is_digit c ≡ true

digit-value : (d : ℕ) → d < 10 → digit_value (48 + d) ≡ d
digit-value d h = ground (arith, h)

digits_value-digit :
    (a d : ℕ) (t : List ℕ)
    → d < 10
    → digits_value 10 a ((48 + d) ∷ t) ≡ digits_value 10 (a * 10 + d) t
unfolding digits_value
digits_value-digit a d t h =
    let l : ltb d 10 ≡ true = ground (arith, h) in rw (digit-value d h, l) refl

behind_digits-digit :
    (d : ℕ) (t : List ℕ) → d < 10 → behind_digits 10 ((48 + d) ∷ t) ≡ behind_digits 10 t
unfolding behind_digits
behind_digits-digit d t h =
    let l : ltb d 10 ≡ true = ground (arith, h) in rw (digit-value d h, l) refl

digits_value-rounds :
    (left n : ℕ) (t : List ℕ)
    → n < 10 ^ left
    → digits_value 10 0 (decimal_rounds left n t) ≡ digits_value 10 n t
unfolding decimal_rounds
digits_value-rounds zero n t h = let z : n ≡ 0 = omega (arith, h) in rw z refl
digits_value-rounds (suc left) n t h = elim (Bool-cases (ltb n 10)) [
  | inl p ↦
      let e : 0 * 10 + n ≡ n = omega arith in
      rw p (digits_value-digit 0 n t (ground (arith, p)) ∙ ap (λ (k : ℕ). digits_value 10 k t) e)
  | inr p ↦
      let e : n / 10 * 10 + n % 10 ≡ n = omega arith in
      rw p (
        digits_value-rounds left (n / 10) ((48 + n % 10) ∷ t) (omega (arith, h))
        ∙ digits_value-digit (n / 10) (n % 10) t (omega arith)
        ∙ ap (λ (k : ℕ). digits_value 10 k t) e)
]

behind_digits-rounds :
    (left n : ℕ) (t : List ℕ) → behind_digits 10 (decimal_rounds left n t) ≡ behind_digits 10 t
unfolding decimal_rounds
behind_digits-rounds zero n t = refl
behind_digits-rounds (suc left) n t = elim (Bool-cases (ltb n 10)) [
  | inl p ↦ rw p (behind_digits-digit n t (ground (arith, p)))
  | inr p ↦ rw p (
      behind_digits-rounds left (n / 10) ((48 + n % 10) ∷ t)
      ∙ behind_digits-digit (n % 10) t (omega arith))
]

rounds-append :
    (left n : ℕ) (t u : List ℕ) → decimal_rounds left n t ++ u ≡ decimal_rounds left n (t ++ u)
unfolding decimal_rounds
rounds-append zero n t u = refl
rounds-append (suc left) n t u = elim (Bool-cases (ltb n 10)) [
  | inl p ↦ rw p refl
  | inr p ↦ rw p (rounds-append left (n / 10) ((48 + n % 10) ∷ t) u)
]

head_digit : (d : ℕ) → d < 10 → is_digit (48 + d) ≡ true
head_digit d h = ground (arith, h)

rounds-HeadDigit : (left n : ℕ) (t : List ℕ) → HeadDigit t → HeadDigit (decimal_rounds left n t)
unfolding decimal_rounds
rounds-HeadDigit zero n t h = h
rounds-HeadDigit (suc left) n t h = elim (Bool-cases (ltb n 10)) [
  | inl p ↦ rw p (head_digit n (ground (arith, p)))
  | inr p ↦
      rw p (rounds-HeadDigit left (n / 10) ((48 + n % 10) ∷ t) (head_digit (n % 10) (omega arith)))
]

pub decimal-HeadDigit : (n : ℕ) (t : List ℕ) → HeadDigit (decimal n ++ t)
unfolding decimal decimal_rounds
decimal-HeadDigit n t = elim (Bool-cases (ltb n 10)) [
  | inl p ↦ rw p (head_digit n (ground (arith, p)))
  | inr p ↦
      rw (p, rounds-append 9 (n / 10) ((48 + n % 10) ∷ []) t)
        (rounds-HeadDigit 9 (n / 10) ((48 + n % 10) ∷ t) (head_digit (n % 10) (omega arith)))
]

pub skip_spaces-HeadDigit : (s : List ℕ) → HeadDigit s → skip_spaces s ≡ s
unfolding skip_spaces
skip_spaces-HeadDigit [] h = refl
skip_spaces-HeadDigit (c ∷ s) h = let n : is_space c ≡ false = ground (arith, h) in rw n refl

at_digit-HeadDigit : (s : List ℕ) → HeadDigit s → at_digit s ≡ to_ulong s
at_digit-HeadDigit [] h = absurd h
at_digit-HeadDigit (c ∷ s) h = rw h refl

digits_value-NoDigit : (n : ℕ) (t : List ℕ) → NoDigit t → digits_value 10 n t ≡ n
unfolding digits_value
digits_value-NoDigit n [] h = refl
digits_value-NoDigit n (c ∷ t) h = rw h refl

behind_digits-NoDigit : (t : List ℕ) → NoDigit t → behind_digits 10 t ≡ t
unfolding behind_digits
behind_digits-NoDigit [] h = refl
behind_digits-NoDigit (c ∷ t) h = rw h refl

to_ulong-decimal :
    (n : ℕ) (t : List ℕ)
    → n < 10 ^ 10
    → NoDigit t
    → to_ulong (decimal n ++ t) ≡ some (record { number = n; rest = t })
unfolding to_ulong decimal
to_ulong-decimal n t h d =
    let l : ltb n (2 ^ 64) ≡ true = ground (arith, h) in
    rw
      (
        rounds-append 10 n [] t,
        digits_value-rounds 10 n t h,
        behind_digits-rounds 10 n t,
        digits_value-NoDigit n t d,
        behind_digits-NoDigit t d,
        l,
      )
      refl

pub parse_uint-decimal :
    (n : ℕ) (t : List ℕ)
    → n < 10 ^ 10
    → NoDigit t
    → parse_uint (decimal n ++ t) ≡ some (record { number = n; rest = t })
unfolding parse_uint
parse_uint-decimal n t h d =
    let digit : HeadDigit (decimal n ++ t) = decimal-HeadDigit n t in
    ap at_digit (skip_spaces-HeadDigit (decimal n ++ t) digit)
    ∙ at_digit-HeadDigit (decimal n ++ t) digit
    ∙ to_ulong-decimal n t h d

length-rounds :
    (left digits n : ℕ) (t : List ℕ)
    → n < 10 ^ suc digits
    → length (decimal_rounds left n t) ≤ suc digits + length t
unfolding decimal_rounds
length-rounds zero digits n t h = omega arith
length-rounds (suc left) zero n t h =
    let l : ltb n 10 ≡ true = ground (arith, h) in rw l (omega arith)
length-rounds (suc left) (suc digits) n t h = elim (Bool-cases (ltb n 10)) [
  | inl p ↦ rw p (omega arith)
  | inr p ↦
      rw p
        (omega (arith, length-rounds left digits (n / 10) ((48 + n % 10) ∷ t) (omega (arith, h))))
]

-- A number below 100,000 has at most five digits.
pub length-decimal : (n : ℕ) → n < 10 ^ 5 → length (decimal n) ≤ 5
unfolding decimal
length-decimal n h = omega (arith, length-rounds 10 4 n [] h)
