-- ===== src/BitSet/Count/Laws.antt =====
-- The count of the bits of a word ends and is right.
use pinsight.Common.{
  ℕ, zero, suc, ◌+◌, ◌-◌, ◌/◌, ◌%◌, ◌^◌, ◌≤◌, ◌<◌, min, bit_and, false, some, ◌==◌, ◌≡◌, refl,
  arith, inl, inr, Bool-cases, ap, ◌∙◌, sym,
}
use pinsight.Common.Words.{bit_at, bit_at-bit_and, bit_and-le}
use native.Mathlib.Nat.{pow-suc}
use pinsight.BitSet.Count.{popcount_rounds, popcount_ulong}

-- The number of ones among the n lowest bits.
unfoldable pub ones : ℕ → ℕ → ℕ
ones zero x = 0
ones (suc n) x = x % 2 + ones n (x / 2)

-- The same of the bits that two words share.
abbrev shared : ℕ → ℕ → ℕ → ℕ
shared zero x y = 0
shared (suc n) x y = min (x % 2) (y % 2) + shared n (x / 2) (y / 2)

shared_same : (n x : ℕ) → shared n x x ≡ ones n x
unfolding ones
shared_same zero x = refl
shared_same (suc n) x = omega (arith, shared_same n (x / 2))

-- Bit by bit, from bit i on.
abbrev ones_from : ℕ → ℕ → ℕ → ℕ
ones_from i zero x = 0
ones_from i (suc n) x = bit_at i x + ones_from (suc i) n x

ones_from-half : (i n x : ℕ) → ones_from (suc i) n x ≡ ones_from i n (x / 2)
ones_from-half i zero x = refl
ones_from-half i (suc n) x = omega (arith, ones_from-half (suc i) n x)

ones_lem : (n x : ℕ) → ones n x ≡ ones_from 0 n x
unfolding ones
ones_lem zero x = refl
ones_lem (suc n) x = omega (arith, ones_lem n (x / 2), ones_from-half 0 n x)

abbrev shared_from : ℕ → ℕ → ℕ → ℕ → ℕ
shared_from i zero x y = 0
shared_from i (suc n) x y = min (bit_at i x) (bit_at i y) + shared_from (suc i) n x y

shared_from-half : (i n x y : ℕ) → shared_from (suc i) n x y ≡ shared_from i n (x / 2) (y / 2)
shared_from-half i zero x y = refl
shared_from-half i (suc n) x y = omega (arith, shared_from-half (suc i) n x y)

shared_lem : (n x y : ℕ) → shared n x y ≡ shared_from 0 n x y
shared_lem zero x y = refl
shared_lem (suc n) x y = omega (arith, shared_lem n (x / 2) (y / 2), shared_from-half 0 n x y)

ones_from-bit_and : (i n x y : ℕ) → ones_from i n (bit_and x y) ≡ shared_from i n x y
ones_from-bit_and i zero x y = refl
ones_from-bit_and i (suc n) x y =
    omega (arith, bit_at-bit_and i x y, ones_from-bit_and (suc i) n x y)

ones-bit_and : (n x y : ℕ) → ones n (bit_and x y) ≡ shared n x y
ones-bit_and n x y = ones_lem n (bit_and x y) ∙ ones_from-bit_and 0 n x y ∙ sym (shared_lem n x y)

-- x & (x - 1) has one bit less.
shared-pred : (n x : ℕ) → 0 < x → x < 2 ^ n → shared n x (x - 1) + 1 ≡ ones n x
unfolding ones
shared-pred zero x p h = absurd (omega arith)
shared-pred (suc n) x p h = elim (Bool-cases (x % 2 == 1)) [
  | inl q ↦
      let e : (x - 1) / 2 ≡ x / 2 = ground (arith, q) in
      let r : (x - 1) % 2 ≡ 0 = ground (arith, q) in
      rw (e, r) (ground (arith, shared_same n (x / 2), q))
  | inr q ↦
      let e : (x - 1) / 2 ≡ x / 2 - 1 = ground (arith, q) in
      let r : (x - 1) % 2 ≡ 1 = ground (arith, q) in
      rw (e, r)
        (ground (arith, shared-pred n (x / 2) (ground (arith, q)) (omega (arith, pow-suc 2 n)), q))
]

ones-zero : (n x : ℕ) → x < 2 ^ n → ones n x ≡ 0 → x ≡ 0
unfolding ones
ones-zero zero x h e = omega arith
ones-zero (suc n) x h e =
    omega (arith, ones-zero n (x / 2) (omega (arith, pow-suc 2 n)) (omega arith))

ones-le : (n x : ℕ) → ones n x ≤ n
unfolding ones
ones-le zero x = omega arith
ones-le (suc n) x = omega (arith, ones-le n (x / 2))

ones-nothing : (n : ℕ) → ones n 0 ≡ 0
unfolding ones
ones-nothing zero = refl
ones-nothing (suc n) = omega (arith, ones-nothing n)

popcount_rounds-zero : (left cnt : ℕ) → popcount_rounds left 0 cnt ≡ some cnt
unfolding popcount_rounds
popcount_rounds-zero zero cnt = refl
popcount_rounds-zero (suc left) cnt = refl

some_eq : {a b : ℕ} → a ≡ b → some a ≡ some b
some_eq e = ap (λ (n : ℕ). some n) e

-- Clearing a bit at a time.
popcount_rounds-ones :
    (n left x cnt : ℕ)
    → x < 2 ^ n
    → ones n x ≤ left
    → popcount_rounds left x cnt ≡ some (cnt + ones n x)
unfolding popcount_rounds
popcount_rounds-ones n left zero cnt h l =
    popcount_rounds-zero left cnt ∙ some_eq (omega (arith, ones-nothing n))
popcount_rounds-ones n zero (suc x) cnt h l = absurd (omega (arith, ones-zero n (suc x) h))
popcount_rounds-ones n (suc left) (suc x) cnt h l =
    let e : ones n (bit_and (suc x) (suc x - 1)) + 1 ≡ ones n (suc x) =
      omega (arith, ones-bit_and n (suc x) (suc x - 1), shared-pred n (suc x) (omega arith) h) in
    let p : suc x == 0 ≡ false = ground arith in
    rw p (
      popcount_rounds-ones n left (bit_and (suc x) (suc x - 1)) (cnt + 1)
        (omega (arith, bit_and-le (suc x) (suc x - 1))) (omega (arith, e))
      ∙ some_eq (omega (arith, e)))

-- On every word of 64 bits the loop of popcount_ulong ends, and gives the number of its ones.
pub popcount_ulong-ones : (x : ℕ) → x < 2 ^ 64 → popcount_ulong x ≡ some (ones 64 x)
unfolding popcount_ulong
popcount_ulong-ones x h = popcount_rounds-ones 64 64 x 0 h (ones-le 64 x) ∙ some_eq (omega arith)
