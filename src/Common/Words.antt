-- ===== src/Common/Words.antt =====
-- Bits of machine words: `bit_at k a` is bit k of a, and the laws of `|`, `&`, `~` and `<<` at
-- every bit and every width.
use Prim.Native.Nat.{ℕ, zero, suc, ◌+◌, ◌-◌, ◌*◌, ◌/◌, ◌%◌, ◌^◌, ◌≤◌, ◌<◌, min, max}
use Prim.Native.Nat.{bit_and, bit_or, digits, bit_and-bitwise, bit_or-bitwise}
use mathlib.Core.Path.{◌≡◌, refl, ap, sym, ◌∙◌}
use mathlib.Core.Bool.{not, ◌&&◌}
use native.Mathlib.Nat.{le_refl, pow-suc, one-le-pow}
use native.Mathlib.Omega.{arith}
use pinsight.Common.Tests.{ltb, ◌==◌, if◌then◌else◌}

abbrev pub bit_at : ℕ → ℕ → ℕ
bit_at zero a = a % 2
bit_at (suc k) a = bit_at k (a / 2)

-- `~a` at a width of n bits.
abbrev pub bit_not : ℕ → ℕ → ℕ
bit_not n a = 2 ^ n - 1 - a

pub bit_at-lt : (k a : ℕ) → bit_at k a < 2
bit_at-lt zero a = omega arith
bit_at-lt (suc k) a = bit_at-lt k (a / 2)

pub bit_at-zero : (k : ℕ) → bit_at k 0 ≡ 0
bit_at-zero zero = refl
bit_at-zero (suc k) = bit_at-zero k

double-half : (d r : ℕ) → r < 2 → (d * 2 + r) / 2 ≡ d
double-half d r h = omega arith

-- Bit by bit, `digits` is the operation on digits, where `rest` agrees with it at a first digit 0.
module _ (rest : ℕ → ℕ) (op : ℕ → ℕ → ℕ)
    (rest-bit : (k b : ℕ) → bit_at k (rest b) ≡ op 0 (bit_at k b))
    (small : (x y : ℕ) → x < 2 → y < 2 → op x y < 2) where
  bit_at-digits :
      (k fuel a b : ℕ)
      → a ≤ fuel
      → bit_at k (digits rest op fuel a b) ≡ op (bit_at k a) (bit_at k b)
  bit_at-digits k zero zero b h = rest-bit k b ∙ sym (ap (λ t. op t (bit_at k b)) (bit_at-zero k))
  bit_at-digits k zero (suc a) b h = absurd (omega arith)
  bit_at-digits k (suc fuel) zero b h =
      rest-bit k b ∙ sym (ap (λ t. op t (bit_at k b)) (bit_at-zero k))
  bit_at-digits zero (suc fuel) (suc a) b h =
      omega (arith, small (suc a % 2) (b % 2) (omega arith) (omega arith))
  bit_at-digits (suc k) (suc fuel) (suc a) b h =
      rw
        (double-half (digits rest op fuel (suc a / 2) (b / 2)) (op (suc a % 2) (b % 2))
          (small (suc a % 2) (b % 2) (omega arith) (omega arith)))
        (bit_at-digits k fuel (suc a / 2) (b / 2) (omega arith))

pub bit_at-bit_or : (k a b : ℕ) → bit_at k (bit_or a b) ≡ max (bit_at k a) (bit_at k b)
bit_at-bit_or k a b =
    ap (bit_at k) (bit_or-bitwise a b)
    ∙ bit_at-digits (λ b. b) max (λ k b. omega arith) (λ x y p q. omega arith) k a a b (le_refl a)

pub bit_at-bit_and : (k a b : ℕ) → bit_at k (bit_and a b) ≡ min (bit_at k a) (bit_at k b)
bit_at-bit_and k a b =
    ap (bit_at k) (bit_and-bitwise a b)
    ∙ bit_at-digits (λ b. 0) min (λ k b. bit_at-zero k ∙ omega arith) (λ x y p q. omega arith) k a a
        b (le_refl a)

pow-half : (k : ℕ) → 2 ^ suc k / 2 ≡ 2 ^ k
pow-half k = omega (arith, pow-suc 2 k)

pub bit_at-pow : (j k : ℕ) → bit_at j (2 ^ k) ≡ (if j == k then 1 else 0)
bit_at-pow zero zero = refl
bit_at-pow zero (suc k) = ground (arith, pow-suc 2 k)
bit_at-pow (suc j) zero = bit_at-zero j ∙ ground arith
bit_at-pow (suc j) (suc k) = rw (pow-half k) (bit_at-pow j k ∙ ground arith)

-- The common digits with nothing, and with a power of two.
abbrev common : ℕ → ℕ → ℕ → ℕ
common fuel a b = digits (λ _. 0) min fuel a b

common-nothing : (fuel a : ℕ) → common fuel a 0 ≡ 0
common-nothing zero a = refl
common-nothing (suc fuel) zero = refl
common-nothing (suc fuel) (suc a) = omega (arith, common-nothing fuel (suc a / 2))

nothing-pow : (k : ℕ) → 0 ≡ bit_at k 0 * 2 ^ k
nothing-pow k = rw (bit_at-zero k) (omega arith)

common-pow : (k fuel a : ℕ) → a ≤ fuel → common fuel a (2 ^ k) ≡ bit_at k a * 2 ^ k
common-pow k zero zero h = nothing-pow k
common-pow k zero (suc a) h = absurd (omega arith)
common-pow k (suc fuel) zero h = nothing-pow k
common-pow zero (suc fuel) (suc a) h = omega (arith, common-nothing fuel (suc a / 2))
common-pow (suc k) (suc fuel) (suc a) h =
    let half = suc a / 2 in
    omega (
      arith,
      ap (λ t. common fuel half t) (pow-half k) ∙ common-pow k fuel half (omega arith),
      ap (λ t. bit_at k half * t) (pow-suc 2 k),
      pow-suc 2 k,
    )

-- `a & (1 << k)` keeps bit k in its place.
pub bit_and-pow : (k a : ℕ) → bit_and a (2 ^ k) ≡ bit_at k a * 2 ^ k
bit_and-pow k a = bit_and-bitwise a (2 ^ k) ∙ common-pow k a a (le_refl a)

bit_test : (b p : ℕ) → b < 2 → 0 < p → not (b * p == 0) ≡ (b == 1)
bit_test zero p h l = ground arith
bit_test (suc zero) p h l = ground arith
bit_test (suc (suc b)) p h l = absurd (omega arith)

-- `(a & (1 << k)) != 0` reads bit k.
pub bit_and-pow_test : (k a : ℕ) → not (bit_and a (2 ^ k) == 0) ≡ (bit_at k a == 1)
bit_and-pow_test k a =
    rw (bit_and-pow k a)
      (bit_test (bit_at k a) (2 ^ k) (bit_at-lt k a) (omega (arith, one-le-pow k 2)))

not-half : (n a : ℕ) → bit_not (suc n) a / 2 ≡ bit_not n (a / 2)
not-half n a = omega (arith, pow-suc 2 n, one-le-pow n 2)

pub bit_at-bit_not : (j n a : ℕ) → j < n → a < 2 ^ n → bit_at j (bit_not n a) ≡ 1 - bit_at j a
bit_at-bit_not j zero a h l = absurd (omega arith)
bit_at-bit_not zero (suc n) a h l = omega (arith, pow-suc 2 n, one-le-pow n 2)
bit_at-bit_not (suc j) (suc n) a h l =
    rw (not-half n a) (bit_at-bit_not j n (a / 2) (omega arith) (omega (arith, pow-suc 2 n)))

low-half : (b : ℕ) → (2 ^ suc b - 1) / 2 ≡ 2 ^ b - 1
low-half b = omega (arith, pow-suc 2 b, one-le-pow b 2)

-- The word of the b lowest ones.
pub bit_at-low : (j b : ℕ) → bit_at j (2 ^ b - 1) ≡ (if ltb j b then 1 else 0)
bit_at-low j zero = bit_at-zero j ∙ ground arith
bit_at-low zero (suc b) = ground (arith, pow-suc 2 b, one-le-pow b 2)
bit_at-low (suc j) (suc b) = rw (low-half b) (bit_at-low j b ∙ ground arith)

-- The numbers j = 64 (j / 64) + j % 64: equal word and equal place give an equal index.
pub index_eq : (i j : ℕ) → (i == j) ≡ ((i / 64 == j / 64) && (i % 64 == j % 64))
index_eq i j = ground arith

-- The common bits of two words are bits of the first.
common-le : (fuel a b : ℕ) → common fuel a b ≤ a
common-le zero a b = omega arith
common-le (suc fuel) zero b = omega (arith, common-nothing fuel b)
common-le (suc fuel) (suc a) b = omega (arith, common-le fuel (suc a / 2) (b / 2))

pub bit_and-le : (a b : ℕ) → bit_and a b ≤ a
bit_and-le a b = omega (arith, bit_and-bitwise a b, common-le a a b)
