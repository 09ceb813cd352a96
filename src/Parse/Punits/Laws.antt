-- ===== src/Parse/Punits/Laws.antt =====
-- Which ids a constraint of the file keeps.
use pinsight.Common.{
  ℕ, zero, suc, ◌+◌, not, ◌&&◌, ◌||◌, leb, ltb, ◌==◌, ◌≡◌, arith, inl, inr, Bool-cases,
  both_branches,
}
use pinsight.BitSet.{BitSet, test}
use pinsight.BitSet.Laws.{IsValid, clear_bit-IsValid, test-clear_bit}
use pinsight.Parse.Punits.{restrict, check_id}

test-check_id :
    (low high : ℕ) (bs : BitSet) (k j : ℕ)
    → IsValid bs
    → test (check_id low high bs k) j ≡ (test bs j && (not (k == j) || (leb low j && leb j high)))
unfolding check_id
test-check_id low high bs k j v = elim (Bool-cases (k == j)) [
  | inl p ↦ let e : k ≡ j = ground arith in ground (arith, test-clear_bit bs k j v, p, e)
  | inr p ↦ ground (arith, test-clear_bit bs k j v, p)
]

check_id-IsValid :
    (low high : ℕ) (bs : BitSet) (k : ℕ) → IsValid bs → IsValid (check_id low high bs k)
unfolding check_id
check_id-IsValid low high bs k v =
    both_branches IsValid (test bs k && (ltb k low || ltb high k)) (clear_bit-IsValid k v) v

-- The check of the ids from k on, on a valid set: an id that is looked at stays a member exactly
-- if it is in the range of its kind, and the others stay as they are.
pub test-restrict :
    (low high : ℕ) (bs : BitSet) (k left j : ℕ)
    → IsValid bs
    → test (restrict low high bs k left) j
      ≡ (test bs j && (not (leb k j && ltb j (k + left)) || (leb low j && leb j high)))
unfolding restrict
test-restrict low high bs k zero j v = ground arith
test-restrict low high bs k (suc left) j v = ground (
  arith,
  test-restrict low high (check_id low high bs k) (k + 1) left j (check_id-IsValid low high bs k v),
  test-check_id low high bs k j v,
)
