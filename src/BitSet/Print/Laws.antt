-- ===== src/BitSet/Print/Laws.antt =====
-- The ranges that a set is written as.
use pinsight.Common.{
  ℕ, zero, suc, ◌+◌, ◌^◌, ◌≤◌, ◌<◌, Bool, true, false, ◌&&◌, ◌||◌, List, [], ◌∷◌, ltb, leb, ◌==◌,
  ◌≡◌, refl, arith, inl, inr, Bool-cases, subst, ◌∙◌,
}
use pinsight.Common.Int.{ℤ, pos, negsuc}
use pinsight.BitSet.{BitSet, test}
use pinsight.BitSet.Laws.{IsValid}
use pinsight.BitSet.Scan.{first_set, next_set}
use pinsight.BitSet.Scan.Laws.{IsNext, member-le, test-above, first_set-IsNext, next_set-IsNext}
use pinsight.BitSet.Print.{Extended, extend, Run, runs, all_runs}

-- The range from a member on, extended as far as the members go.
record IsExtended (bs : BitSet) (e : ℕ) (r : Extended) : Type 0 where
  above : e ≤ r.end
  members : (j : ℕ) → e < j → j ≤ r.end → test bs j ≡ true
  gap : test bs (r.end + 1) ≡ false
  behind : IsNext bs (r.end + 1) r.next

-- Nothing to extend the range with.
stops :
    (bs : BitSet) (e : ℕ) (o : ℤ)
    → test bs (e + 1) ≡ false
    → IsNext bs (e + 1) o
    → IsExtended bs e (record { end = e; next = o })
stops bs e o g h = record {
  above = omega arith;
  members = λ j p q. absurd (omega (arith, p, q));
  gap = g;
  behind = h;
}

extends :
    (bs : BitSet) (e : ℕ) (r : Extended)
    → test bs (e + 1) ≡ true
    → IsExtended bs (e + 1) r
    → IsExtended bs e r
extends bs e r t x = record {
  above = omega (arith, x.above);
  members = λ j p q. elim (Bool-cases (j == e + 1)) [
    | inl s ↦ let at : j ≡ e + 1 = ground (arith, s) in rw at t
    | inr s ↦ x.members j (ground (arith, s, p)) q
  ];
  gap = x.gap;
  behind = x.behind;
}

extend-IsExtended :
    (left : ℕ) (bs : BitSet) (e : ℕ) (o : ℤ)
    → IsValid bs
    → bs.nbits < 2 ^ 31
    → IsNext bs (e + 1) o
    → bs.nbits ≤ e + left
    → IsExtended bs e (extend left bs e o)
unfolding extend
extend-IsExtended zero bs e o v w h l = stops bs e o (test-above bs (e + 1) (omega (arith, l))) h
extend-IsExtended (suc left) bs e (negsuc zero) v w h l =
    stops bs e (negsuc zero) (h (e + 1) (omega arith)) h
extend-IsExtended (suc left) bs e (negsuc (suc n)) v w h l = absurd h
extend-IsExtended (suc left) bs e (pos n) v w h l = elim (Bool-cases (n == e + 1)) [
  | inl p ↦
      let at : n ≡ e + 1 = ground (arith, p) in
      let hit : test bs (e + 1) ≡ true = subst (λ (k : ℕ). test bs k ≡ true) at h.1 in
      let more : IsExtended bs n (extend left bs n (next_set bs (pos n))) =
        extend-IsExtended left bs n (next_set bs (pos n)) v w (next_set-IsNext bs n v w)
          (omega (arith, l, at)) in
      rw p (
        extends bs e (extend left bs n (next_set bs (pos n))) hit
          (subst (λ (k : ℕ). IsExtended bs k (extend left bs n (next_set bs (pos n)))) at more))
  | inr p ↦ rw p (stops bs e (pos n) (h.2 (e + 1) (omega arith) (ground (arith, p, h.0))) h)
]

extend_all :
    (bs : BitSet) (k : ℕ)
    → IsValid bs
    → bs.nbits < 2 ^ 31
    → IsExtended bs k (extend bs.nbits bs k (next_set bs (pos k)))
extend_all bs k v w =
    extend-IsExtended bs.nbits bs k (next_set bs (pos k)) v w (next_set-IsNext bs k v w)
      (omega arith)

-- The indices of a list of ranges.
abbrev pub covered : List Run → ℕ → Bool
covered [] j = false
covered (r ∷ rs) j = (leb r.start j && leb j r.end) || covered rs j

-- No range touches another: the index behind each is no member.
abbrev pub Ends : BitSet → List Run → Type 0
Ends bs [] = Unit
Ends bs (r ∷ rs) = (test bs (r.end + 1) ≡ false) × Ends bs rs

covers :
    (bs : BitSet) (lo k end j : ℕ)
    → lo ≤ k
    → test bs k ≡ true
    → ((i : ℕ) → lo ≤ i → i < k → test bs i ≡ false)
    → k ≤ end
    → ((i : ℕ) → k < i → i ≤ end → test bs i ≡ true)
    → ((leb k j && leb j end) || (leb (end + 1) j && test bs j)) ≡ (leb lo j && test bs j)
covers bs lo k end j a t f b m = elim (Bool-cases (ltb j lo)) [
  | inl p ↦ ground (arith, p, a, b)
  | inr p ↦ elim (Bool-cases (ltb j k)) [
    | inl q ↦ ground (arith, p, q, a, b, f j (ground (arith, p)) (ground (arith, q)))
    | inr q ↦ elim (Bool-cases (leb j end)) [
      | inr s ↦ ground (arith, p, q, s, a, b)
      | inl s ↦ elim (Bool-cases (j == k)) [
        | inl e ↦
            let at : k ≡ j = ground (arith, e) in
            let hit : test bs j ≡ true = subst (λ (i : ℕ). test bs i ≡ true) at t in
            ground (arith, p, q, s, a, hit)
        | inr e ↦ ground (arith, p, q, s, a, m j (ground (arith, q, e)) (ground (arith, s)))
      ]
    ]
  ]
]

covered-runs :
    (left : ℕ) (bs : BitSet) (lo : ℕ) (o : ℤ)
    → IsValid bs
    → bs.nbits < 2 ^ 31
    → IsNext bs lo o
    → bs.nbits < lo + left
    → (j : ℕ) → covered (runs left bs o) j ≡ (leb lo j && test bs j)
unfolding runs
covered-runs zero bs lo o v w h l j = elim (Bool-cases (leb lo j)) [
  | inl p ↦ rw (p, test-above bs j (ground (arith, p, l))) refl
  | inr p ↦ rw p refl
]
covered-runs (suc left) bs lo (negsuc zero) v w h l j = elim (Bool-cases (leb lo j)) [
  | inl p ↦ rw (p, h j (ground (arith, p))) refl
  | inr p ↦ rw p refl
]
covered-runs (suc left) bs lo (negsuc (suc n)) v w h l j = absurd h
covered-runs (suc left) bs lo (pos k) v w h l j =
    let r : Extended = extend bs.nbits bs k (next_set bs (pos k)) in
    let x : IsExtended bs k r = extend_all bs k v w in
    let tail : covered (runs left bs r.next) j ≡ (leb (r.end + 1) j && test bs j) =
      covered-runs left bs (r.end + 1) r.next v w x.behind (omega (arith, l, h.0, x.above)) j in
    rw tail (covers bs lo k r.end j h.0 h.1 h.2 x.above x.members)

Ends-runs :
    (left : ℕ) (bs : BitSet) (lo : ℕ) (o : ℤ)
    → IsValid bs
    → bs.nbits < 2 ^ 31
    → IsNext bs lo o
    → Ends bs (runs left bs o)
unfolding runs
Ends-runs zero bs lo o v w h = tt
Ends-runs (suc left) bs lo (negsuc zero) v w h = tt
Ends-runs (suc left) bs lo (negsuc (suc n)) v w h = absurd h
Ends-runs (suc left) bs lo (pos k) v w h =
    let r : Extended = extend bs.nbits bs k (next_set bs (pos k)) in
    let x : IsExtended bs k r = extend_all bs k v w in
    (x.gap, Ends-runs left bs (r.end + 1) r.next v w x.behind)

-- The ranges that bitset_to_rangestring writes for a valid set have exactly the members of the set
-- as their indices, and (negsuc zero) can be extended: the index behind the end of each is no member.
pub covered-all_runs :
    (bs : BitSet)
    → IsValid bs
    → bs.nbits < 2 ^ 31
    → ((j : ℕ) → covered (all_runs bs) j ≡ test bs j) × Ends bs (all_runs bs)
unfolding all_runs
covered-all_runs bs v w =
    let n : IsNext bs 0 (first_set bs) = first_set-IsNext bs v w in
    (
      (λ j.
          covered-runs (bs.nbits + 1) bs 0 (first_set bs) v w n (omega arith) j
          ∙ ground (arith, leb 0 j)),
      Ends-runs (bs.nbits + 1) bs 0 (first_set bs) v w n,
    )

-- Ranges as the printer writes them, for a set of the indices 0..n.
abbrev pub InBounds : ℕ → List Run → Type 0
InBounds n [] = Unit
InBounds n (r ∷ rs) = (r.start ≤ r.end) × (r.end ≤ n) × InBounds n rs

end-le :
    (bs : BitSet) (k : ℕ) (r : Extended) → test bs k ≡ true → IsExtended bs k r → r.end ≤ bs.nbits
end-le bs k r t x = elim (Bool-cases (ltb k r.end)) [
  | inl p ↦ member-le bs r.end (x.members r.end (ground (arith, p)) (omega arith))
  | inr p ↦ omega (arith, member-le bs k t, (let m : r.end ≤ k = ground (arith, p) in m))
]

runs-InBounds :
    (left : ℕ) (bs : BitSet) (lo : ℕ) (o : ℤ)
    → IsValid bs
    → bs.nbits < 2 ^ 31
    → IsNext bs lo o
    → InBounds bs.nbits (runs left bs o)
unfolding runs
runs-InBounds zero bs lo o v w h = tt
runs-InBounds (suc left) bs lo (negsuc zero) v w h = tt
runs-InBounds (suc left) bs lo (negsuc (suc n)) v w h = absurd h
runs-InBounds (suc left) bs lo (pos k) v w h =
    let r : Extended = extend bs.nbits bs k (next_set bs (pos k)) in
    let x : IsExtended bs k r = extend_all bs k v w in
    (x.above, end-le bs k r h.1 x, runs-InBounds left bs (r.end + 1) r.next v w x.behind)

pub all_runs-InBounds :
    (bs : BitSet) → IsValid bs → bs.nbits < 2 ^ 31 → InBounds bs.nbits (all_runs bs)
unfolding all_runs
all_runs-InBounds bs v w =
    runs-InBounds (bs.nbits + 1) bs 0 (first_set bs) v w (first_set-IsNext bs v w)

-- Ranges from lo on, in their order.
abbrev pub IsSpread : ℕ → List Run → Type 0
IsSpread lo [] = Unit
IsSpread lo (r ∷ rs) = (lo ≤ r.start) × IsSpread (r.end + 1) rs

runs-IsSpread :
    (left : ℕ) (bs : BitSet) (lo : ℕ) (o : ℤ)
    → IsValid bs
    → bs.nbits < 2 ^ 31
    → IsNext bs lo o
    → IsSpread lo (runs left bs o)
unfolding runs
runs-IsSpread zero bs lo o v w h = tt
runs-IsSpread (suc left) bs lo (negsuc n) v w h = tt
runs-IsSpread (suc left) bs lo (pos k) v w h =
    let r : Extended = extend bs.nbits bs k (next_set bs (pos k)) in
    let x : IsExtended bs k r = extend_all bs k v w in
    (h.0, runs-IsSpread left bs (r.end + 1) r.next v w x.behind)

pub all_runs-IsSpread : (bs : BitSet) → IsValid bs → bs.nbits < 2 ^ 31 → IsSpread 0 (all_runs bs)
unfolding all_runs
all_runs-IsSpread bs v w =
    runs-IsSpread (bs.nbits + 1) bs 0 (first_set bs) v w (first_set-IsNext bs v w)
