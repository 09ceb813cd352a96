-- ===== src/Parse/Punits/Rounds.antt =====
-- The loop over the specifications of a punit set has enough rounds.
use pinsight.Common.{
  ℕ, zero, suc, ◌≤◌, ◌<◌, Bool, true, false, Option, none, some, List, [], ◌∷◌, length, ◌==◌,
  if◌then◌else◌, ◌≡◌, refl, arith, inl, inr, Option-cases, both_branches, skip_spaces, subst,
}
use pinsight.Config.Domain.{DomainInfo, DomainPunitSet}
use pinsight.Parse.Text.{behind}
use pinsight.Parse.Punits.{
  skip_dots, KindSpec, kind_spec, store_spec, garbage, at_comma, behind_spec, PunitStep, finished,
  next, step_behind, step_stored, step_spec, step_at, punit_step, punit_rounds,
}
use pinsight.BitSet.Ranges.Laws.{length-skip_spaces}

length-skip_dots : (s : List ℕ) → length (skip_dots s) ≤ length s
unfolding skip_dots
length-skip_dots [] = omega arith
length-skip_dots (c ∷ s) = ground (arith, length-skip_dots s)

abbrev Shorter : List ℕ → Option (List ℕ) → Type 0
Shorter s none = Unit
Shorter s (some t) = length t < length s

behind-Shorter : (d : ℕ) (s : List ℕ) → Shorter s (behind d s)
unfolding behind
behind-Shorter d [] = tt
behind-Shorter d (c ∷ s) =
    both_branches (Shorter (c ∷ s)) (c == d) (omega arith)
      (longer (behind d s) (behind-Shorter d s))
  where
    longer : (o : Option (List ℕ)) → Shorter s o → Shorter (c ∷ s) o
    longer none h = tt
    longer (some t) h = omega (arith, h)

abbrev SpecShorter : List ℕ → Option KindSpec → Type 0
SpecShorter s none = Unit
SpecShorter s (some k) = length k.rest < length s

kind_spec-SpecShorter : (s : List ℕ) → SpecShorter s (kind_spec s)
unfolding kind_spec
kind_spec-SpecShorter s = elim (Option-cases (behind 46 s)) [
  | inl e ↦ rw (e, kind_spec) tt
  | inr (t, e) ↦
      let f : Shorter s (some t) =
        subst (λ (o : Option (List ℕ)). Shorter s o) e (behind-Shorter 46 s) in
      elim (Option-cases (behind 40 t)) [
        | inl g ↦ rw (e, kind_spec, g) tt
        | inr (u, g) ↦
            let h : Shorter t (some u) =
              subst (λ (o : Option (List ℕ)). Shorter t o) g (behind-Shorter 40 t) in
            elim (Option-cases (behind 41 u)) [
              | inl k ↦ rw (e, kind_spec, g, k) tt
              | inr (r, k) ↦
                  let l : Shorter u (some r) =
                    subst (λ (o : Option (List ℕ)). Shorter u o) k (behind-Shorter 41 u) in
                  rw (e, kind_spec, g, k) (omega (arith, f, h, l))
            ]
      ]
]

-- A step that goes on has less text left.
abbrev StepShorter : List ℕ → PunitStep → Type 0
StepShorter s (finished r) = Unit
StepShorter s (next t sets) = length t < length s

step_behind-StepShorter :
    (spec s t : List ℕ) (sets : List DomainPunitSet)
    → length t < length s
    → StepShorter s (step_behind spec sets (behind_spec t))
step_behind-StepShorter spec s [] sets h = tt
step_behind-StepShorter spec s (c ∷ t) sets h = go (c == 44)
  where
    go : (b : Bool) → StepShorter s (step_behind spec sets (if b then at_comma t else garbage))
    go true = omega arith
    go false = tt

step_stored-StepShorter :
    (spec s : List ℕ) (k : KindSpec) (r : List DomainPunitSet × Bool)
    → length k.rest < length s
    → StepShorter s (step_stored spec k r)
step_stored-StepShorter spec s k (sets, false) h = tt
step_stored-StepShorter spec s k (sets, true) h =
    step_behind-StepShorter spec s (skip_spaces k.rest) sets
      (omega (arith, length-skip_spaces k.rest))

step_spec-StepShorter :
    (infos : List DomainInfo) (spec s : List ℕ) (sets : List DomainPunitSet) (o : Option KindSpec)
    → SpecShorter s o
    → StepShorter s (step_spec infos spec sets o)
unfolding step_spec store_spec
step_spec-StepShorter infos spec s sets none h = tt
step_spec-StepShorter infos spec s sets (some k) h =
    step_stored-StepShorter spec s k (store_spec infos k sets) h

SpecShorter-le :
    (t s : List ℕ) (o : Option KindSpec) → length t ≤ length s → SpecShorter t o → SpecShorter s o
SpecShorter-le t s none h k = tt
SpecShorter-le t s (some r) h k = omega (arith, h, k)

step_at-StepShorter :
    (infos : List DomainInfo) (spec s t : List ℕ) (sets : List DomainPunitSet)
    → length t ≤ length s
    → StepShorter s (step_at infos spec sets t)
unfolding step_at store_spec kind_spec
step_at-StepShorter infos spec s [] sets h = tt
step_at-StepShorter infos spec s (c ∷ t) sets h =
    step_spec-StepShorter infos spec s sets (kind_spec (c ∷ t))
      (SpecShorter-le (c ∷ t) s (kind_spec (c ∷ t)) h (kind_spec-SpecShorter (c ∷ t)))

punit_step-StepShorter :
    (infos : List DomainInfo) (spec s : List ℕ) (sets : List DomainPunitSet)
    → StepShorter s (punit_step infos spec s sets)
unfolding punit_step
punit_step-StepShorter infos spec s sets =
    step_at-StepShorter infos spec s (skip_dots s) sets (length-skip_dots s)

-- The loop over the specifications of a punit set gives the same result for every number of rounds
-- beyond the length of the text: parse_punit_set_string never runs out of them.
pub punit_rounds_enough :
    (n m : ℕ) (infos : List DomainInfo) (spec s : List ℕ) (sets : List DomainPunitSet)
    → length s < n
    → length s < m
    → punit_rounds n infos spec s sets ≡ punit_rounds m infos spec s sets
unfolding punit_rounds
punit_rounds_enough zero m infos spec s sets h l = absurd (omega arith)
punit_rounds_enough (suc n) zero infos spec s sets h l = absurd (omega arith)
punit_rounds_enough (suc n) (suc m) infos spec s sets h l =
    go (punit_step infos spec s sets) (punit_step-StepShorter infos spec s sets) (λ t sets' k.
      punit_rounds_enough n m infos spec t sets' (omega (arith, h, k)) (omega (arith, l, k)))
  where
    go :
        (o : PunitStep)
        → StepShorter s o
        → ((t : List ℕ) (sets' : List DomainPunitSet)
            → length t < length s
            → punit_rounds n infos spec t sets' ≡ punit_rounds m infos spec t sets')
        → (elim o [ finished r ↦ r | next rest sets' ↦ punit_rounds n infos spec rest sets' ])
          ≡ (elim o [ finished r ↦ r | next rest sets' ↦ punit_rounds m infos spec rest sets' ])
    go (finished r) k more = refl
    go (next t sets') k more = more t sets' k
