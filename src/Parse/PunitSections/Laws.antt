-- ===== src/Parse/PunitSections/Laws.antt =====
-- Which configuration a section of punits finds.
use pinsight.Common.{
  ℕ, zero, suc, ◌+◌, false, Option, none, some, List, [], ◌∷◌, ◌++◌, get_elem?, ◌≡◌, refl, arith,
  inl, inr, Option-cases, subst, sym, ap, ◌∙◌,
}
use pinsight.Config.Domain.{DomainPunitSet, PunitTraceConfig}
use pinsight.Parse.State.{Parser}
use pinsight.Parse.Punits.{find_exact_punit_config, same_punits, exact_from}
use pinsight.Parse.PunitSections.{find_existing, from_element, configs_of}

-- No element, or one that is not set.
abbrev IsUnset : Option DomainPunitSet → Type 0
IsUnset none = Unit
IsUnset (some s) = s.is_set ≡ false

from_element_lem :
    (n i : ℕ) (sets : List DomainPunitSet)
    → get_elem? (from_element n sets) i ≡ get_elem? sets (i + n)
unfolding from_element
from_element_lem zero i sets = ap (λ (k : ℕ). get_elem? sets k) (omega arith)
from_element_lem (suc n) i [] = refl
from_element_lem (suc n) i (s ∷ sets) =
    let e : suc (i + n) ≡ i + suc n = omega arith in
    from_element_lem n i sets ∙ ap (λ (k : ℕ). get_elem? (s ∷ sets) k) e

same_punits-unset :
    (d : ℕ) (target : List DomainPunitSet) (c : PunitTraceConfig) (b : Option DomainPunitSet)
    → get_elem? target d ≡ b
    → IsUnset b
    → same_punits d target c ≡ false
unfolding same_punits
same_punits-unset d target c none e h = elim (Option-cases (get_elem? c.domain_punits d)) [
  | inl f ↦ rw (f, same_punits) refl
  | inr (a, f) ↦ rw (f, e, same_punits) refl
]
same_punits-unset d target c (some b) e h = elim (Option-cases (get_elem? c.domain_punits d)) [
  | inl f ↦ rw (f, same_punits) refl
  | inr (a, f) ↦ rw (f, e, same_punits, h) (ground arith)
]

exact_from-unset :
    (d : ℕ) (target : List DomainPunitSet) (cs : List PunitTraceConfig) (i : ℕ)
    → IsUnset (get_elem? target d)
    → exact_from d target cs i ≡ none
unfolding exact_from
exact_from-unset d target [] i h = refl
exact_from-unset d target (c ∷ cs) i h =
    rw
      (
        same_punits-unset d target c (get_elem? target d) refl h,
        exact_from-unset d target cs (i + 1) h,
      )
      refl

-- The search for the configuration of a section [Domain.kind(ids)] gets the address of the
-- domain's element and takes the domain's element of that again: number 2d of the target, which may
-- stand behind its end. Where that one is not set, nothing is found, whatever configurations the
-- domain has.
pub find_existing-unset :
    (p : Parser) (d : ℕ) (sets : List DomainPunitSet)
    → IsUnset (get_elem? (sets ++ p.beyond) (d + d))
    → find_existing p d sets ≡ none
unfolding find_existing find_exact_punit_config
find_existing-unset p d sets h =
    let target : List DomainPunitSet = sets ++ p.beyond in
    exact_from-unset d (from_element d target) (configs_of p d) 0
      (subst (λ (b : Option DomainPunitSet). IsUnset b) (sym (from_element_lem d d target)) h)
