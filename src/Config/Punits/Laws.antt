-- ===== src/Config/Punits/Laws.antt =====
-- A constraint is met when every constrained punit fits, and at least one is constrained.
use pinsight.Common.{
  ℕ, ◌+◌, Bool, true, false, not, ◌&&◌, ◌||◌, none, some, List, [], ◌∷◌, ◌≡◌, arith, if◌then◌else◌,
}
use pinsight.Config.Domain.{Punit, DomainInfo, PunitSet, DomainPunitSet}
use pinsight.Config.Punits.{id_fits, match_kinds, match_domains, domain_punit_set_match}

-- Every constrained kind of a domain fits, and some kind is constrained.
abbrev pub kinds_fit : (ℕ → ℕ) → ℕ → List Punit → List PunitSet → Bool
kinds_fit current_id k (p ∷ ps) (s ∷ ss) =
    (not s.is_set || id_fits p s (current_id k)) && kinds_fit current_id (k + 1) ps ss
kinds_fit current_id k _ _ = true

abbrev pub kinds_set : List Punit → List PunitSet → Bool
kinds_set (p ∷ ps) (s ∷ ss) = s.is_set || kinds_set ps ss
kinds_set _ _ = false

abbrev pub domains_fit : (ℕ → ℕ → ℕ) → ℕ → List DomainInfo → List DomainPunitSet → Bool
domains_fit current_id i (d ∷ ds) (s ∷ ss) =
    (not s.is_set || kinds_fit (current_id i) 0 d.punits s.punit)
    && domains_fit current_id (i + 1) ds ss
domains_fit current_id i _ _ = true

abbrev pub domains_set : List DomainInfo → List DomainPunitSet → Bool
domains_set (d ∷ ds) (s ∷ ss) = (s.is_set && kinds_set d.punits s.punit) || domains_set ds ss
domains_set _ _ = false

match_kinds_lem :
    (current_id : ℕ → ℕ) (k : ℕ) (ps : List Punit) (ss : List PunitSet) (m : Bool)
    → match_kinds current_id k ps ss m
      ≡ (if kinds_fit current_id k ps ss then some (m || kinds_set ps ss) else none)
unfolding match_kinds
match_kinds_lem current_id k [] ss m = ground arith
match_kinds_lem current_id k (p ∷ ps) [] m = ground arith
match_kinds_lem current_id k (p ∷ ps) (s ∷ ss) m = ground (
  arith,
  match_kinds_lem current_id (k + 1) ps ss m,
  match_kinds_lem current_id (k + 1) ps ss true,
)

match_domains_lem :
    (current_id : ℕ → ℕ → ℕ) (i : ℕ) (ds : List DomainInfo) (ss : List DomainPunitSet) (m : Bool)
    → match_domains current_id i ds ss m
      ≡ (domains_fit current_id i ds ss && (m || domains_set ds ss))
unfolding match_domains
match_domains_lem current_id i [] ss m = ground arith
match_domains_lem current_id i (d ∷ ds) [] m = ground arith
match_domains_lem current_id i (d ∷ ds) (s ∷ ss) m = ground (
  arith,
  match_kinds_lem (current_id i) 0 d.punits s.punit m,
  match_domains_lem current_id (i + 1) ds ss m,
  match_domains_lem current_id (i + 1) ds ss (m || kinds_set d.punits s.punit),
)

-- domain_punit_set_match is 1 exactly if the id of the running unit fits every constrained kind of
-- every constrained domain, and at least one kind is constrained: a constraint that names no kind
-- is never met.
pub domain_punit_set_match_lem :
    (current_id : ℕ → ℕ → ℕ) (infos : List DomainInfo) (sets : List DomainPunitSet)
    → domain_punit_set_match current_id infos sets
      ≡ (domains_fit current_id 0 infos sets && domains_set infos sets)
unfolding domain_punit_set_match
domain_punit_set_match_lem current_id infos sets = match_domains_lem current_id 0 infos sets false
