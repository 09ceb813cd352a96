-- ===== src/Config/Punits.antt =====
-- src/trace_config.c: domain_punit_set_match, whether the running parallel units fit a constraint.
pub mod Laws
use pinsight.Common.{
  ℕ, zero, suc, ◌+◌, ◌-◌, ◌^◌, Bool, true, false, not, ◌&&◌, ◌||◌, Option, none, some, List, [],
  ◌∷◌, ltb, if◌then◌else◌,
}
use pinsight.BitSet.{BitSet, test}
use pinsight.Config.Domain.{Punit, DomainInfo, PunitSet, DomainPunitSet}

-- An `int` punit id, given as its 32-bit pattern as the comparison with `low` and `high` reads it,
-- converted to size_t: the sign is extended.
abbrev pub to_size : ℕ → ℕ
to_size id = if ltb id (2 ^ 31) then id else id + 2 ^ 64 - 2 ^ 32

-- The id is in the range of its kind and is one of the constraint's.
unfoldable pub id_fits : Punit → PunitSet → ℕ → Bool
id_fits p s id = not (ltb id p.low) && not (ltb p.high id) && test s.punit_ids (to_size id)

-- The inner loop over the kinds of a domain, from kind k on: `none` is the return of 0, `some` the
-- flag `match` at the end. `current_id` yields the id of the running unit of a kind; the id
-- functions belong to the runtimes that are traced.
match_kinds : (ℕ → ℕ) → ℕ → List Punit → List PunitSet → Bool → Option Bool
unfolding id_fits
match_kinds current_id k [] sets matched = some matched
match_kinds current_id k (p ∷ ps) [] matched = some matched
match_kinds current_id k (p ∷ ps) (s ∷ ss) matched = elim s.is_set [
  | false ↦ match_kinds current_id (k + 1) ps ss matched
  | true ↦ elim (id_fits p s (current_id k)) [
    | false ↦ none
    | true ↦ match_kinds current_id (k + 1) ps ss true
  ]
]

-- The outer loop over the registered domains, from domain i on.
match_domains : (ℕ → ℕ → ℕ) → ℕ → List DomainInfo → List DomainPunitSet → Bool → Bool
unfolding match_kinds
match_domains current_id i [] sets matched = matched
match_domains current_id i (d ∷ ds) [] matched = matched
match_domains current_id i (d ∷ ds) (s ∷ ss) matched = elim s.is_set [
  | false ↦ match_domains current_id (i + 1) ds ss matched
  | true ↦ elim (match_kinds (current_id i) 0 d.punits s.punit matched) [
    | none ↦ false
    | some matched' ↦ match_domains current_id (i + 1) ds ss matched'
  ]
]

-- `infos` holds the num_domain registered domains.
unfoldable pub domain_punit_set_match : (ℕ → ℕ → ℕ) → List DomainInfo → List DomainPunitSet → Bool
unfolding match_domains
domain_punit_set_match current_id infos sets = match_domains current_id 0 infos sets false
