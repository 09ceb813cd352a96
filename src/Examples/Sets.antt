-- ===== src/Examples/Sets.antt =====
-- The theorems on bit sets and punit constraints, applied.
use pinsight.Common.{List, ℕ, codes, true, ◌&&◌, some, [], ◌∷◌, ◌≡◌, refl, arith}
use pinsight.Common.Int.{pos}
use pinsight.Config.Domain.{DomainInfo, DomainPunitSet}
use pinsight.Config.Mode.{tracing}
use pinsight.Config.Punits.{domain_punit_set_match}
use pinsight.Config.Punits.Laws.{domains_fit, domains_set, domain_punit_set_match_lem}
use pinsight.BitSet.{BitSet, array, set_bit, init, test}
use pinsight.BitSet.Ranges.{parse_ranges}
use pinsight.BitSet.Print.{to_rangestring}
use pinsight.BitSet.Print.RoundTrip.{parse_ranges-to_rangestring}
use pinsight.BitSet.Scan.{next_set, equal}
use pinsight.BitSet.Laws.{IsValid, init-IsValid, small, large}
use pinsight.BitSet.Scan.Laws.{IsNext, next_set-IsNext}
use pinsight.BitSet.Scan.Whole.{equal-ignores_last}
use pinsight.Examples.Fixtures.{small_set, large_set}

pub small_set-IsValid : IsValid small_set
small_set-IsValid = small 5 10 (omega arith)

large_set-IsValid : IsValid large_set
large_set-IsValid = large (2 ∷ 0 ∷ 1 ∷ []) 128 (omega arith) refl

next_set-IsNext_example : IsNext large_set 2 (next_set large_set (pos 1))
next_set-IsNext_example = next_set-IsNext large_set 1 large_set-IsValid (omega arith)

parse_ranges-to_rangestring_example :
    (text : List ℕ) × (to_rangestring large_set ≡ some text)
    × ((parse_ranges (init 128 true) text).1 ≡ true)
    × ((j : ℕ) → test (parse_ranges (init 128 true) text).0 j ≡ test large_set j)
unfolding init
parse_ranges-to_rangestring_example =
    parse_ranges-to_rangestring large_set (init 128 true) large_set-IsValid (init-IsValid 128) refl
      (omega arith)

to_rangestring_test : to_rangestring large_set ≡ some (codes "1,128")
unfolding to_rangestring
to_rangestring_test = refl

-- The set of the indices 0..128 with the member 1.
abbrev lacks_last : BitSet
lacks_last = record { words = array (2 ∷ 0 ∷ 0 ∷ []); nbits = 128; nwords = 3 }

equal-ignores_last_example :
    (equal lacks_last (set_bit lacks_last 128) ≡ true) × (test (set_bit lacks_last 128) 128 ≡ true)
unfolding test
equal-ignores_last_example =
    equal-ignores_last lacks_last (large (2 ∷ 0 ∷ 0 ∷ []) 128 (omega arith) refl) (omega arith) refl
      refl

abbrev mpi : DomainInfo
mpi = record {
  name = [];
  event_table = [];
  event_install_status = 0;
  starting_mode = tracing;
  punits = record { name = []; low = 0; high = 10 } ∷ [];
  nodepolicy_keys = [];
}

abbrev ranks : DomainPunitSet
ranks = record { is_set = true; punit = record { is_set = true; punit_ids = small_set } ∷ [] }

domain_punit_set_match_lem_example :
    domain_punit_set_match (λ _ _. 2) (mpi ∷ []) (ranks ∷ [])
    ≡ (domains_fit (λ _ _. 2) 0 (mpi ∷ []) (ranks ∷ []) && domains_set (mpi ∷ []) (ranks ∷ []))
domain_punit_set_match_lem_example = domain_punit_set_match_lem (λ _ _. 2) (mpi ∷ []) (ranks ∷ [])
