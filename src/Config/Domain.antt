-- ===== src/Config/Domain.antt =====
-- src/trace_config.h: what is known of a domain, and its run-time configuration.
use pinsight.Common.{ℕ, Bool, List}
use pinsight.Config.Mode.{TraceMode, NodePolicy, NodePolicyVal, SamplingOutput}
use pinsight.Common.Int.{ℤ}
use pinsight.BitSet.{BitSet}

-- `struct punit`: a kind of parallel unit, with the range of its ids. The function that returns
-- the id of the running unit belongs to the domain's runtime: it is a parameter where it is used.
pub record Punit : Type 0 where
  pub name : List ℕ
  pub low : ℕ
  pub high : ℕ

pub record NodePolicyKey : Type 0 where
  pub name : List ℕ
  pub dflt : NodePolicy

-- `struct domain_info`, without the subdomain names, which only the printers use; `event_table`
-- holds the names of the num_events events, and `punits` and `nodepolicy_keys` hold the num_punits and num_nodepolicy_keys declared entries.
pub record DomainInfo : Type 0 where
  pub name : List ℕ
  pub event_table : List (List ℕ)
  pub event_install_status : ℕ
  pub starting_mode : TraceMode
  pub punits : List Punit
  pub nodepolicy_keys : List NodePolicyKey

pub record DomainTraceConfig : Type 0 where
  pub mode : TraceMode
  pub last_mode : TraceMode
  pub events : ℕ
  pub mode_change_fired : Bool
  pub nodepolicy : List NodePolicyVal

-- `overhead_budget_pct` and `process_fraction` are floats in the source, here in thousandths.
pub record DomainSamplingConfig : Type 0 where
  pub interval_us : ℕ
  pub sampler_thread_own : Bool
  pub max_depth : ℕ
  pub overhead_budget_pct : ℤ
  pub output : SamplingOutput
  pub process_fraction : ℤ

-- One kind of punit in a constraint, and the constraint of a domain.
pub record PunitSet : Type 0 where
  pub is_set : Bool
  pub punit_ids : BitSet

pub record DomainPunitSet : Type 0 where
  pub is_set : Bool
  pub punit : List PunitSet

-- `struct punit_trace_config`: the events of a subset of a domain's punits; the list that `next`
-- links is a list.
pub record PunitTraceConfig : Type 0 where
  pub events : ℕ
  pub domain_punits : List DomainPunitSet
