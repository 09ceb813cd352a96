-- ===== src/Config/Rules.antt =====
-- src/trace_config.h: the trace configuration of a lexgion, and the table of all of them.
use pinsight.Common.{ℕ, Bool, List}
use pinsight.Common.Int.{ℤ}
use pinsight.Config.Domain.{DomainPunitSet}
use pinsight.Config.Window.{WindowEndAction}

pub record EventSet : Type 0 where
  pub is_set : Bool
  pub events : ℕ

-- `codeptr` is an address, NULL being 0; the rate triple holds unsigned ints.
pub record LexgionTraceConfig : Type 0 where
  pub domain_punit_set_set : Bool
  pub domain_punits : List DomainPunitSet
  pub domain_events : List EventSet
  pub trace_starts_at : ℕ
  pub max_num_traces : ℕ
  pub tracing_rate : ℕ
  pub codeptr : ℕ
  pub removed : Bool
  pub name : List ℕ
  pub filename_hint : List ℕ
  pub domain_index : ℤ
  pub end_action : WindowEndAction

-- A pointer into all_lexgion_trace_config.
pub data ConfigRef : Type 0 where
  global_default : ConfigRef
  domain_default entry : ℕ → ConfigRef

-- all_lexgion_trace_config: the default, the default of each domain, and the first
-- num_lexgion_trace_configs entries.
pub record ConfigTable : Type 0 where
  pub lexgion_default : LexgionTraceConfig
  pub domain_defaults : List LexgionTraceConfig
  pub entries : List LexgionTraceConfig
  pub config_change_counter : ℕ
