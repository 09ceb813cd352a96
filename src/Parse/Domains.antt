-- ===== src/Parse/Domains.antt =====
-- src/trace_config_parse.c: the sections [Domain.sampling] and [Domain.tracing], and the resets of
-- the two instruments of a domain.
use pinsight.Common.{ℕ, false, none, some, get_elem?, modify}
use pinsight.Common.Int.{pos}
use pinsight.Config.Mode.{output_record}
use pinsight.Config.Domain.{DomainInfo, DomainTraceConfig, DomainSamplingConfig}
use pinsight.Parse.State.{
  Store, Parser, ConfigAction, action_set, action_reset, action_remove, section_domain_tracing,
  section_domain_sampling, find_domain_index,
}
use pinsight.Parse.Text.{before, before_last}
use pinsight.Parse.Header.{Header}

abbrev pub default_sampling : DomainSamplingConfig → DomainSamplingConfig
default_sampling c = record c {
  interval_us = 0;
  max_depth = 128;
  overhead_budget_pct = pos 0;
  output = output_record;
  sampler_thread_own = false;
  process_fraction = pos 1000;
}

unfoldable pub reset_domain_sampling_config : Store → ℕ → Store
reset_domain_sampling_config s d = record s {
  domain_sampling_config = modify s.domain_sampling_config d default_sampling;
}

abbrev pub installed : DomainInfo → DomainTraceConfig → DomainTraceConfig
installed info c = record c {
  events = info.event_install_status;
  last_mode = c.mode;
  mode = info.starting_mode;
  mode_change_fired = false;
}

unfoldable pub reset_domain_trace_config : Store → ℕ → Store
reset_domain_trace_config s d = elim (get_elem? s.domain_info_table d) [
  | none ↦ s
  | some info ↦ record s { domain_trace_config = modify s.domain_trace_config d (installed info) }
]

unfoldable pub with_store : Store → Parser → Parser
with_store s p = record p { store = s }

-- The section of the domain d; a removal is refused.
unfoldable pub at_sampling : ConfigAction → ℕ → Parser → Parser
unfolding with_store reset_domain_sampling_config
at_sampling action_remove d p = record p { domain_idx = some d }
at_sampling action_reset d p = record (with_store (reset_domain_sampling_config p.store d) p) {
  domain_idx = some d;
}
at_sampling action_set d p = record p {
  section_type = section_domain_sampling;
  domain_idx = some d;
}

-- p has no section and no domain, as every header starts.
unfoldable pub sampling_section : Header → Parser → Parser
unfolding with_store reset_domain_sampling_config before_last
sampling_section h p =
    elim (find_domain_index p.store.domain_info_table (before_last 46 h.target)) [
      | none ↦ p
      | some d ↦ at_sampling h.action d p
    ]

unfoldable pub at_tracing : ConfigAction → ℕ → Parser → Parser
unfolding with_store reset_domain_trace_config
at_tracing action_remove d p = record p { domain_idx = some d }
at_tracing action_reset d p = record (with_store (reset_domain_trace_config p.store d) p) {
  domain_idx = some d;
}
at_tracing action_set d p = record p { section_type = section_domain_tracing; domain_idx = some d }

unfoldable pub tracing_section : Header → Parser → Parser
unfolding with_store reset_domain_trace_config before
tracing_section h p = elim (find_domain_index p.store.domain_info_table (before 46 h.target)) [
  | none ↦ record p { section_type = section_domain_tracing }
  | some d ↦ at_tracing h.action d p
]
