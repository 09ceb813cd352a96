-- ===== src/Parse/State.antt =====
-- src/trace_config_parse.c and src/trace_config.c: what the parser of the configuration file reads
-- and writes, and the searches for the names of domains, punit kinds and events. Of the C library,
-- `strtod` is a parameter, where it converts all of a text, and so is `atof`, whose floats are in
-- thousandths.
use pinsight.Common.{
  ℕ, ◌+◌, ◌/◌, ◌%◌, ◌^◌, Bool, true, false, Option, none, some, List, [], ◌∷◌, get_elem?, modify,
  bit_and, bit_or, ◌==◌, ◌||◌, if◌then◌else◌, str_eq, str_case_eq, codes,
}
use pinsight.Common.Int.{ℤ}
use pinsight.Common.Words.{bit_not}
use pinsight.Config.Mode.{NodePolicy}
use pinsight.Config.Domain.{
  DomainPunitSet, Punit, DomainInfo, DomainTraceConfig, DomainSamplingConfig, PunitTraceConfig,
}
use pinsight.Config.Rules.{
  LexgionTraceConfig, ConfigRef, global_default, domain_default, entry, ConfigTable,
}
use pinsight.Knobs.{AppKnob}

-- The global variables; `domain_info_table` has the num_domain registered domains, the other
-- arrays of domains MAX_NUM_DOMAINS elements.
pub record Store : Type 0 where
  pub table : ConfigTable
  pub domain_info_table : List DomainInfo
  pub domain_trace_config : List DomainTraceConfig
  pub domain_sampling_config : List DomainSamplingConfig
  pub domain_punit_trace_config : List (List PunitTraceConfig)
  pub knob_table : List AppKnob
  pub energy_measure_policy : NodePolicy
  pub manifest_interval_sec : ℤ

pub data SectionType : Type 0 where
  section_none section_domain_tracing section_domain_sampling : SectionType
  section_domain_tracing_punit section_lexgion_address_name : SectionType
  section_lexgion_default section_lexgion_domain_default : SectionType
  section_knob section_energy section_manifest : SectionType

pub data ConfigAction : Type 0 where
  action_set action_reset action_remove : ConfigAction

-- The static variables of the parser. The pointer to a punit configuration is its index in the
-- list of the current domain; current_lexgion_configs holds the num_current_lexgion_configs
-- entries in use. `beyond` is what stands in memory behind the array of the punit sets of a section
-- header, which one search reads past its end; it is long enough for that.
pub record Parser : Type 0 where
  pub store : Store
  pub section_type : SectionType
  pub domain_idx : Option ℕ
  pub punit_config : Option ℕ
  pub lexgion_config : Option ConfigRef
  pub lexgion_configs : List ConfigRef
  pub beyond : List DomainPunitSet

pub record Libc : Type 0 where
  pub strtod : List ℕ → Option ℕ
  pub atof : List ℕ → ℤ

-- A section that returns 0; the error return of parse_section_header; a NULL pointer that is
-- dereferenced.
pub data Outcome : Type 0 where
  parsed : Parser → Outcome
  malformed crashed : Outcome

abbrev pub max_multi_lexgion : ℕ
max_multi_lexgion = 64

-- The first index from i on whose name is the given one.
domain_from : List ℕ → List DomainInfo → ℕ → Option ℕ
domain_from name [] i = none
domain_from name (d ∷ ds) i =
    let rest = domain_from name ds (i + 1) in if str_eq d.name name then some i else rest

unfoldable pub find_domain_index : List DomainInfo → List ℕ → Option ℕ
unfolding domain_from
find_domain_index infos name = domain_from name infos 0

kind_from : List ℕ → List Punit → ℕ → Option ℕ
kind_from name [] i = none
kind_from name (p ∷ ps) i =
    let rest = kind_from name ps (i + 1) in if str_eq p.name name then some i else rest

abbrev pub punits_at : List DomainInfo → ℕ → List Punit
punits_at infos d = elim (get_elem? infos d) [ none ↦ [] | some info ↦ info.punits ]

unfoldable pub find_punit_kind_index : List DomainInfo → ℕ → List ℕ → Option ℕ
unfolding kind_from
find_punit_kind_index infos d name = kind_from name (punits_at infos d) 0

event_from : List ℕ → List (List ℕ) → ℕ → Option ℕ
event_from name [] i = none
event_from name (e ∷ es) i =
    let rest = event_from name es (i + 1) in if str_eq e name then some i else rest

-- The two loops over the events of a domain.
unfoldable pub find_event : DomainInfo → List ℕ → Option ℕ
unfolding event_from
find_event d name = event_from name d.event_table 0

-- `on` or `1`, for an event that is installed.
unfoldable pub enables : DomainInfo → ℕ → List ℕ → Bool
enables d eid val =
    if (str_case_eq val (codes "on")) || (str_eq val (codes "1"))
    then d.event_install_status / 2 ^ eid % 2 == 1
    else false

-- The two writes of one bit of an event mask, an `unsigned long`.
unfoldable pub switch_event : Bool → ℕ → ℕ → ℕ
switch_event true eid events = bit_or events (2 ^ eid)
switch_event false eid events = bit_and events (bit_not 64 (2 ^ eid))

-- A write through a `lexgion_trace_config_t *`, and the same write through several.
unfoldable pub modify_config :
    (LexgionTraceConfig → LexgionTraceConfig) → ConfigTable → ConfigRef → ConfigTable
modify_config f table global_default = record table { lexgion_default = f table.lexgion_default }
modify_config f table (domain_default d) = record table {
  domain_defaults = modify table.domain_defaults d f;
}
modify_config f table (entry i) = record table { entries = modify table.entries i f }

unfoldable pub modify_configs :
    (LexgionTraceConfig → LexgionTraceConfig) → ConfigTable → List ConfigRef → ConfigTable
unfolding modify_config
modify_configs f table [] = table
modify_configs f table (r ∷ rs) = modify_configs f (modify_config f table r) rs

-- The events of a domain's tracing instrument.
abbrev pub events_at : List DomainTraceConfig → ℕ → ℕ
events_at configs d = elim (get_elem? configs d) [ none ↦ 0 | some c ↦ c.events ]
