-- ===== src/Lexgion/Resolve.antt =====
-- src/pinsight.c: which trace configuration a lexgion uses, and when it is looked up again.
-- Steps 1 to 4 of lexgion_set_top_trace_bit_domain_event and of lexgion_set_trace_config.
pub mod Order
use pinsight.Common.{
  ℕ, zero, suc, ◌+◌, Bool, true, false, not, ◌&&◌, ◌||◌, Option, none, some, List, [], ◌∷◌,
  get_elem?, get_or, ◌==◌, if◌then◌else◌, str_eq, starts_with,
}
use pinsight.Common.Int.{ℤ, pos, negsuc}
use pinsight.Config.Rules.{
  LexgionTraceConfig, ConfigRef, global_default, domain_default, entry, ConfigTable,
}
use pinsight.Lexgion.{Lexgion}

-- The loop over lexgion_trace_config: the first entry that a test accepts.
unfoldable pub first_entry : (LexgionTraceConfig → Bool) → List LexgionTraceConfig → Option ℕ
first_entry accepts [] = none
first_entry accepts (c ∷ cs) =
    let rest = first_entry accepts cs in
    if accepts c then some 0 else elim rest [ none ↦ none | some i ↦ some (suc i) ]

abbrev pub is_empty : List ℕ → Bool
is_empty [] = true
is_empty (_ ∷ _) = false

-- lexgion_trace_config[i].codeptr == lgp->codeptr_ra && !removed.
abbrev pub at_codeptr : ℕ → LexgionTraceConfig → Bool
at_codeptr codeptr c = (c.codeptr == codeptr) && not c.removed

-- c->domain_index == -1 || c->domain_index == domain.
abbrev pub in_domain : ℤ → ℕ → Bool
in_domain (pos d) domain = d == domain
in_domain (negsuc n) domain = n == 0

-- The hint of an entry, where both have one, is a prefix of the lexgion's.
abbrev pub hint_fits : List ℕ → Option (List ℕ) → Bool
hint_fits wanted none = true
hint_fits wanted (some hint) = is_empty wanted || starts_with hint wanted

unfoldable pub at_name : ℕ → List ℕ → Option (List ℕ) → LexgionTraceConfig → Bool
at_name domain name hint c =
    not c.removed
    && (c.codeptr == 0)
    && not (is_empty c.name)
    && in_domain c.domain_index domain
    && hint_fits c.filename_hint hint
    && str_eq name c.name

-- The search by name, for a lexgion that has one.
unfoldable pub named_entry :
    ℕ → Option (List ℕ) → Option (List ℕ) → List LexgionTraceConfig → Option ℕ
unfolding first_entry
named_entry domain none hint entries = none
named_entry domain (some name) hint entries = first_entry (at_name domain name hint) entries

abbrev pub codeptr_of : List LexgionTraceConfig → ℕ → ℕ
codeptr_of configs i = elim (get_elem? configs i) [ none ↦ 0 | some c ↦ c.codeptr ]

-- Steps 3 and 4: the domain's default if it is filled in, else the global one.
unfoldable pub default_config : ConfigTable → ℕ → ConfigRef
default_config table domain =
    if codeptr_of table.domain_defaults domain == 0 then global_default else domain_default domain

unfoldable pub resolve : ConfigTable → Lexgion → ℕ → ConfigRef
unfolding first_entry named_entry default_config
resolve table lg domain = elim (first_entry (at_codeptr lg.codeptr_ra) table.entries) [
  | some i ↦ entry i
  | none ↦ elim (named_entry domain lg.name lg.filename_hint table.entries) [
    | some i ↦ entry i
    | none ↦ default_config table domain
  ]
]

-- The cached configuration is current: it is set, and no reload has happened since.
unfoldable pub is_resolved : ConfigTable → Lexgion → Bool
is_resolved table lg = elim lg.trace_config [
  | none ↦ false
  | some _ ↦ lg.config_change_counter == table.config_change_counter
]

-- lexgion_set_trace_config; it returns the lexgion's field trace_config.
unfoldable pub set_trace_config : ConfigTable → ℕ → Lexgion → Lexgion
unfolding resolve is_resolved
set_trace_config table domain lg = if is_resolved table lg then lg else record lg {
  trace_config = some (resolve table lg domain);
  config_change_counter = table.config_change_counter;
}

-- The configuration behind a pointer; `resolve` returns pointers into the table only.
unfoldable pub config_at : ConfigTable → ConfigRef → LexgionTraceConfig
config_at table global_default = table.lexgion_default
config_at table (domain_default d) = get_or table.domain_defaults d table.lexgion_default
config_at table (entry i) = get_or table.entries i table.lexgion_default

-- `lgp->trace_config`, which every caller has resolved before.
unfoldable pub config_of : ConfigTable → Lexgion → LexgionTraceConfig
unfolding config_at
config_of table lg = elim lg.trace_config [
  | none ↦ table.lexgion_default
  | some r ↦ config_at table r
]
