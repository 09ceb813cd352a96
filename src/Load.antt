-- ===== src/Load.antt =====
-- src/trace_config.c: how a run gets its configuration, from the defaults, the configuration file
-- and the environment. `env` is getenv, and Files what stat and fopen find.
pub mod Laws
use pinsight.Common.{
  ℕ, zero, suc, ◌+◌, ◌-◌, ◌*◌, ◌%◌, ◌^◌, Bool, true, false, not, ◌&&◌, ◌||◌, Option, none, some,
  List, [], ◌∷◌, ◌++◌, length, get_elem?, set, modify, map, leb, ltb, ◌==◌, if◌then◌else◌, codes,
  str_eq, str_case_eq, skip_spaces, bit_xor,
}
use pinsight.Common.Int.{ℤ, pos, negsuc, ltb_ℤ}
use pinsight.Config.Mode.{
  TraceMode, mode_none, off, standby, monitoring, tracing, NodePolicyVal, trigger_all,
}
use pinsight.Config.Domain.{DomainInfo, DomainTraceConfig, DomainSamplingConfig, NodePolicyKey}
use pinsight.Config.Rules.{LexgionTraceConfig, ConfigTable}
use pinsight.Config.Window.{WindowEndAction}
use pinsight.Lexgion.Resolve.{first_entry, is_empty}
use pinsight.Node.{atoi}
use pinsight.Parse.State.{Store, Parser, Libc, events_at}
use pinsight.Parse.Text.{behind, Scanned, strtol, to_uint, to_int}
use pinsight.Parse.Entries.{has_codeptr}
use pinsight.Parse.Domains.{default_sampling}
use pinsight.Parse.Lexgions.{zero_action, domain_base}
use pinsight.Parse.Window.{parse_window_end_action}
use pinsight.Parse.File.{parse_config_file}

-- retrieve_lexgion_trace_config, with NULL as `none`.
abbrev kept : List LexgionTraceConfig → ℕ → Option ℕ
kept cs i = elim (get_elem? cs i) [ none ↦ none | some c ↦ if c.removed then none else some i ]

unfoldable pub retrieve_lexgion_trace_config : ConfigTable → ℕ → Option ℕ
unfolding first_entry
retrieve_lexgion_trace_config table codeptr =
    elim (first_entry (has_codeptr codeptr) table.entries) [
      | none ↦ none
      | some i ↦ kept table.entries i
    ]

unfoldable pub seed_defaults : List DomainSamplingConfig → List DomainSamplingConfig
seed_defaults [] = []
seed_defaults (c ∷ cs) = default_sampling c ∷ seed_defaults cs

abbrev to_upper : ℕ → ℕ
to_upper c = if leb b'a' c && leb c b'z' then c - 32 else c

unfoldable pub upper : List ℕ → List ℕ
upper [] = []
upper (c ∷ s) = to_upper c ∷ upper s

-- The mode that PINSIGHT_TRACE_<DOMAIN> asks for.
unfoldable pub env_mode : List ℕ → TraceMode
env_mode val =
    if str_case_eq val (codes "OFF") || str_case_eq val (codes "FALSE") || str_eq val (codes "0")
    then off
    else if str_case_eq val (codes "STANDBY")
    then standby
    else if str_case_eq val (codes "MONITORING") || str_case_eq val (codes "MONITOR")
    then monitoring
    else tracing

abbrev override_mode : Option (List ℕ) → DomainTraceConfig → DomainTraceConfig
unfolding env_mode
override_mode none c = c
override_mode (some val) c = record c { mode = env_mode val }

-- The two loops over the registered domains.
unfoldable pub override_modes :
    (List ℕ → Option (List ℕ)) → List DomainInfo → List DomainTraceConfig → List DomainTraceConfig
unfolding env_mode upper
override_modes env [] cs = cs
override_modes env (d ∷ ds) [] = []
override_modes env (d ∷ ds) (c ∷ cs) =
    override_mode (env (codes "PINSIGHT_TRACE_" ++ upper d.name)) c ∷ override_modes env ds cs

abbrev interval : ℤ → ℕ
interval (pos n) = to_uint (pos n)
interval (negsuc n) = 0

abbrev override_interval : Option (List ℕ) → DomainSamplingConfig → DomainSamplingConfig
override_interval none c = c
override_interval (some val) c = record c { interval_us = interval (atoi val) }

unfoldable pub override_intervals :
    (List ℕ → Option (List ℕ))
    → List DomainInfo
    → List DomainSamplingConfig
    → List DomainSamplingConfig
unfolding upper
override_intervals env [] cs = cs
override_intervals env (d ∷ ds) [] = []
override_intervals env (d ∷ ds) (c ∷ cs) =
    override_interval (env (codes "PINSIGHT_SAMPLING_" ++ upper d.name)) c
    ∷ override_intervals env ds cs

-- sscanf with the format `%d:%d:%d:%d`: the numbers up to the first that is missing.
unfoldable pub colon_numbers : ℕ → List ℕ → List ℤ
unfolding strtol behind
colon_numbers zero s = []
colon_numbers (suc n) s = elim (strtol 10 s) [
  | none ↦ []
  | some t ↦ to_int t.number ∷ (elim t.rest [
    | [] ↦ []
    | c ∷ rest ↦ elim (c == 58) [ true ↦ colon_numbers n rest | false ↦ [] ]
  ])
]

abbrev with_timeout : ℤ → WindowEndAction → WindowEndAction
with_timeout v a = record a { window_timeout_sec = v }

unfoldable pub with_numbers : List ℤ → LexgionTraceConfig → LexgionTraceConfig
with_numbers [] c = c
with_numbers (a ∷ []) c = record c { trace_starts_at = to_uint a }
with_numbers (a ∷ b ∷ []) c = record c { trace_starts_at = to_uint a; max_num_traces = to_uint b }
with_numbers (a ∷ b ∷ r ∷ []) c = record c {
  trace_starts_at = to_uint a;
  max_num_traces = to_uint b;
  tracing_rate = to_uint r;
}
with_numbers (a ∷ b ∷ r ∷ w ∷ _) c = record c {
  trace_starts_at = to_uint a;
  max_num_traces = to_uint b;
  tracing_rate = to_uint r;
  end_action = with_timeout w c.end_action;
}

-- The text behind n colons.
unfoldable pub behind_colons : ℕ → List ℕ → Option (List ℕ)
unfolding behind
behind_colons zero s = some s
behind_colons (suc n) s = elim (behind 58 s) [ none ↦ none | some t ↦ behind_colons n t ]

abbrev with_end_action : List DomainInfo → Option (List ℕ) → LexgionTraceConfig → LexgionTraceConfig
unfolding parse_window_end_action
with_end_action infos none c = c
with_end_action infos (some []) c = c
with_end_action infos (some (d ∷ s)) c = record c {
  end_action = (parse_window_end_action infos (d ∷ s) c.end_action).0;
}

-- PINSIGHT_WINDOW.
unfoldable pub override_window :
    List DomainInfo → Option (List ℕ) → LexgionTraceConfig → LexgionTraceConfig
unfolding colon_numbers with_numbers behind_colons parse_window_end_action
override_window infos none c = c
override_window infos (some s) c =
    with_end_action infos (behind_colons 4 s) (with_numbers (colon_numbers 4 s) c)

unfoldable pub setup_config_env : (List ℕ → Option (List ℕ)) → Store → Store
unfolding override_modes override_intervals override_window
setup_config_env env s = record s {
  domain_trace_config = override_modes env s.domain_info_table s.domain_trace_config;
  domain_sampling_config = override_intervals env s.domain_info_table s.domain_sampling_config;
  table = record s.table {
    lexgion_default =
        override_window s.domain_info_table (env (codes "PINSIGHT_WINDOW")) s.table.lexgion_default;
  };
}

pub record Files : Type 0 where
  pub mtime : List ℕ → Option ℕ
  pub lines : List ℕ → Option (List (List ℕ))

-- The parser with `last_config_mtime`.
pub record Loader : Type 0 where
  pub parser : Parser
  pub last_config_mtime : ℕ

unfoldable pub invalidate_config_mtime : Loader → Loader
invalidate_config_mtime l = record l { last_config_mtime = 0 }

-- The default of a domain without a section of its own.
abbrev filled : Store → ℕ → LexgionTraceConfig → LexgionTraceConfig
unfolding domain_base
filled s d c = if c.codeptr == 0 then record (domain_base s d) { codeptr = d + 1 } else c

-- The loops over the registered domains, from domain i on.
unfoldable pub clear_codeptrs : List DomainInfo → List LexgionTraceConfig → List LexgionTraceConfig
clear_codeptrs [] cs = cs
clear_codeptrs (d ∷ ds) [] = []
clear_codeptrs (d ∷ ds) (c ∷ cs) = record c { codeptr = 0 } ∷ clear_codeptrs ds cs

unfoldable pub fill_defaults :
    Store → ℕ → List DomainInfo → List LexgionTraceConfig → List LexgionTraceConfig
unfolding domain_base
fill_defaults s i [] cs = cs
fill_defaults s i (d ∷ ds) [] = []
fill_defaults s i (d ∷ ds) (c ∷ cs) = filled s i c ∷ fill_defaults s (i + 1) ds cs

abbrev invalidated : LexgionTraceConfig → LexgionTraceConfig
invalidated c = if is_empty c.name then c else record c { removed = true }

unfoldable pub invalidate_named : List LexgionTraceConfig → List LexgionTraceConfig
invalidate_named [] = []
invalidate_named (c ∷ cs) = invalidated c ∷ invalidate_named cs

abbrev pub with_table : (Store → ConfigTable) → Parser → Parser
with_table f p = record p { store = record p.store { table = f p.store } }

-- What precedes and what follows the parsing of a changed file.
unfoldable pub prepare : Store → ConfigTable
unfolding clear_codeptrs invalidate_named
prepare s = record s.table {
  domain_defaults = clear_codeptrs s.domain_info_table s.table.domain_defaults;
  entries = invalidate_named s.table.entries;
}

unfoldable pub complete : Store → ConfigTable
unfolding fill_defaults
complete s = record s.table {
  domain_defaults = fill_defaults s 0 s.domain_info_table s.table.domain_defaults;
  config_change_counter = (s.table.config_change_counter + 1) % 2 ^ 32;
}

unfoldable pub reload : Libc → Option (List (List ℕ)) → Parser → Option Parser
unfolding prepare complete parse_config_file
reload libc lines p = elim (parse_config_file libc lines (with_table prepare p)) [
  | none ↦ none
  | some p' ↦ some (with_table complete p')
]

abbrev or_default : Option (List ℕ) → List ℕ
or_default none = codes "pinsight_trace_config.txt"
or_default (some path) = path

-- The argument, else PINSIGHT_CONFIG_FILE, else the file of the working directory.
unfoldable pub config_path : (List ℕ → Option (List ℕ)) → Option (List ℕ) → List ℕ
config_path env none = or_default (env (codes "PINSIGHT_CONFIG_FILE"))
config_path env (some path) = path

abbrev loaded : ℕ → Option Parser → Option Loader
loaded mtime none = none
loaded mtime (some p) = some (record { parser = p; last_config_mtime = mtime })

-- A file whose time is unchanged is not read again; `none` is a crash.
unfoldable pub load_config :
    Libc → (List ℕ → Option (List ℕ)) → Files → Option (List ℕ) → Loader → Option Loader
unfolding reload config_path
load_config libc env files path l = elim (files.mtime (config_path env path)) [
  | none ↦ some l
  | some mtime ↦
      if mtime == l.last_config_mtime
      then some l
      else loaded mtime (reload libc (files.lines (config_path env path)) l.parser)
]

-- The FNV-1a hash of pinsight_config_dump_refresh, over the bytes of the dump; h is an uint64_t.
unfoldable pub dump_hash : ℕ → List ℕ → ℕ
dump_hash h [] = h
dump_hash h (c ∷ s) = dump_hash (bit_xor h c * 1099511628211 % 2 ^ 64) s

-- The node policies that a domain declares, over the array that is there.
unfoldable pub seed_policies : List NodePolicyKey → List NodePolicyVal → List NodePolicyVal
seed_policies [] vs = vs
seed_policies (k ∷ ks) [] = []
seed_policies (k ∷ ks) (v ∷ vs) = record { policy = k.dflt; param = 0 } ∷ seed_policies ks vs

unfoldable pub seed_domains : List DomainInfo → List DomainTraceConfig → List DomainTraceConfig
unfolding seed_policies
seed_domains [] cs = cs
seed_domains (d ∷ ds) [] = []
seed_domains (d ∷ ds) (c ∷ cs) =
    record {
      mode = d.starting_mode;
      last_mode = mode_none;
      events = d.event_install_status;
      mode_change_fired = false;
      nodepolicy = seed_policies d.nodepolicy_keys c.nodepolicy;
    }
    ∷ seed_domains ds cs

unfoldable pub seed_lexgion_default : LexgionTraceConfig → LexgionTraceConfig
seed_lexgion_default c = record c {
  codeptr = 0;
  tracing_rate = 1;
  trace_starts_at = 0;
  max_num_traces = 2 ^ 32 - 1;
  end_action = zero_action;
}

-- initial_setup_config before the file is loaded, from the domains that registered.
unfoldable pub seed : Store → Store
unfolding seed_domains seed_defaults seed_lexgion_default clear_codeptrs
seed s = record s {
  domain_trace_config = seed_domains s.domain_info_table s.domain_trace_config;
  domain_sampling_config = seed_defaults s.domain_sampling_config;
  table = record s.table {
    lexgion_default = seed_lexgion_default s.table.lexgion_default;
    domain_defaults = clear_codeptrs s.domain_info_table s.table.domain_defaults;
  };
}

abbrev with_env : (List ℕ → Option (List ℕ)) → Option Loader → Option Loader
unfolding setup_config_env
with_env env none = none
with_env env (some l) =
    some (record l { parser = record l.parser { store = setup_config_env env l.parser.store } })

abbrev held_back : DomainTraceConfig → DomainTraceConfig
held_back c = record c { last_mode = c.mode; mode = standby }

-- `python` is the index of the Python domain, where the library is built with it.
unfoldable pub hold_python : Option ℕ → Store → Store
hold_python none s = s
hold_python (some d) s = record s { domain_trace_config = modify s.domain_trace_config d held_back }

unfoldable pub initial_setup_config :
    Libc → (List ℕ → Option (List ℕ)) → Files → Option ℕ → Loader → Option Loader
unfolding seed load_config setup_config_env hold_python
initial_setup_config libc env files python l =
    let start = record l { parser = record l.parser { store = seed l.parser.store } } in
    elim (with_env env (load_config libc env files none start)) [
      | none ↦ none
      | some l' ↦
          some
            (record l' { parser = record l'.parser { store = hold_python python l'.parser.store } })
    ]
