-- ===== src/Parse/Lexgions.antt =====
-- src/trace_config_parse.c: the sections [Lexgion.default], [Lexgion(Domain).default] and
-- [Lexgion(address or name, ...)], with apply_inheritance.
pub mod Laws
pub mod Bounds
use pinsight.Common.{
  ℕ, zero, suc, ◌+◌, ◌-◌, ◌^◌, Bool, true, false, not, ◌&&◌, ◌||◌, Option, none, some, List, [],
  ◌∷◌, ◌++◌, length, get_or, set, modify, replicate, ltb, ◌==◌, if◌then◌else◌, codes, str_eq,
  starts_with, starts_with_case,
}
use pinsight.Common.Int.{ℤ, pos, negsuc}
use pinsight.BitSet.{BitSet, value}
use pinsight.Config.Mode.{mode_none, policy_off, trigger_first}
use pinsight.Config.Domain.{DomainInfo, DomainTraceConfig, DomainPunitSet, PunitSet}
use pinsight.Config.Rules.{
  LexgionTraceConfig, EventSet, ConfigRef, global_default, domain_default, entry, ConfigTable,
}
use pinsight.Config.Window.{WindowEndAction}
use pinsight.Lexgion.Resolve.{config_at}
use pinsight.Node.{take}
use pinsight.Parse.State.{
  Store, Parser, Outcome, parsed, crashed, ConfigAction, action_set, action_reset, action_remove,
  SectionType, section_none, section_lexgion_default, section_lexgion_domain_default,
  section_lexgion_address_name, max_multi_lexgion, find_domain_index, modify_config, modify_configs,
  events_at,
}
use pinsight.Parse.Text.{drop, trim_whitespace, before, behind, tokens, read_address}
use pinsight.Parse.Entries.{
  get_or_create_address_lexgion_config, get_or_create_named_lexgion_config, restored,
}
use pinsight.Parse.Punits.{parse_punit_set_string}
use pinsight.Parse.Header.{Header, closed}

-- A configuration of which every byte is 0.
abbrev pub zero_set : PunitSet
zero_set = record { is_set = false; punit_ids = record { words = value 0; nbits = 0; nwords = 0 } }

abbrev pub zero_sets : List DomainPunitSet
zero_sets = replicate 8 (record { is_set = false; punit = replicate 4 zero_set })

abbrev pub zero_action : WindowEndAction
zero_action = record {
  mode = replicate 8 mode_none;
  introspect = false;
  introspect_pause_duration = pos 0;
  introspect_script = [];
  fired = false;
  generation = 0;
  trigger = trigger_first;
  window_timeout_sec = pos 0;
  np_target = replicate 8 (record { policy = policy_off; param = 0 });
  np_set = replicate 8 false;
  sampling_target = replicate 8 0;
  sampling_set = replicate 8 false;
}

-- The default after its reset: zero, with the default rate triple.
abbrev pub system_default : LexgionTraceConfig
system_default = record {
  domain_punit_set_set = false;
  domain_punits = zero_sets;
  domain_events = replicate 8 (record { is_set = false; events = 0 });
  trace_starts_at = 0;
  max_num_traces = 2 ^ 32 - 1;
  tracing_rate = 1;
  codeptr = 0;
  removed = false;
  name = [];
  filename_hint = [];
  domain_index = pos 0;
  end_action = zero_action;
}

-- A section's table, its type, and the entries that it names; `lg` is the configuration that is
-- current.
pub record Target : Type 0 where
  pub table : ConfigTable
  pub section_type : SectionType
  pub domain_idx : Option ℕ
  pub lg : Option ConfigRef
  pub configs : List ConfigRef
  pub is_default_section : Bool

unfoldable pub with_events : ℕ → ℕ → LexgionTraceConfig → LexgionTraceConfig
with_events d events c = record c {
  domain_events = set c.domain_events d (record { is_set = true; events = events });
}

-- What the default of a domain starts from.
unfoldable pub domain_base : Store → ℕ → LexgionTraceConfig
unfolding with_events
domain_base s d =
    with_events d (events_at s.domain_trace_config d)
      (record s.table.lexgion_default { codeptr = d + 2 })

abbrev pub nowhere : Parser → Target
nowhere p = record {
  table = p.store.table;
  section_type = section_none;
  domain_idx = none;
  lg = none;
  configs = p.lexgion_configs;
  is_default_section = false;
}

unfoldable pub default_target : Parser → Target
default_target p = record (nowhere p) {
  section_type = section_lexgion_default;
  lg = some global_default;
  is_default_section = true;
}

unfoldable pub domain_target : Parser → List ℕ → Target
unfolding domain_base
domain_target p name = elim (find_domain_index p.store.domain_info_table name) [
  | none ↦ nowhere p
  | some d ↦ record {
    table = modify_config (λ _. domain_base p.store d) p.store.table (domain_default d);
    section_type = section_lexgion_domain_default;
    domain_idx = some d;
    lg = some (domain_default d);
    configs = p.lexgion_configs;
    is_default_section = true;
  }
]

-- A name with its domain, -1 for any, and the hint of its file.
pub record NameSpec : Type 0 where
  pub domain : ℤ
  pub hint : Option (List ℕ)
  pub name : List ℕ

abbrev pub domain_int : Option ℕ → ℤ
domain_int none = negsuc 0
domain_int (some d) = pos d

abbrev two_parts : List ℕ → List ℕ → Option ℕ → NameSpec
two_parts a b none = record { domain = negsuc 0; hint = some a; name = b }
two_parts a b (some d) = record { domain = pos d; hint = none; name = b }

-- `name`, `Domain:name`, `file:name` or `Domain:file:name`; none where the domain of three parts
-- is not known.
unfoldable pub name_spec : List DomainInfo → List ℕ → Option NameSpec
unfolding before behind
name_spec infos buf = elim (behind 58 buf) [
  | none ↦ some (record { domain = negsuc 0; hint = none; name = buf })
  | some r ↦ elim (behind 58 r) [
    | none ↦ some (two_parts (before 58 buf) r (find_domain_index infos (before 58 buf)))
    | some q ↦ elim (find_domain_index infos (before 58 buf)) [
      | none ↦ none
      | some d ↦ some (record { domain = pos d; hint = some (before 58 r); name = q })
    ]
  ]
]

-- The table and the entries of current_lexgion_configs.
abbrev pub Named : Type 0
Named = ConfigTable × List ConfigRef

abbrev add_address : List ConfigRef → ConfigTable × Option ℕ → Option Named
unfolding modify_config
add_address refs (table, none) = none
add_address refs (table, some i) =
    some (modify_config restored table (entry i), refs ++ entry i ∷ [])

abbrev add_name : List ConfigRef → ConfigTable × Option ℕ → Option Named
add_name refs (table, none) = some (table, refs)
add_name refs (table, some i) = some (table, refs ++ entry i ∷ [])

unfoldable pub add_named : ConfigTable → List ConfigRef → Option NameSpec → Option Named
unfolding get_or_create_named_lexgion_config
add_named table refs none = some (table, refs)
add_named table refs (some s) =
    add_name refs (get_or_create_named_lexgion_config table s.domain s.name s.hint)

-- One piece of the list without its spaces; `none` where the table is full and the entry for an
-- address, which is NULL then, is written.
unfoldable pub add_target :
    List DomainInfo → ConfigAction → ConfigTable → List ConfigRef → List ℕ → Option Named
unfolding get_or_create_address_lexgion_config get_or_create_named_lexgion_config add_named
    name_spec modify_config read_address
add_target infos action table refs [] = some (table, refs)
add_target infos action table refs (c ∷ s) =
    if starts_with_case (c ∷ s) (codes "0x")
    then add_address refs (get_or_create_address_lexgion_config table (read_address (c ∷ s)))
    else elim action [
      | action_remove ↦ some (table, refs)
      | _ ↦ add_named table refs (name_spec infos (take 255 (c ∷ s)))
    ]

unfoldable pub add_targets :
    List DomainInfo → ConfigAction → ConfigTable → List ConfigRef → List (List ℕ) → Option Named
unfolding add_target trim_whitespace
add_targets infos action table refs [] = some (table, refs)
add_targets infos action table refs (t ∷ ts) = elim (ltb (length refs) max_multi_lexgion) [
  | false ↦ some (table, refs)
  | true ↦ elim (add_target infos action table refs (trim_whitespace t)) [
    | none ↦ none
    | some named ↦ add_targets infos action named.0 named.1 ts
  ]
]

abbrev first_of : List ConfigRef → Option ConfigRef
first_of [] = none
first_of (r ∷ rs) = some r

unfoldable pub list_target : Parser → ConfigAction → List ℕ → Option Target
unfolding add_targets tokens
list_target p action list =
    elim (add_targets p.store.domain_info_table action p.store.table [] (tokens 44 list)) [
      | none ↦ none
      | some named ↦ some (record {
        table = named.0;
        section_type = section_lexgion_address_name;
        domain_idx = none;
        lg = first_of named.1;
        configs = named.1;
        is_default_section = false;
      })
    ]

-- The target of a section whose name starts with `Lexgion`; `none` is a crash.
unfoldable pub find_target : Parser → ConfigAction → List ℕ → Option Target
unfolding default_target domain_target list_target before behind drop
find_target p action target =
    if str_eq target (codes "Lexgion.default")
    then some (default_target p)
    else if starts_with target (codes "Lexgion(")
    then elim (behind 41 target) [
      | none ↦ some (nowhere p)
      | some after ↦
          let inside = drop 8 (before 41 target) in
          if str_eq after (codes ".default")
          then some (domain_target p inside)
          else list_target p action inside
    ]
    else some (nowhere p)

abbrev inherit_events : List DomainTraceConfig → Option ℕ → LexgionTraceConfig → LexgionTraceConfig
unfolding with_events
inherit_events configs none c = c
inherit_events configs (some d) c =
    with_events d (events_at configs d)
      (record c { domain_punits = modify c.domain_punits d (λ s. record s { is_set = true }) })

-- One name of the inheritance list: `Domain.tracing`, all else is ignored.
unfoldable pub inherit_name :
    List DomainInfo → List DomainTraceConfig → List ℕ → LexgionTraceConfig → LexgionTraceConfig
unfolding with_events before behind
inherit_name infos configs name c = elim (behind 46 name) [
  | none ↦ c
  | some suffix ↦
      if str_eq suffix (codes "tracing")
      then inherit_events configs (find_domain_index infos (before 46 name)) c
      else c
]

unfoldable pub inherit_names :
    List DomainInfo
    → List DomainTraceConfig
    → List (List ℕ)
    → LexgionTraceConfig
    → LexgionTraceConfig
unfolding inherit_name trim_whitespace
inherit_names infos configs [] c = c
inherit_names infos configs (t ∷ ts) c =
    inherit_names infos configs ts (inherit_name infos configs (trim_whitespace t) c)

unfoldable pub apply_inheritance : Store → List ℕ → LexgionTraceConfig → LexgionTraceConfig
unfolding inherit_names tokens
apply_inheritance s text = inherit_names s.domain_info_table s.domain_trace_config (tokens 44 text)

abbrev pub with_sets : List DomainPunitSet → Bool → LexgionTraceConfig → LexgionTraceConfig
with_sets sets valid c = record c {
  domain_punits = sets;
  domain_punit_set_set = if valid then true else c.domain_punit_set_set;
}

-- The punit set is read once for each entry, from the buffer as the reading before leaves it.
unfoldable pub constrain : List DomainInfo → List ℕ → ConfigTable → List ConfigRef → ConfigTable
unfolding parse_punit_set_string modify_config config_at
constrain infos text table [] = table
constrain infos text table (r ∷ rs) =
    let read = parse_punit_set_string infos text (config_at table r).domain_punits in
    constrain infos read.text (modify_config (with_sets read.sets read.valid) table r) rs

unfoldable pub inherit : Store → Option (List ℕ) → ConfigTable → List ConfigRef → ConfigTable
unfolding apply_inheritance modify_configs
inherit s none table refs = table
inherit s (some text) table refs = modify_configs (apply_inheritance s text) table refs

-- The configurations that the body of the section writes.
unfoldable pub written : SectionType → ConfigRef → List ConfigRef → List ConfigRef
written section_lexgion_address_name lg refs = refs
written _ lg refs = lg ∷ []

unfoldable pub constrain_all :
    List DomainInfo → SectionType → Option (List ℕ) → ConfigTable → List ConfigRef → ConfigTable
unfolding constrain
constrain_all infos section_lexgion_address_name (some text) table refs =
    constrain infos text table refs
constrain_all infos _ _ table refs = table

abbrev pub marked_removed : LexgionTraceConfig → LexgionTraceConfig
marked_removed c = record c { removed = true }

unfoldable pub with_table : ConfigTable → Parser → Parser
with_table table p = record p { store = record p.store { table = table } }

abbrev pub reset_table : SectionType → ConfigTable → ConfigTable
reset_table section_lexgion_default table = record table { lexgion_default = system_default }
reset_table _ table = table

-- The action on the configurations of the target; p holds the target's table.
unfoldable pub act : Header → Bool → ConfigRef → Parser → Parser
unfolding inherit_names apply_inheritance constrain with_table written modify_configs
act h is_default lg p = elim h.action [
  | action_remove ↦
      if is_default
      then closed p
      else closed (with_table (modify_configs marked_removed p.store.table p.lexgion_configs) p)
  | action_reset ↦
      if is_default
      then closed (with_table (reset_table p.section_type p.store.table) p)
      else closed p
  | action_set ↦
      with_table
        (constrain_all p.store.domain_info_table p.section_type h.punit_set
          (inherit p.store h.inheritance p.store.table
            (written p.section_type lg p.lexgion_configs))
          p.lexgion_configs)
        p
]

unfoldable pub entered : Target → Parser → Parser
unfolding with_table
entered t p = record (with_table t.table p) {
  section_type = t.section_type;
  domain_idx = t.domain_idx;
  lexgion_config = t.lg;
  lexgion_configs = t.configs;
}

unfoldable pub lexgion_section : Header → Parser → Outcome
unfolding find_target entered act
lexgion_section h p = elim (find_target p h.action h.target) [
  | none ↦ crashed
  | some t ↦ elim t.lg [
    | none ↦ parsed (entered t p)
    | some lg ↦ parsed (act h t.is_default_section lg (entered t p))
  ]
]
