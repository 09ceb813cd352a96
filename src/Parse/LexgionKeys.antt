-- ===== src/Parse/LexgionKeys.antt =====
-- src/trace_config_parse.c: the keys of the Lexgion sections in parse_key_value.
pub mod Laws
use pinsight.Common.{
  ℕ, zero, suc, Bool, true, false, Option, none, some, List, [], ◌∷◌, get_elem?, modify,
  if◌then◌else◌, codes, str_eq, str_case_eq,
}
use pinsight.Config.Mode.{WindowEndTrigger, trigger_first, trigger_all}
use pinsight.Config.Domain.{DomainInfo}
use pinsight.Config.Rules.{LexgionTraceConfig, EventSet, ConfigRef}
use pinsight.Config.Window.{WindowEndAction}
use pinsight.Node.{atoi}
use pinsight.Parse.State.{
  Parser, SectionType, section_lexgion_address_name, find_domain_index, find_event, enables,
  switch_event, modify_configs,
}
use pinsight.Parse.Text.{before, behind, to_uint}
use pinsight.Parse.Window.{parse_window_end_action}
use pinsight.Parse.Lexgions.{zero_action, with_table}

-- The action of a text, with the fields that belong to the cycle or to other keys.
unfoldable pub replaced_action : List DomainInfo → List ℕ → WindowEndAction → WindowEndAction
unfolding parse_window_end_action
replaced_action infos val old = record (parse_window_end_action infos val zero_action).0 {
  generation = old.generation;
  fired = old.fired;
  window_timeout_sec = old.window_timeout_sec;
  trigger = old.trigger;
}

unfoldable pub read_trigger : List ℕ → WindowEndTrigger
read_trigger val = if str_case_eq val (codes "all") then trigger_all else trigger_first

unfoldable pub switch_in : Bool → ℕ → EventSet → EventSet
unfolding switch_event
switch_in enable eid e = record { is_set = true; events = switch_event enable eid e.events }

-- `Domain.Event`, switched on or off.
unfoldable pub override_event : ℕ → ℕ → Bool → LexgionTraceConfig → LexgionTraceConfig
unfolding switch_in
override_event d eid enable c = record c {
  domain_punits = modify c.domain_punits d (λ s. record s { is_set = true });
  domain_events = modify c.domain_events d (switch_in enable eid);
}

abbrev in_domain_events :
    ℕ → List ℕ → List ℕ → Option DomainInfo → LexgionTraceConfig → LexgionTraceConfig
unfolding override_event find_event enables
in_domain_events d event val none c = c
in_domain_events d event val (some info) c = elim (find_event info event) [
  | none ↦ c
  | some eid ↦ override_event d eid (enables info eid val) c
]

unfoldable pub event_key :
    List DomainInfo → List ℕ → List ℕ → LexgionTraceConfig → LexgionTraceConfig
unfolding override_event find_event enables before behind
event_key infos key val c = elim (behind 46 key) [
  | none ↦ c
  | some event ↦ elim (find_domain_index infos (before 46 key)) [
    | none ↦ c
    | some d ↦ in_domain_events d event val (get_elem? infos d) c
  ]
]

unfoldable pub with_action :
    (WindowEndAction → WindowEndAction) → LexgionTraceConfig → LexgionTraceConfig
with_action f c = record c { end_action = f c.end_action }

-- What a key makes of a configuration.
unfoldable pub lexgion_key :
    List DomainInfo → List ℕ → List ℕ → LexgionTraceConfig → LexgionTraceConfig
unfolding with_action replaced_action read_trigger event_key
lexgion_key infos key val c =
    if str_eq key (codes "trace_starts_at")
    then record c { trace_starts_at = to_uint (atoi val) }
    else if str_eq key (codes "max_num_traces")
    then record c { max_num_traces = to_uint (atoi val) }
    else if str_eq key (codes "tracing_rate")
    then record c { tracing_rate = to_uint (atoi val) }
    else if str_eq key (codes "window_end_action")
    then with_action (replaced_action infos val) c
    else if str_eq key (codes "window_timeout")
    then with_action (λ a. record a { window_timeout_sec = atoi val }) c
    else if str_eq key (codes "window_end_trigger")
    then with_action (λ a. record a { trigger = read_trigger val }) c
    else event_key infos key val c

-- The configurations that the section writes: all the entries it named, or its one.
unfoldable pub written_configs : SectionType → ConfigRef → List ConfigRef → List ConfigRef
written_configs section_lexgion_address_name lg [] = lg ∷ []
written_configs section_lexgion_address_name lg (r ∷ rs) = r ∷ rs
written_configs _ lg refs = lg ∷ []

unfoldable pub lexgion_keys : ConfigRef → List ℕ → List ℕ → Parser → Parser
unfolding lexgion_key written_configs
lexgion_keys lg key val p =
    with_table
      (modify_configs (lexgion_key p.store.domain_info_table key val) p.store.table
        (written_configs p.section_type lg p.lexgion_configs))
      p
