-- ===== src/Parse/Sizes/Headers.antt =====
-- A section header keeps the sizes of the tables.
use pinsight.Common.{
  ℕ, Bool, Option, none, some, List, [], ◌∷◌, length, modify, refl, arith, inl, inr, Option-cases,
  both_branches, length-modify, codes, str_eq, starts_with, get_elem?, subst,
}
use pinsight.Config.Domain.{DomainInfo, DomainPunitSet, PunitTraceConfig}
use pinsight.Config.Rules.{ConfigTable, ConfigRef}
use pinsight.Lexgion.Resolve.{config_at}
use pinsight.Parse.State.{
  Store, Parser, Outcome, parsed, ConfigAction, action_set, action_reset, action_remove,
  SectionType, section_none, section_domain_tracing, section_domain_sampling,
  section_domain_tracing_punit, section_lexgion_address_name, section_lexgion_default,
  section_lexgion_domain_default, section_knob, section_energy, section_manifest, modify_config,
  modify_configs, find_domain_index,
}
use pinsight.Parse.Text.{before, before_last}
use pinsight.Parse.Punits.{parse_punit_set_string}
use pinsight.Parse.Header.{Header, read_header, opened, target_has_suffix}
use pinsight.Parse.Lexgions.{
  constrain, act, lexgion_section, entered, with_table, with_sets, inherit, apply_inheritance,
  written, marked_removed, reset_table, find_target, Target, constrain_all, zero_sets,
}
use pinsight.Parse.Lexgions.Bounds.{
  Grows, Grows-refl, Grows-trans, modify_config-Grows, modify_configs-Grows, TargetGrows,
  find_target-TargetGrows,
}
use pinsight.Parse.Domains.{
  sampling_section, tracing_section, with_store, reset_domain_sampling_config,
  reset_domain_trace_config, default_sampling, installed, at_sampling, at_tracing,
}
use pinsight.Parse.PunitSections.{
  punit_section, target_section, config_section, open_config, drop_config, remove_kind, named_kind,
  is_wildcard, find_existing, set_domain, write_list, open_found, drop_found, at_domain,
  append_config, configs_of, unlink, punit_action,
}
use pinsight.Parse.Sections.{section_of, parse_section_header}
use pinsight.Parse.Sizes.{Evolves, Evolves-refl, Evolves-trans, Evolves-table, OutcomeEvolves}

constrain-Grows :
    (infos : List DomainInfo) (text : List ℕ) (t : ConfigTable) (rs : List ConfigRef)
    → Grows t.entries (constrain infos text t rs).entries
unfolding constrain
constrain-Grows infos text t [] = Grows-refl t.entries
constrain-Grows infos text t (r ∷ rs) =
    let read = parse_punit_set_string infos text (config_at t r).domain_punits in
    Grows-trans (modify_config-Grows (with_sets read.sets read.valid) t r)
      (constrain-Grows infos read.text (modify_config (with_sets read.sets read.valid) t r) rs)

constrain_all-Grows :
    (infos : List DomainInfo) (section : SectionType) (text : Option (List ℕ)) (t : ConfigTable)
    (rs : List ConfigRef)
    → Grows t.entries (constrain_all infos section text t rs).entries
unfolding constrain_all constrain
constrain_all-Grows infos section_lexgion_address_name (some text) t rs =
    constrain-Grows infos text t rs
constrain_all-Grows infos section_lexgion_address_name none t rs = Grows-refl t.entries
constrain_all-Grows infos section_none text t rs = Grows-refl t.entries
constrain_all-Grows infos section_domain_tracing text t rs = Grows-refl t.entries
constrain_all-Grows infos section_domain_sampling text t rs = Grows-refl t.entries
constrain_all-Grows infos section_domain_tracing_punit text t rs = Grows-refl t.entries
constrain_all-Grows infos section_lexgion_default text t rs = Grows-refl t.entries
constrain_all-Grows infos section_lexgion_domain_default text t rs = Grows-refl t.entries
constrain_all-Grows infos section_knob text t rs = Grows-refl t.entries
constrain_all-Grows infos section_energy text t rs = Grows-refl t.entries
constrain_all-Grows infos section_manifest text t rs = Grows-refl t.entries

inherit-Grows :
    (s : Store) (text : Option (List ℕ)) (t : ConfigTable) (rs : List ConfigRef)
    → Grows t.entries (inherit s text t rs).entries
unfolding inherit modify_configs apply_inheritance
inherit-Grows s none t rs = Grows-refl t.entries
inherit-Grows s (some text) t rs = modify_configs-Grows (apply_inheritance s text) t rs

reset_table-Grows :
    (section : SectionType) (t : ConfigTable) → Grows t.entries (reset_table section t).entries
reset_table-Grows section_none t = Grows-refl t.entries
reset_table-Grows section_domain_tracing t = Grows-refl t.entries
reset_table-Grows section_domain_sampling t = Grows-refl t.entries
reset_table-Grows section_domain_tracing_punit t = Grows-refl t.entries
reset_table-Grows section_lexgion_address_name t = Grows-refl t.entries
reset_table-Grows section_lexgion_default t = Grows-refl t.entries
reset_table-Grows section_lexgion_domain_default t = Grows-refl t.entries
reset_table-Grows section_knob t = Grows-refl t.entries
reset_table-Grows section_energy t = Grows-refl t.entries
reset_table-Grows section_manifest t = Grows-refl t.entries

abbrev Continues : Parser → Parser → Type 0
Continues p q = Evolves p.store q.store

act-Continues :
    (action : ConfigAction) (target : List ℕ) (inheritance punit_set : Option (List ℕ))
    (is_default : Bool) (lg : ConfigRef) (p : Parser)
    → Continues p (
        act
          (record {
            action = action;
            target = target;
            inheritance = inheritance;
            punit_set = punit_set;
          })
          is_default
          lg
          p)
unfolding act with_table
act-Continues action_remove target inheritance punit_set is_default lg p =
    both_branches (Continues p) is_default (Evolves-refl p.store) (
      Evolves-table p.store (modify_configs marked_removed p.store.table p.lexgion_configs)
        (modify_configs-Grows marked_removed p.store.table p.lexgion_configs))
act-Continues action_reset target inheritance punit_set is_default lg p =
    both_branches (Continues p) is_default
      (Evolves-table p.store (reset_table p.section_type p.store.table)
        (reset_table-Grows p.section_type p.store.table))
      (Evolves-refl p.store)
act-Continues action_set target inheritance punit_set is_default lg p =
    let rs = written p.section_type lg p.lexgion_configs in
    let t = inherit p.store inheritance p.store.table rs in
    Evolves-table p.store
      (constrain_all p.store.domain_info_table p.section_type punit_set t p.lexgion_configs)
      (Grows-trans (inherit-Grows p.store inheritance p.store.table rs) (
        constrain_all-Grows p.store.domain_info_table p.section_type punit_set t p.lexgion_configs))

entered_then :
    (h : Header) (t : Target) (lg : Option ConfigRef) (p : Parser)
    → Grows p.store.table.entries t.table.entries
    → OutcomeEvolves p.store (elim lg [
      | none ↦ parsed (entered t p)
      | some r ↦ parsed (act h t.is_default_section r (entered t p))
    ])
unfolding entered with_table
entered_then h t none p g = Evolves-table p.store t.table g
entered_then h t (some r) p g =
    Evolves-trans (Evolves-table p.store t.table g) (
      act-Continues h.action h.target h.inheritance h.punit_set t.is_default_section r
        (entered t p))

lexgion_section-OutcomeEvolves :
    (h : Header) (p : Parser) → OutcomeEvolves p.store (lexgion_section h p)
unfolding lexgion_section
lexgion_section-OutcomeEvolves h p = elim (Option-cases (find_target p h.action h.target)) [
  | inl e ↦ rw (e, lexgion_section) tt
  | inr (t, e) ↦
      rw (e, lexgion_section)
        (entered_then h t t.lg p (
          subst (λ (r : Option Target). TargetGrows p.store.table.entries r) e
            (find_target-TargetGrows p h.action h.target)))
]

-- The two instruments of a domain.
Evolves-sampling : (s : Store) (d : ℕ) → Evolves s (reset_domain_sampling_config s d)
unfolding reset_domain_sampling_config
Evolves-sampling s d = record {
  entries = Grows-refl s.table.entries;
  infos = refl;
  tracing = refl;
  sampling = length-modify s.domain_sampling_config d default_sampling;
  punits = refl;
  knobs_kept = omega arith;
  knobs_bounded = λ h. h;
}

Evolves-tracing : (s : Store) (d : ℕ) → Evolves s (reset_domain_trace_config s d)
unfolding reset_domain_trace_config
Evolves-tracing s d = elim (Option-cases (get_elem? s.domain_info_table d)) [
  | inl e ↦ rw (e, reset_domain_trace_config) (Evolves-refl s)
  | inr (info, e) ↦
      rw (e, reset_domain_trace_config)
        (record {
          entries = Grows-refl s.table.entries;
          infos = refl;
          tracing = length-modify s.domain_trace_config d (installed info);
          sampling = refl;
          punits = refl;
          knobs_kept = omega arith;
          knobs_bounded = λ h. h;
        })
]

at_sampling-Continues :
    (action : ConfigAction) (d : ℕ) (p : Parser) → Continues p (at_sampling action d p)
unfolding at_sampling with_store reset_domain_sampling_config
at_sampling-Continues action_set d p = Evolves-refl p.store
at_sampling-Continues action_reset d p = Evolves-sampling p.store d
at_sampling-Continues action_remove d p = Evolves-refl p.store

at_tracing-Continues :
    (action : ConfigAction) (d : ℕ) (p : Parser) → Continues p (at_tracing action d p)
unfolding at_tracing with_store reset_domain_trace_config
at_tracing-Continues action_set d p = Evolves-refl p.store
at_tracing-Continues action_reset d p = Evolves-tracing p.store d
at_tracing-Continues action_remove d p = Evolves-refl p.store

sampling_section-Continues : (h : Header) (p : Parser) → Continues p (sampling_section h p)
unfolding sampling_section
sampling_section-Continues h p =
    elim (Option-cases (find_domain_index p.store.domain_info_table (before_last 46 h.target))) [
      | inl e ↦ rw (e, sampling_section) (Evolves-refl p.store)
      | inr (d, e) ↦ rw (e, sampling_section) (at_sampling-Continues h.action d p)
    ]

tracing_section-Continues : (h : Header) (p : Parser) → Continues p (tracing_section h p)
unfolding tracing_section
tracing_section-Continues h p =
    elim (Option-cases (find_domain_index p.store.domain_info_table (before 46 h.target))) [
      | inl e ↦ rw (e, tracing_section) (Evolves-refl p.store)
      | inr (d, e) ↦ rw (e, tracing_section) (at_tracing-Continues h.action d p)
    ]

-- A write to the list of one domain.
Evolves-punits :
    (s : Store) (d : ℕ) (f : List PunitTraceConfig → List PunitTraceConfig)
    → Evolves s (record s { domain_punit_trace_config = modify s.domain_punit_trace_config d f })
Evolves-punits s d f = record {
  entries = Grows-refl s.table.entries;
  infos = refl;
  tracing = refl;
  sampling = refl;
  punits = length-modify s.domain_punit_trace_config d f;
  knobs_kept = omega arith;
  knobs_bounded = λ h. h;
}

write_list-Continues :
    (d : ℕ) (f : List PunitTraceConfig → List PunitTraceConfig) (p : Parser)
    → Continues p (write_list d f p)
write_list-Continues d f p = Evolves-punits p.store d f

open_config-Continues : (h : Header) (d i : ℕ) (p : Parser) → Continues p (open_config h d i p)
unfolding open_config
open_config-Continues h d i p = Evolves-punits p.store d _

open_found-Continues :
    (h : Header) (d : ℕ) (sets : List DomainPunitSet) (p : Parser) (found : Option ℕ)
    → Continues p (open_found h d sets p found)
unfolding open_config append_config
open_found-Continues h d sets p none =
    Evolves-trans (write_list-Continues d _ p)
      (open_config-Continues h d (length (configs_of p d)) (append_config d sets p))
open_found-Continues h d sets p (some i) = open_config-Continues h d i p

drop_found-Continues :
    (d : ℕ) (sets : List DomainPunitSet) (p : Parser) (found : Option ℕ)
    → Continues p (drop_found d sets p found)
unfolding drop_config
drop_found-Continues d sets p none = Evolves-refl p.store
drop_found-Continues d sets p (some i) = write_list-Continues d _ p

config_section-Continues :
    (action : ConfigAction) (h : Header) (d : ℕ) (sets : List DomainPunitSet) (p : Parser)
    → Continues p (config_section action h d sets p)
unfolding config_section
config_section-Continues action_set h d sets p =
    open_found-Continues h d sets p (find_existing p d sets)
config_section-Continues action_reset h d sets p =
    open_found-Continues h d sets p (find_existing p d sets)
config_section-Continues action_remove h d sets p =
    drop_found-Continues d sets p (find_existing p d sets)

at_domain-Continues :
    (h : Header) (sets : List DomainPunitSet) (d : Option ℕ) (p : Parser)
    → Continues p (at_domain h sets d p)
unfolding at_domain
at_domain-Continues h sets none p = Evolves-refl p.store
at_domain-Continues h sets (some d) p =
    config_section-Continues h.action h d sets (record p { domain_idx = some d })

target_section-Continues : (h : Header) (p : Parser) → Continues p (target_section h p)
unfolding target_section
target_section-Continues h p =
    let read = parse_punit_set_string p.store.domain_info_table h.target zero_sets in
    both_branches (Continues p) read.valid
      (at_domain-Continues h read.sets (set_domain p.store.domain_info_table read.sets 0) p)
      (Evolves-refl p.store)

remove_kind-Continues : (kind : Option (ℕ × ℕ)) (p : Parser) → Continues p (remove_kind kind p)
unfolding remove_kind
remove_kind-Continues none p = Evolves-refl p.store
remove_kind-Continues (some (d, k)) p = Evolves-punits p.store d (unlink d k)

punit_action-Continues :
    (action : ConfigAction) (h : Header) (p : Parser) → Continues p (punit_action action h p)
unfolding punit_action
punit_action-Continues action_reset h p = Evolves-refl p.store
punit_action-Continues action_set h p =
    target_section-Continues h (record p { section_type = section_domain_tracing_punit })
punit_action-Continues action_remove h p =
    both_branches (Continues p) (is_wildcard h.target)
      (remove_kind-Continues (named_kind p.store.domain_info_table (before 40 h.target)) p)
      (target_section-Continues h (record p { section_type = section_domain_tracing_punit }))

section_of-OutcomeEvolves : (h : Header) (p : Parser) → OutcomeEvolves p.store (section_of h p)
unfolding section_of punit_section
section_of-OutcomeEvolves h p =
    both_branches Ok (starts_with h.target (codes "Lexgion")) (lexgion_section-OutcomeEvolves h p) (
      both_branches Ok (str_eq h.target (codes "Knob")) same (
        both_branches Ok (str_eq h.target (codes "Energy")) same (
          both_branches Ok (str_eq h.target (codes "Manifest")) same (
            both_branches Ok (target_has_suffix h.target (codes ".sampling"))
              (sampling_section-Continues h p)
              (both_branches Ok (target_has_suffix h.target (codes ".default")) same (
                both_branches Ok (target_has_suffix h.target (codes ".tracing"))
                  (tracing_section-Continues h p) (punit_action-Continues h.action h p)))))))
  where
    Ok : Outcome → Type 0
    Ok o = OutcomeEvolves p.store o

    same : Evolves p.store p.store
    same = Evolves-refl p.store

-- A section header.
pub parse_section_header-OutcomeEvolves :
    (p : Parser) (line : List ℕ) → OutcomeEvolves p.store (parse_section_header p line)
unfolding parse_section_header
parse_section_header-OutcomeEvolves p line = elim (Option-cases (read_header line)) [
  | inl e ↦ rw (e, parse_section_header) tt
  | inr (h, e) ↦ rw (e, parse_section_header) (section_of-OutcomeEvolves h (opened p))
]
