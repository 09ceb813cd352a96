-- ===== src/Parse/PunitSections.antt =====
-- src/trace_config_parse.c: the sections [Domain.kind(ids)], which configure the events of some
-- punits of a domain.
pub mod Laws
use pinsight.Common.{
  ℕ, zero, suc, ◌+◌, Bool, true, false, not, ◌&&◌, Option, none, some, List, [], ◌∷◌, ◌++◌, length,
  get_elem?, get_or, set, modify, ◌==◌, if◌then◌else◌, codes, starts_with, skip_spaces,
}
use pinsight.Config.Domain.{DomainInfo, DomainPunitSet, PunitTraceConfig}
use pinsight.Parse.State.{
  Store, Parser, ConfigAction, action_set, action_reset, action_remove,
  section_domain_tracing_punit, find_domain_index, find_punit_kind_index, events_at,
}
use pinsight.Parse.Text.{before, behind}
use pinsight.Parse.Punits.{parse_punit_set_string, find_exact_punit_config, kind_at}
use pinsight.Parse.Header.{Header, closed}
use pinsight.Parse.Lexgions.{zero_sets, zero_set}

-- Whether the text is `name(*...)` with a closing parenthesis, for a removal of all.
abbrev is_star : List ℕ → Bool
is_star [] = false
is_star (c ∷ s) = c == 42

unfoldable pub is_wildcard : List ℕ → Bool
unfolding behind
is_wildcard target = elim (behind 40 target) [
  | none ↦ false
  | some inner ↦ elim (behind 41 inner) [ none ↦ false | some _ ↦ is_star (skip_spaces inner) ]
]

-- The domain and the punit kind of `Domain.kind`.
unfoldable pub named_kind : List DomainInfo → List ℕ → Option (ℕ × ℕ)
unfolding before behind
named_kind infos name = elim (behind 46 name) [
  | none ↦ none
  | some kind ↦ elim (find_domain_index infos (before 46 name)) [
    | none ↦ none
    | some d ↦ elim (find_punit_kind_index infos d kind) [ none ↦ none | some k ↦ some (d, k) ]
  ]
]

unfoldable pub has_kind : ℕ → ℕ → PunitTraceConfig → Bool
has_kind d k c = elim (kind_at c.domain_punits d k) [ none ↦ false | some s ↦ s.is_set ]

-- The loop that unlinks every configuration of the list that has the kind.
unfoldable pub unlink : ℕ → ℕ → List PunitTraceConfig → List PunitTraceConfig
unfolding has_kind
unlink d k [] = []
unlink d k (c ∷ cs) = let rest = unlink d k cs in if has_kind d k c then rest else c ∷ rest

abbrev pub with_punits : List (List PunitTraceConfig) → Parser → Parser
with_punits configs p = record p { store = record p.store { domain_punit_trace_config = configs } }

unfoldable pub remove_kind : Option (ℕ × ℕ) → Parser → Parser
unfolding unlink
remove_kind none p = p
remove_kind (some (d, k)) p =
    with_punits (modify p.store.domain_punit_trace_config d (unlink d k)) p

-- The first domain from i on that is set, of the registered ones.
unfoldable pub set_domain : List DomainInfo → List DomainPunitSet → ℕ → Option ℕ
set_domain [] sets i = none
set_domain (_ ∷ infos) [] i = none
set_domain (_ ∷ infos) (s ∷ ss) i =
    let rest = set_domain infos ss (i + 1) in if s.is_set then some i else rest

abbrev pub no_kinds : DomainPunitSet
no_kinds = record { is_set = false; punit = [] }

-- A configuration without events, constrained to the target alone.
unfoldable pub bare_config : ℕ → List DomainPunitSet → PunitTraceConfig
bare_config d target = record {
  events = 0;
  domain_punits = set zero_sets d (get_or target d no_kinds);
}

abbrev pub configs_of : Parser → ℕ → List PunitTraceConfig
configs_of p d = get_or p.store.domain_punit_trace_config d []

-- `&temp_set[d]`, the array from element d on.
unfoldable pub from_element : ℕ → List DomainPunitSet → List DomainPunitSet
from_element zero sets = sets
from_element (suc n) [] = []
from_element (suc n) (s ∷ ss) = from_element n ss

unfoldable pub find_existing : Parser → ℕ → List DomainPunitSet → Option ℕ
unfolding from_element find_exact_punit_config
find_existing p d sets =
    find_exact_punit_config (configs_of p d) d (from_element d (sets ++ p.beyond))

abbrev pub write_list : ℕ → (List PunitTraceConfig → List PunitTraceConfig) → Parser → Parser
write_list d f p = with_punits (modify p.store.domain_punit_trace_config d f) p

-- strstr: the text before the first occurrence.
unfoldable pub before_text : List ℕ → List ℕ → Option (List ℕ)
before_text sub [] = none
before_text sub (c ∷ s) =
    let rest = before_text sub s in
    if starts_with (c ∷ s) sub then some [] else elim rest [ none ↦ none | some t ↦ some (c ∷ t) ]

abbrev with_events : ℕ → PunitTraceConfig → PunitTraceConfig
with_events events c = record c { events = events }

abbrev inherit_from : Store → Option ℕ → PunitTraceConfig → PunitTraceConfig
inherit_from s none c = c
inherit_from s (some d) c = with_events (events_at s.domain_trace_config d) c

abbrev inherit_base : Store → Option (List ℕ) → PunitTraceConfig → PunitTraceConfig
inherit_base s none c = c
inherit_base s (some base) c = inherit_from s (find_domain_index s.domain_info_table base) c

unfoldable pub inherit : Store → Option (List ℕ) → PunitTraceConfig → PunitTraceConfig
unfolding before_text
inherit s none c = c
inherit s (some text) c = inherit_base s (before_text (codes ".tracing") text) c

unfoldable pub constrain : Store → Option (List ℕ) → PunitTraceConfig → PunitTraceConfig
unfolding parse_punit_set_string
constrain s none c = c
constrain s (some text) c = record c {
  domain_punits = (parse_punit_set_string s.domain_info_table text c.domain_punits).sets;
}

-- The section of configuration i of domain d.
unfoldable pub open_config : Header → ℕ → ℕ → Parser → Parser
unfolding inherit constrain
open_config h d i p =
    let f =
      λ (c : PunitTraceConfig). constrain p.store h.punit_set (inherit p.store h.inheritance c) in
    record (write_list d (λ cs. modify cs i f) p) { punit_config = some i }

unfoldable pub drop_config : ℕ → ℕ → List DomainPunitSet → Parser → Parser
unfolding bare_config
drop_config d i sets p =
    closed (record (write_list d (λ cs. modify cs i (λ _. bare_config d sets)) p) {
      punit_config = some i;
    })

unfoldable pub append_config : ℕ → List DomainPunitSet → Parser → Parser
unfolding bare_config
append_config d sets p = write_list d (λ cs. cs ++ bare_config d sets ∷ []) p

abbrev pub drop_found : ℕ → List DomainPunitSet → Parser → Option ℕ → Parser
unfolding drop_config
drop_found d sets p none = p
drop_found d sets p (some i) = drop_config d i sets p

abbrev pub open_found : Header → ℕ → List DomainPunitSet → Parser → Option ℕ → Parser
unfolding open_config append_config
open_found h d sets p none = open_config h d (length (configs_of p d)) (append_config d sets p)
open_found h d sets p (some i) = open_config h d i p

-- The configuration of the target, found or created.
unfoldable pub config_section : ConfigAction → Header → ℕ → List DomainPunitSet → Parser → Parser
unfolding find_existing open_config drop_config append_config
config_section action_remove h d sets p = drop_found d sets p (find_existing p d sets)
config_section action_set h d sets p = open_found h d sets p (find_existing p d sets)
config_section action_reset h d sets p = open_found h d sets p (find_existing p d sets)

unfoldable pub at_domain : Header → List DomainPunitSet → Option ℕ → Parser → Parser
unfolding config_section
at_domain h sets none p = p
at_domain h sets (some d) p = config_section h.action h d sets (record p { domain_idx = some d })

-- The section type is that of punits already.
unfoldable pub target_section : Header → Parser → Parser
unfolding parse_punit_set_string set_domain config_section
target_section h p =
    let read = parse_punit_set_string p.store.domain_info_table h.target zero_sets in
    if read.valid
    then at_domain h read.sets (set_domain p.store.domain_info_table read.sets 0) p
    else p

unfoldable pub punit_action : ConfigAction → Header → Parser → Parser
unfolding is_wildcard named_kind remove_kind target_section before
punit_action action_reset h p = p
punit_action action_remove h p =
    if is_wildcard h.target
    then remove_kind (named_kind p.store.domain_info_table (before 40 h.target)) p
    else target_section h (record p { section_type = section_domain_tracing_punit })
punit_action action_set h p =
    target_section h (record p { section_type = section_domain_tracing_punit })

unfoldable pub punit_section : Header → Parser → Parser
unfolding punit_action
punit_section h p = punit_action h.action h p
