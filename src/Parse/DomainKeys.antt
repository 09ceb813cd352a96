-- ===== src/Parse/DomainKeys.antt =====
-- src/trace_config_parse.c: the keys of the sections [Domain.sampling], [Domain.tracing] and
-- [Domain.kind(ids)] in parse_key_value.
pub mod Laws
use pinsight.Common.{
  ℕ, zero, suc, ◌-◌, ◌^◌, Bool, true, false, not, ◌&&◌, ◌||◌, Option, none, some, List, [], ◌∷◌,
  length, get_elem?, set, modify, leb, ltb, ◌==◌, if◌then◌else◌, codes, str_eq, str_case_eq,
  is_space, skip_spaces, is_some,
}
use pinsight.Common.Int.{ℤ, pos, negsuc, pos_part, ltb_ℤ}
use pinsight.Config.Mode.{
  TraceMode, same_mode, off, NodePolicy, NodePolicyVal, output_record, output_profile, output_both,
}
use pinsight.Config.Domain.{
  DomainInfo, DomainTraceConfig, DomainSamplingConfig, PunitTraceConfig, Punit, NodePolicyKey,
}
use pinsight.Control.Apply.{get_nodepolicy_index}
use pinsight.Node.{atoi}
use pinsight.Node.Policy.{parse_nodepolicy}
use pinsight.Parse.State.{Store, Libc, find_punit_kind_index, find_event, enables, switch_event}
use pinsight.Parse.Text.{before, behind, Scanned, strtol_any, to_uint, to_int}
use pinsight.Parse.Window.{parse_trace_mode_value}

-- A `long` as the interval: 0 where it is negative.
abbrev interval : ℤ → ℕ
interval (pos n) = to_uint (pos n)
interval (negsuc n) = 0

abbrev depth : ℤ → ℕ
depth (pos zero) = 128
depth (pos (suc n)) = to_uint (pos (suc n))
depth (negsuc n) = 128

abbrev fraction : ℤ → ℤ
fraction f = if ltb_ℤ (pos 0) f && not (ltb_ℤ (pos 1000) f) then f else pos 1000

unfoldable pub own_thread : List ℕ → DomainSamplingConfig → DomainSamplingConfig
own_thread val c =
    if str_case_eq val (codes "own")
    then record c { sampler_thread_own = true }
    else if str_case_eq val (codes "shared")
    then record c { sampler_thread_own = false }
    else c

unfoldable pub output_to : List ℕ → DomainSamplingConfig → DomainSamplingConfig
output_to val c =
    if str_case_eq val (codes "record")
    then record c { output = output_record }
    else if str_case_eq val (codes "profile")
    then record c { output = output_profile }
    else if str_case_eq val (codes "both")
    then record c { output = output_both }
    else c

-- A key of [Domain.sampling].
unfoldable pub sampling_key : Libc → List ℕ → List ℕ → DomainSamplingConfig → DomainSamplingConfig
unfolding own_thread output_to
sampling_key libc key val c =
    if str_eq key (codes "interval_us")
    then record c { interval_us = interval (atoi val) }
    else if str_eq key (codes "sampler_thread")
    then own_thread val c
    else if str_eq key (codes "max_depth")
    then record c { max_depth = depth (atoi val) }
    else if str_eq key (codes "overhead_budget")
    then record c { overhead_budget_pct = libc.atof val }
    else if str_eq key (codes "output")
    then output_to val c
    else if str_eq key (codes "process_fraction")
    then record c { process_fraction = fraction (libc.atof val) }
    else c

unfoldable pub sampling_keys : Libc → ℕ → List ℕ → List ℕ → Store → Store
unfolding sampling_key
sampling_keys libc d key val s = record s {
  domain_sampling_config = modify s.domain_sampling_config d (sampling_key libc key val);
}

unfoldable pub switch_mode : TraceMode → DomainTraceConfig → DomainTraceConfig
switch_mode m c = record c {
  last_mode = c.mode;
  mode = m;
  mode_change_fired =
      if not (same_mode m c.mode) && not (same_mode c.mode off) then false else c.mode_change_fired;
}

abbrev pub in_domain : (DomainTraceConfig → DomainTraceConfig) → ℕ → Store → Store
in_domain f d s = record s { domain_trace_config = modify s.domain_trace_config d f }

-- `(low, high)`, `low-high` or `low`; a negative bound counts as 0.
abbrev skip_paren : List ℕ → List ℕ
skip_paren [] = []
skip_paren (c ∷ s) = let rest = skip_paren s in if (c == 40) || is_space c then rest else c ∷ s

abbrev number_of : Option Scanned → ℤ
number_of none = pos 0
number_of (some s) = s.number

abbrev rest_of : List ℕ → Option Scanned → List ℕ
rest_of s none = s
rest_of s (some t) = t.rest

abbrev high_of : ℤ → List ℕ → ℤ
unfolding strtol_any
high_of low [] = low
high_of low (c ∷ s) = if (c == 44) || (c == 45) then number_of (strtol_any s) else low

-- An `int` stored in an `unsigned int`.
abbrev as_unsigned : ℤ → ℕ
as_unsigned (pos n) = n
as_unsigned (negsuc n) = 2 ^ 32 - 1 - n

unfoldable pub set_range : List ℕ → Punit → Punit
unfolding strtol_any
set_range val p =
    let text = skip_paren val in
    let low = number_of (strtol_any text) in
    record p {
      low = as_unsigned (to_int low);
      high = as_unsigned (to_int (high_of low (skip_spaces (rest_of text (strtol_any text)))));
    }

abbrev with_range : Option ℕ → List ℕ → DomainInfo → DomainInfo
unfolding set_range
with_range none val info = info
with_range (some k) val info = record info { punits = modify info.punits k (set_range val) }

-- `Domain.kind = (low, high)`, for the name of the section's domain.
unfoldable pub punit_range : ℕ → DomainInfo → List ℕ → List ℕ → List ℕ → Store → Store
unfolding set_range
punit_range d info domain kind val s =
    if str_eq info.name domain
    then record s {
      domain_info_table =
          modify s.domain_info_table d
            (with_range (find_punit_kind_index s.domain_info_table d kind) val);
    }
    else s

-- The value of a node policy key, with the default that the domain declares.
abbrev policy_value : Option NodePolicyKey → List ℕ → Option NodePolicyVal
policy_value none val = none
policy_value (some k) val = some (parse_nodepolicy (some val) k.dflt)

abbrev set_policy : ℕ → Option NodePolicyVal → DomainTraceConfig → DomainTraceConfig
set_policy i none c = c
set_policy i (some v) c = record c { nodepolicy = set c.nodepolicy i v }

abbrev with_event : ℕ → Bool → DomainTraceConfig → DomainTraceConfig
unfolding switch_event
with_event eid enable c = record c { events = switch_event enable eid c.events }

-- `Event = on` in [Domain.tracing].
unfoldable pub domain_event : ℕ → DomainInfo → List ℕ → List ℕ → Store → Store
unfolding find_event enables switch_event
domain_event d info key val s = elim (find_event info key) [
  | none ↦ s
  | some eid ↦ in_domain (with_event eid (enables info eid val)) d s
]

unfoldable pub policy_or_event : ℕ → DomainInfo → List ℕ → List ℕ → Store → Store
unfolding domain_event get_nodepolicy_index
policy_or_event d info key val s =
    elim (get_nodepolicy_index s.domain_info_table (length s.domain_info_table) d key) [
      | some i ↦ in_domain (set_policy i (policy_value (get_elem? info.nodepolicy_keys i) val)) d s
      | none ↦ domain_event d info key val s
    ]

-- A key of [Domain.tracing].
unfoldable pub tracing_key : ℕ → DomainInfo → List ℕ → List ℕ → Store → Store
unfolding switch_mode punit_range policy_or_event before behind
tracing_key d info key val s =
    if str_eq key (codes "trace_mode")
    then in_domain (switch_mode (parse_trace_mode_value val)) d s
    else elim (behind 46 key) [
      | some kind ↦ punit_range d info (before 46 key) kind val s
      | none ↦ policy_or_event d info key val s
    ]

abbrev with_punit_event : ℕ → Bool → PunitTraceConfig → PunitTraceConfig
unfolding switch_event
with_punit_event eid enable c = record c { events = switch_event enable eid c.events }

-- A key of [Domain.kind(ids)], whose configuration is number i in the list of domain d: trace_mode
-- is ignored there.
unfoldable pub punit_key : ℕ → ℕ → DomainInfo → List ℕ → List ℕ → Store → Store
unfolding find_event enables switch_event
punit_key d i info key val s =
    if str_eq key (codes "trace_mode") then s else elim (find_event info key) [
      | none ↦ s
      | some eid ↦ record s {
        domain_punit_trace_config =
            modify s.domain_punit_trace_config d
              (λ cs. modify cs i (with_punit_event eid (enables info eid val)));
      }
    ]
