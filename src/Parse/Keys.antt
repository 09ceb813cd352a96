-- ===== src/Parse/Keys.antt =====
-- src/trace_config_parse.c: parse_key_value.
pub mod Laws
use pinsight.Common.{
  ℕ, zero, suc, Bool, true, false, Option, none, some, List, [], ◌∷◌, get_elem?, if◌then◌else◌,
  codes, str_eq,
}
use pinsight.Common.Int.{ℤ}
use pinsight.Config.Domain.{DomainInfo}
use pinsight.Config.Rules.{ConfigRef}
use pinsight.Knobs.{
  AppKnob, KnobType, KnobValue, type_int, type_double, type_string, find_or_create_knob,
  set_knob_int, set_knob_double, set_knob_string,
}
use pinsight.Node.{atoi}
use pinsight.Node.Policy.{parse_nodepolicy}
use pinsight.Parse.State.{
  Store, Parser, Libc, SectionType, section_none, section_domain_tracing, section_domain_sampling,
  section_domain_tracing_punit, section_lexgion_address_name, section_lexgion_default,
  section_lexgion_domain_default, section_knob, section_energy, section_manifest,
}
use pinsight.Parse.Text.{trim_whitespace, before, behind, Scanned, strtol_any, whole, to_int}
use pinsight.Parse.LexgionKeys.{lexgion_keys}
use pinsight.Parse.DomainKeys.{sampling_keys, tracing_key, punit_key}
use pinsight.Parse.Domains.{with_store}

abbrev pub store_int : ℤ → List AppKnob × Option ℕ → List AppKnob
store_int v (ks, none) = ks
store_int v (ks, some i) = set_knob_int ks i (to_int v)

abbrev pub store_double : ℕ → List AppKnob × Option ℕ → List AppKnob
store_double v (ks, none) = ks
store_double v (ks, some i) = set_knob_double ks i v

abbrev pub store_string : List ℕ → List AppKnob × Option ℕ → List AppKnob
store_string v (ks, none) = ks
store_string v (ks, some i) = set_knob_string ks i v

-- An integer, else a double, else a text.
unfoldable pub knob_key : Libc → List ℕ → List ℕ → List AppKnob → List AppKnob
unfolding strtol_any find_or_create_knob
knob_key libc key val ks = elim (whole (strtol_any val)) [
  | some v ↦ store_int v (find_or_create_knob ks key type_int)
  | none ↦ elim (libc.strtod val) [
    | some v ↦ store_double v (find_or_create_knob ks key type_double)
    | none ↦ store_string val (find_or_create_knob ks key type_string)
  ]
]

unfoldable pub energy_key : List ℕ → List ℕ → Store → Store
energy_key key val s =
    if str_eq key (codes "measure")
    then record s {
      energy_measure_policy = (parse_nodepolicy (some val) s.energy_measure_policy).policy;
    }
    else s

unfoldable pub manifest_key : List ℕ → List ℕ → Store → Store
manifest_key key val s =
    if str_eq key (codes "interval") then record s { manifest_interval_sec = atoi val } else s

unfoldable pub at_lexgion : Option ConfigRef → List ℕ → List ℕ → Parser → Parser
unfolding lexgion_keys
at_lexgion none key val p = p
at_lexgion (some lg) key val p = lexgion_keys lg key val p

abbrev pub info_of : Parser → ℕ → Option DomainInfo
info_of p d = get_elem? p.store.domain_info_table d

unfoldable pub at_sampling : Libc → Option ℕ → List ℕ → List ℕ → Parser → Parser
unfolding sampling_keys with_store
at_sampling libc none key val p = p
at_sampling libc (some d) key val p = with_store (sampling_keys libc d key val p.store) p

unfoldable pub at_tracing : Option ℕ → List ℕ → List ℕ → Parser → Parser
unfolding tracing_key with_store
at_tracing none key val p = p
at_tracing (some d) key val p = elim (info_of p d) [
  | none ↦ p
  | some info ↦ with_store (tracing_key d info key val p.store) p
]

unfoldable pub at_punit : Option ℕ → Option ℕ → List ℕ → List ℕ → Parser → Parser
unfolding punit_key with_store
at_punit none i key val p = p
at_punit (some d) none key val p = p
at_punit (some d) (some i) key val p = elim (info_of p d) [
  | none ↦ p
  | some info ↦ with_store (punit_key d i info key val p.store) p
]

-- A key with its value, in the section that is open.
unfoldable pub key_in : Libc → SectionType → List ℕ → List ℕ → Parser → Parser
unfolding lexgion_keys sampling_keys tracing_key punit_key knob_key energy_key manifest_key
    with_store
key_in libc section_none key val p = p
key_in libc section_lexgion_address_name key val p = at_lexgion p.lexgion_config key val p
key_in libc section_lexgion_default key val p = at_lexgion p.lexgion_config key val p
key_in libc section_lexgion_domain_default key val p = at_lexgion p.lexgion_config key val p
key_in libc section_domain_sampling key val p = at_sampling libc p.domain_idx key val p
key_in libc section_domain_tracing key val p = at_tracing p.domain_idx key val p
key_in libc section_domain_tracing_punit key val p = at_punit p.domain_idx p.punit_config key val p
key_in libc section_knob key val p =
    with_store (record p.store { knob_table = knob_key libc key val p.store.knob_table }) p
key_in libc section_energy key val p = with_store (energy_key key val p.store) p
key_in libc section_manifest key val p = with_store (manifest_key key val p.store) p

unfoldable pub parse_key_value : Libc → Parser → List ℕ → Parser
unfolding key_in behind before trim_whitespace
parse_key_value libc p line = elim (behind 61 line) [
  | none ↦ p
  | some val ↦ key_in libc p.section_type (trim_whitespace (before 61 line)) (trim_whitespace val) p
]
