-- ===== src/Parse/Sizes/Keys.antt =====
-- A key keeps the sizes of the tables.
use pinsight.Common.{
  ℕ, Option, none, some, List, length, modify, refl, arith, inl, inr, Option-cases, both_branches,
  length-modify, codes, str_eq,
}
use pinsight.Common.Int.{ℤ}
use pinsight.Config.Domain.{DomainInfo, DomainTraceConfig}
use pinsight.Config.Rules.{ConfigRef}
use pinsight.Control.Apply.{get_nodepolicy_index}
use pinsight.Knobs.{
  AppKnob, find_or_create_knob, set_knob_int, set_knob_double, set_knob_string, type_int,
  type_double, type_string, with_value, int_value, double_value, string_value,
}
use pinsight.Knobs.Laws.{SameBound, find_or_create_knob-SameBound}
use pinsight.Parse.State.{
  Store, Parser, Libc, SectionType, section_none, section_domain_tracing, section_domain_sampling,
  section_domain_tracing_punit, section_lexgion_address_name, section_lexgion_default,
  section_lexgion_domain_default, section_knob, section_energy, section_manifest, find_event,
}
use pinsight.Parse.Text.{trim_whitespace, before, behind, strtol_any, whole, to_int}
use pinsight.Node.{take}
use pinsight.Parse.Lexgions.{with_table}
use pinsight.Parse.Lexgions.Bounds.{Grows-refl, modify_configs-Grows}
use pinsight.Parse.LexgionKeys.{lexgion_keys, lexgion_key, written_configs}
use pinsight.Parse.DomainKeys.{
  sampling_keys, sampling_key, tracing_key, punit_key, punit_range, policy_or_event, domain_event,
  in_domain,
}
use pinsight.Parse.Domains.{with_store}
use pinsight.Parse.Keys.{
  knob_key, energy_key, manifest_key, key_in, parse_key_value, store_int, store_double,
  store_string, at_lexgion, at_sampling, at_tracing, at_punit, info_of,
}
use pinsight.Parse.Sizes.{Evolves, Evolves-refl, Evolves-table}

Evolves-tracing :
    (s : Store) (d : ℕ) (f : DomainTraceConfig → DomainTraceConfig) → Evolves s (in_domain f d s)
Evolves-tracing s d f = record {
  entries = Grows-refl s.table.entries;
  infos = refl;
  tracing = length-modify s.domain_trace_config d f;
  sampling = refl;
  punits = refl;
  knobs_kept = omega arith;
  knobs_bounded = λ h. h;
}

Evolves-infos :
    (s : Store) (d : ℕ) (f : DomainInfo → DomainInfo)
    → Evolves s (record s { domain_info_table = modify s.domain_info_table d f })
Evolves-infos s d f = record {
  entries = Grows-refl s.table.entries;
  infos = length-modify s.domain_info_table d f;
  tracing = refl;
  sampling = refl;
  punits = refl;
  knobs_kept = omega arith;
  knobs_bounded = λ h. h;
}

Evolves-sampling :
    (libc : Libc) (d : ℕ) (key val : List ℕ) (s : Store)
    → Evolves s (sampling_keys libc d key val s)
unfolding sampling_keys
Evolves-sampling libc d key val s = record {
  entries = Grows-refl s.table.entries;
  infos = refl;
  tracing = refl;
  sampling = length-modify s.domain_sampling_config d (sampling_key libc key val);
  punits = refl;
  knobs_kept = omega arith;
  knobs_bounded = λ h. h;
}

Evolves-punit :
    (d i : ℕ) (info : DomainInfo) (key val : List ℕ) (s : Store)
    → Evolves s (punit_key d i info key val s)
unfolding punit_key
Evolves-punit d i info key val s =
    both_branches (Evolves s) (str_eq key (codes "trace_mode")) (Evolves-refl s)
      (elim (Option-cases (find_event info key)) [
        | inl e ↦ rw e (Evolves-refl s)
        | inr (eid, e) ↦ rw e (record {
          entries = Grows-refl s.table.entries;
          infos = refl;
          tracing = refl;
          sampling = refl;
          punits = length-modify s.domain_punit_trace_config d _;
          knobs_kept = omega arith;
          knobs_bounded = λ h. h;
        })
      ])

domain_event-Evolves :
    (d : ℕ) (info : DomainInfo) (key val : List ℕ) (s : Store)
    → Evolves s (domain_event d info key val s)
unfolding domain_event
domain_event-Evolves d info key val s = elim (Option-cases (find_event info key)) [
  | inl e ↦ rw (e, domain_event) (Evolves-refl s)
  | inr (eid, e) ↦ rw (e, domain_event) (Evolves-tracing s d _)
]

policy_or_event-Evolves :
    (d : ℕ) (info : DomainInfo) (key val : List ℕ) (s : Store)
    → Evolves s (policy_or_event d info key val s)
unfolding policy_or_event
policy_or_event-Evolves d info key val s =
    elim (Option-cases
      (get_nodepolicy_index s.domain_info_table (length s.domain_info_table) d key)) [
        | inl e ↦ rw (e, policy_or_event) (domain_event-Evolves d info key val s)
        | inr (i, e) ↦ rw (e, policy_or_event) (Evolves-tracing s d _)
      ]

punit_range-Evolves :
    (d : ℕ) (info : DomainInfo) (domain kind val : List ℕ) (s : Store)
    → Evolves s (punit_range d info domain kind val s)
unfolding punit_range
punit_range-Evolves d info domain kind val s =
    both_branches (Evolves s) (str_eq info.name domain) (Evolves-infos s d _) (Evolves-refl s)

tracing_key-Evolves :
    (d : ℕ) (info : DomainInfo) (key val : List ℕ) (s : Store)
    → Evolves s (tracing_key d info key val s)
unfolding tracing_key
tracing_key-Evolves d info key val s =
    both_branches (Evolves s) (str_eq key (codes "trace_mode")) (Evolves-tracing s d _)
      (elim (Option-cases (behind 46 key)) [
        | inl e ↦ rw e (policy_or_event-Evolves d info key val s)
        | inr (kind, e) ↦ rw e (punit_range-Evolves d info (before 46 key) kind val s)
      ])

-- The knobs: a value is stored where an entry was found.
stored_int :
    (v : ℤ) (ks : List AppKnob) (r : List AppKnob × Option ℕ)
    → SameBound ks r.0
    → SameBound ks (store_int v r)
unfolding set_knob_int
stored_int v ks (ls, none) h = h
stored_int v ks (ls, some i) h =
    let e = length-modify ls i (with_value (int_value (to_int v))) in
    (omega (arith, e, h.0), λ l. omega (arith, e, h.1 l))

stored_double :
    (v : ℕ) (ks : List AppKnob) (r : List AppKnob × Option ℕ)
    → SameBound ks r.0
    → SameBound ks (store_double v r)
unfolding set_knob_double
stored_double v ks (ls, none) h = h
stored_double v ks (ls, some i) h =
    let e = length-modify ls i (with_value (double_value v)) in
    (omega (arith, e, h.0), λ l. omega (arith, e, h.1 l))

stored_string :
    (v : List ℕ) (ks : List AppKnob) (r : List AppKnob × Option ℕ)
    → SameBound ks r.0
    → SameBound ks (store_string v r)
unfolding set_knob_string
stored_string v ks (ls, none) h = h
stored_string v ks (ls, some i) h =
    let e = length-modify ls i (with_value (string_value (take 255 v))) in
    (omega (arith, e, h.0), λ l. omega (arith, e, h.1 l))

knob_key-SameBound :
    (libc : Libc) (key val : List ℕ) (ks : List AppKnob) → SameBound ks (knob_key libc key val ks)
unfolding knob_key
knob_key-SameBound libc key val ks = elim (Option-cases (whole (strtol_any val))) [
  | inr (v, e) ↦
      rw (e, knob_key)
        (stored_int v ks (find_or_create_knob ks key type_int)
          (find_or_create_knob-SameBound ks key type_int))
  | inl e ↦ elim (Option-cases (libc.strtod val)) [
    | inr (v, f) ↦
        rw (e, f, knob_key)
          (stored_double v ks (find_or_create_knob ks key type_double)
            (find_or_create_knob-SameBound ks key type_double))
    | inl f ↦
        rw (e, f, knob_key)
          (stored_string val ks (find_or_create_knob ks key type_string)
            (find_or_create_knob-SameBound ks key type_string))
  ]
]

-- The dispatch on the section that is open.
abbrev Continues : Parser → Parser → Type 0
Continues p q = Evolves p.store q.store

knobs-Continues :
    (libc : Libc) (key val : List ℕ) (p : Parser) → Continues p (key_in libc section_knob key val p)
unfolding key_in with_store
knobs-Continues libc key val p =
    let b = knob_key-SameBound libc key val p.store.knob_table in
    record {
      entries = Grows-refl p.store.table.entries;
      infos = refl;
      tracing = refl;
      sampling = refl;
      punits = refl;
      knobs_kept = b.0;
      knobs_bounded = b.1;
    }

at_lexgion-Continues :
    (lg : Option ConfigRef) (key val : List ℕ) (p : Parser) → Continues p (at_lexgion lg key val p)
unfolding at_lexgion lexgion_keys with_table
at_lexgion-Continues none key val p = Evolves-refl p.store
at_lexgion-Continues (some lg) key val p = Evolves-table p.store _ (
    modify_configs-Grows (lexgion_key p.store.domain_info_table key val) p.store.table
      (written_configs p.section_type lg p.lexgion_configs))

at_sampling-Continues :
    (libc : Libc) (d : Option ℕ) (key val : List ℕ) (p : Parser)
    → Continues p (at_sampling libc d key val p)
unfolding at_sampling with_store
at_sampling-Continues libc none key val p = Evolves-refl p.store
at_sampling-Continues libc (some d) key val p = Evolves-sampling libc d key val p.store

at_tracing-Continues :
    (d : Option ℕ) (key val : List ℕ) (p : Parser) → Continues p (at_tracing d key val p)
unfolding at_tracing with_store
at_tracing-Continues none key val p = Evolves-refl p.store
at_tracing-Continues (some d) key val p = elim (Option-cases (info_of p d)) [
  | inl e ↦ rw (e, at_tracing) (Evolves-refl p.store)
  | inr (info, e) ↦ rw (e, at_tracing) (tracing_key-Evolves d info key val p.store)
]

at_punit-Continues :
    (d i : Option ℕ) (key val : List ℕ) (p : Parser) → Continues p (at_punit d i key val p)
unfolding at_punit with_store
at_punit-Continues none i key val p = Evolves-refl p.store
at_punit-Continues (some d) none key val p = Evolves-refl p.store
at_punit-Continues (some d) (some i) key val p = elim (Option-cases (info_of p d)) [
  | inl e ↦ rw (e, at_punit) (Evolves-refl p.store)
  | inr (info, e) ↦ rw (e, at_punit) (Evolves-punit d i info key val p.store)
]

-- A key that stores one number or policy.
energy_key-Evolves : (key val : List ℕ) (s : Store) → Evolves s (energy_key key val s)
unfolding energy_key
energy_key-Evolves key val s =
    both_branches (Evolves s) (str_eq key (codes "measure"))
      (record {
        entries = Grows-refl s.table.entries;
        infos = refl;
        tracing = refl;
        sampling = refl;
        punits = refl;
        knobs_kept = omega arith;
        knobs_bounded = λ h. h;
      })
      (Evolves-refl s)

manifest_key-Evolves : (key val : List ℕ) (s : Store) → Evolves s (manifest_key key val s)
unfolding manifest_key
manifest_key-Evolves key val s =
    both_branches (Evolves s) (str_eq key (codes "interval"))
      (record {
        entries = Grows-refl s.table.entries;
        infos = refl;
        tracing = refl;
        sampling = refl;
        punits = refl;
        knobs_kept = omega arith;
        knobs_bounded = λ h. h;
      })
      (Evolves-refl s)

key_in-Continues :
    (libc : Libc) (section : SectionType) (key val : List ℕ) (p : Parser)
    → Continues p (key_in libc section key val p)
unfolding key_in with_store
key_in-Continues libc section_none key val p = Evolves-refl p.store
key_in-Continues libc section_lexgion_address_name key val p =
    at_lexgion-Continues p.lexgion_config key val p
key_in-Continues libc section_lexgion_default key val p =
    at_lexgion-Continues p.lexgion_config key val p
key_in-Continues libc section_lexgion_domain_default key val p =
    at_lexgion-Continues p.lexgion_config key val p
key_in-Continues libc section_domain_sampling key val p =
    at_sampling-Continues libc p.domain_idx key val p
key_in-Continues libc section_domain_tracing key val p = at_tracing-Continues p.domain_idx key val p
key_in-Continues libc section_domain_tracing_punit key val p =
    at_punit-Continues p.domain_idx p.punit_config key val p
key_in-Continues libc section_knob key val p = knobs-Continues libc key val p
key_in-Continues libc section_energy key val p = energy_key-Evolves key val p.store
key_in-Continues libc section_manifest key val p = manifest_key-Evolves key val p.store

-- A key with its value.
pub parse_key_value-Evolves :
    (libc : Libc) (p : Parser) (line : List ℕ) → Evolves p.store (parse_key_value libc p line).store
unfolding parse_key_value
parse_key_value-Evolves libc p line = elim (Option-cases (behind 61 line)) [
  | inl e ↦ rw (e, parse_key_value) (Evolves-refl p.store)
  | inr (val, e) ↦
      rw (e, parse_key_value)
        (key_in-Continues libc p.section_type (trim_whitespace (before 61 line))
          (trim_whitespace val) p)
]
