-- ===== src/Parse/Sections.antt =====
-- src/trace_config_parse.c: parse_section_header.
use pinsight.Common.{Option, none, some, ℕ, List, if◌then◌else◌, codes, str_eq, starts_with}
use pinsight.Parse.State.{
  Parser, Outcome, parsed, malformed, section_knob, section_energy, section_manifest,
}
use pinsight.Parse.Header.{Header, read_header, target_has_suffix, opened}
use pinsight.Parse.Lexgions.{lexgion_section}
use pinsight.Parse.Domains.{sampling_section, tracing_section}
use pinsight.Parse.PunitSections.{punit_section}

-- The section of a target, in the order of the tests; p is as every header starts.
unfoldable pub section_of : Header → Parser → Outcome
unfolding lexgion_section sampling_section tracing_section punit_section target_has_suffix
section_of h p =
    if starts_with h.target (codes "Lexgion")
    then lexgion_section h p
    else if str_eq h.target (codes "Knob")
    then parsed (record p { section_type = section_knob })
    else if str_eq h.target (codes "Energy")
    then parsed (record p { section_type = section_energy })
    else if str_eq h.target (codes "Manifest")
    then parsed (record p { section_type = section_manifest })
    else if target_has_suffix h.target (codes ".sampling")
    then parsed (sampling_section h p)
    else if target_has_suffix h.target (codes ".default")
    then parsed p
    else if target_has_suffix h.target (codes ".tracing")
    then parsed (tracing_section h p)
    else parsed (punit_section h p)

abbrev at_header : Parser → Option Header → Outcome
unfolding section_of
at_header p none = malformed
at_header p (some h) = section_of h (opened p)

unfoldable pub parse_section_header : Parser → List ℕ → Outcome
unfolding section_of read_header
parse_section_header p line = at_header p (read_header line)
