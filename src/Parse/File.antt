-- ===== src/Parse/File.antt =====
-- src/trace_config_parse.c: process_line and parse_config_file. The lines are those that fgets
-- gives back from the file.
pub mod Laws
use pinsight.Common.{ℕ, Bool, true, false, Option, none, some, List, [], ◌∷◌, ◌==◌, if◌then◌else◌}
use pinsight.Parse.State.{Parser, Store, Libc, Outcome, parsed, malformed, crashed, section_none}
use pinsight.Parse.Text.{trim_whitespace}
use pinsight.Parse.Sections.{parse_section_header}
use pinsight.Parse.Keys.{parse_key_value}

-- The first character decides: a comment, a section header or a key.
unfoldable pub trimmed_line : Libc → Parser → List ℕ → Outcome
unfolding parse_section_header parse_key_value
trimmed_line libc p [] = parsed p
trimmed_line libc p (c ∷ s) =
    if c == 35
    then parsed p
    else if c == 91
    then parse_section_header p (c ∷ s)
    else parsed (parse_key_value libc p (c ∷ s))

unfoldable pub process_line : Libc → Parser → List ℕ → Outcome
unfolding trimmed_line trim_whitespace
process_line libc p line = trimmed_line libc p (trim_whitespace line)

-- The loop over the lines; it ends at the first line that is malformed. `none` is a crash.
unfoldable pub process_lines : Libc → Parser → List (List ℕ) → Option Parser
unfolding process_line
process_lines libc p [] = some p
process_lines libc p (line ∷ lines) = elim (process_line libc p line) [
  | parsed p' ↦ process_lines libc p' lines
  | malformed ↦ some p
  | crashed ↦ none
]

unfoldable pub fresh : Parser → Parser
fresh p = record p {
  section_type = section_none;
  domain_idx = none;
  punit_config = none;
  lexgion_config = none;
  lexgion_configs = [];
}

-- `lines` is `none` where the file cannot be opened.
unfoldable pub parse_config_file : Libc → Option (List (List ℕ)) → Parser → Option Parser
unfolding process_lines fresh
parse_config_file libc none p = some p
parse_config_file libc (some lines) p = process_lines libc (fresh p) lines
