-- ===== src/Parse/Header.antt =====
-- src/trace_config_parse.c: the first part of parse_section_header, which takes a section header
-- `[ACTION Target] : Inheritance : PunitSet` apart.
use pinsight.Common.{
  ℕ, zero, suc, ◌-◌, Bool, ◌&&◌, Option, none, some, List, [], ◌∷◌, length, ltb, ◌==◌,
  if◌then◌else◌, codes, str_eq, starts_with_case, skip_spaces,
}
use pinsight.Parse.State.{
  Parser, ConfigAction, action_set, action_reset, action_remove, section_none,
}
use pinsight.Parse.Text.{drop, trim_whitespace, before, behind, tokens}

-- The two parts behind the bracket are NULL where they are not written.
pub record Header : Type 0 where
  pub action : ConfigAction
  pub target : List ℕ
  pub inheritance : Option (List ℕ)
  pub punit_set : Option (List ℕ)

unfoldable pub read_action : List ℕ → ConfigAction
read_action inside =
    if starts_with_case inside (codes "SET ")
    then action_set
    else if starts_with_case inside (codes "RESET ")
    then action_reset
    else if starts_with_case inside (codes "REMOVE ")
    then action_remove
    else action_set

unfoldable pub read_target : List ℕ → List ℕ
unfolding drop trim_whitespace
read_target inside =
    if starts_with_case inside (codes "SET ")
    then trim_whitespace (drop 4 inside)
    else if starts_with_case inside (codes "RESET ")
    then trim_whitespace (drop 6 inside)
    else if starts_with_case inside (codes "REMOVE ")
    then trim_whitespace (drop 7 inside)
    else trim_whitespace inside

-- The pieces between colons, where a colon comes first.
unfoldable pub parts : List ℕ → List (List ℕ)
unfolding tokens
parts [] = []
parts (c ∷ s) = if c == 58 then tokens 58 s else []

abbrev pub part : List (List ℕ) → ℕ → Option (List ℕ)
unfolding trim_whitespace
part [] i = none
part (s ∷ ss) zero = some (trim_whitespace s)
part (s ∷ ss) (suc i) = part ss i

-- `none` without a closing bracket.
unfoldable pub read_header : List ℕ → Option Header
unfolding read_action read_target parts before behind drop trim_whitespace
read_header line = elim (behind 93 line) [
  | none ↦ none
  | some outside ↦
      let inside = drop 1 (before 93 line) in
      let ps = parts (skip_spaces outside) in
      some (record {
        action = read_action inside;
        target = read_target inside;
        inheritance = part ps 0;
        punit_set = part ps 1;
      })
]

unfoldable pub target_has_suffix : List ℕ → List ℕ → Bool
unfolding drop
target_has_suffix t suf = ltb (length suf) (length t) && str_eq (drop (length t - length suf) t) suf

-- The state of the parser that every header starts from; current_lexgion_configs is kept.
abbrev pub opened : Parser → Parser
opened p = record p {
  section_type = section_none;
  domain_idx = none;
  punit_config = none;
  lexgion_config = none;
}

-- A header whose section has no body.
abbrev pub closed : Parser → Parser
closed p = record p { section_type = section_none }
