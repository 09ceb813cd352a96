-- ===== src/Examples/Parsing.antt =====
-- The theorems on the parser, the knobs and the loading of the configuration, applied.
use pinsight.Common.{
  ℕ, ◌+◌, ◌^◌, ◌%◌, ◌/◌, ◌<◌, true, false, not, ◌&&◌, ◌||◌, none, some, List, [], ◌∷◌, ◌++◌, length,
  replicate, leb, ltb, ◌==◌, if◌then◌else◌, codes, str_eq, starts_with_case, ◌≡◌, refl, arith,
}
use pinsight.Common.Int.{pos}
use pinsight.Common.Words.{bit_at}
use pinsight.BitSet.{test}
use pinsight.BitSet.Ranges.{range_rounds}
use pinsight.BitSet.Ranges.Laws.{IsFinished, range_rounds-IsFinished}
use pinsight.BitSet.Count.{popcount_ulong}
use pinsight.BitSet.Count.Laws.{ones, popcount_ulong-ones}
use pinsight.Config.Mode.{tracing, policy_off}
use pinsight.Config.Domain.{DomainInfo, DomainPunitSet}
use pinsight.Config.Rules.{ConfigTable, entry, domain_default}
use pinsight.Knobs.{get_knob_int, look_up_knob}
use pinsight.Load.{reload, complete, prepare, with_table}
use pinsight.Load.Laws.{default_config-reload}
use pinsight.Lexgion.Resolve.{default_config, first_entry, resolve}
use pinsight.Parse.State.{
  Store, Parser, Libc, malformed, parsed, section_none, action_set, action_remove,
  find_domain_index, enables, switch_event,
}
use pinsight.Parse.Header.{Header}
use pinsight.Parse.Text.{read_address, strtol_any, to_int, whole}
use pinsight.Parse.Entries.{get_or_create_address_lexgion_config, has_codeptr}
use pinsight.Parse.Lexgions.{add_target}
use pinsight.Parse.Lexgions.Laws.{resolve-add_target, add_target-full}
use pinsight.Parse.LexgionKeys.{lexgion_key}
use pinsight.Parse.LexgionKeys.Laws.{lexgion_key_order, lexgion_key-cycle}
use pinsight.Parse.DomainKeys.Laws.{bit_at-switch_event}
use pinsight.Parse.Keys.{knob_key}
use pinsight.Parse.Keys.Laws.{get_knob_int-knob_key}
use pinsight.Parse.Punits.{restrict}
use pinsight.Parse.Punits.Laws.{test-restrict}
use pinsight.Parse.Punits.{find_exact_punit_config}
use pinsight.Parse.PunitSections.{configs_of, find_existing}
use pinsight.Parse.PunitSections.Laws.{find_existing-unset}
use pinsight.Parse.File.{parse_config_file, process_line, process_lines}
use pinsight.Parse.File.Laws.{
  ParserEvolves, parse_config_file-ParserEvolves, done, next, process_lines-malformed,
}
use pinsight.Examples.Fixtures.{rules, cycle_rules, table, region, small_set, traced_domain}
use pinsight.Examples.Sets.{small_set-IsValid}

abbrev libc : Libc
libc = record { strtod = λ _. none; atof = λ _. pos 0 }

abbrev openmp : DomainInfo
openmp = record {
  name = codes "OpenMP";
  event_table = codes "parallel_begin" ∷ codes "parallel_end" ∷ [];
  event_install_status = 1;
  starting_mode = tracing;
  punits = record { name = codes "thread"; low = 0; high = 7 } ∷ [];
  nodepolicy_keys = [];
}

abbrev store : Store
store = record {
  table = record table { domain_defaults = rules ∷ [] };
  domain_info_table = openmp ∷ [];
  domain_trace_config = traced_domain ∷ [];
  domain_sampling_config = [];
  domain_punit_trace_config = [] ∷ [];
  knob_table = [];
  energy_measure_policy = policy_off;
  manifest_interval_sec = pos 10;
}

abbrev start : Parser
start = record {
  store = store;
  section_type = section_none;
  domain_idx = none;
  punit_config = none;
  lexgion_config = none;
  lexgion_configs = [];
  beyond = [];
}

abbrev file : List (List ℕ)
file =
    codes "[Knob]"
    ∷ codes "threads = 4"
    ∷ codes "[Lexgion(0x1000)]: OpenMP.tracing"
    ∷ codes "max_num_traces = 10"
    ∷ []

parse_config_file-ParserEvolves_example :
    ParserEvolves store (parse_config_file libc (some file) start)
parse_config_file-ParserEvolves_example = parse_config_file-ParserEvolves libc (some file) start

comment-parsed : process_line libc start (codes "# comment") ≡ parsed start
unfolding process_line
comment-parsed = refl

bracket-malformed : process_line libc start (codes "[Knob") ≡ malformed
unfolding process_line
bracket-malformed = refl

process_lines-malformed_example :
    process_lines libc start ((codes "# comment" ∷ []) ++ codes "[Knob" ∷ file) ≡ some start
process_lines-malformed_example =
    process_lines-malformed libc start start (codes "# comment" ∷ []) file (codes "[Knob")
      (next start start start (codes "# comment") [] comment-parsed (done start)) bracket-malformed

lexgion_key_order_example :
    let infos = openmp ∷ [] in
    (lexgion_key infos
        (codes "window_end_action")
        (codes "OpenMP:MONITORING")
        (lexgion_key infos (codes "window_timeout") (codes "30") rules)
      ≡ lexgion_key infos
          (codes "window_timeout")
          (codes "30")
          (lexgion_key infos (codes "window_end_action") (codes "OpenMP:MONITORING") rules))
    × (lexgion_key infos
          (codes "window_end_action")
          (codes "OpenMP:MONITORING")
          (lexgion_key infos (codes "window_end_trigger") (codes "all") rules)
        ≡ lexgion_key infos
            (codes "window_end_trigger")
            (codes "all")
            (lexgion_key infos (codes "window_end_action") (codes "OpenMP:MONITORING") rules))
lexgion_key_order_example =
    lexgion_key_order (openmp ∷ []) (codes "OpenMP:MONITORING") (codes "30") (codes "all") rules

lexgion_key-cycle_example :
    let c = lexgion_key (openmp ∷ []) (codes "window_end_action") (codes "OFF") cycle_rules in
    (c.end_action.generation ≡ cycle_rules.end_action.generation)
    × (c.end_action.fired ≡ cycle_rules.end_action.fired)
lexgion_key-cycle_example =
    lexgion_key-cycle (openmp ∷ []) (codes "window_end_action") (codes "OFF") cycle_rules

region-entry :
    (get_or_create_address_lexgion_config table (read_address (codes "0x1000"))).1 ≡ some 0
unfolding get_or_create_address_lexgion_config first_entry read_address
region-entry = refl

region-codeptr : region.codeptr_ra ≡ read_address (codes "0x1000")
unfolding read_address
region-codeptr = refl

resolve-add_target_example :
    (table' : ConfigTable) × (add_target (openmp ∷ []) action_set table [] (codes "0x1000")
      ≡ some (table', [] ++ entry 0 ∷ []))
    × (resolve table' region 1 ≡ entry 0)
unfolding starts_with_case
resolve-add_target_example =
    resolve-add_target (openmp ∷ []) action_set table [] 48 (codes "x1000") 0 region 1 refl
      region-entry region-codeptr

-- The 512 entries of other addresses.
abbrev full_table : ConfigTable
full_table = record table { entries = replicate 512 rules }

full_table-unknown :
    first_entry (has_codeptr (read_address (codes "0x1000"))) full_table.entries ≡ none
unfolding first_entry read_address
full_table-unknown = refl

add_target-full_example : add_target (openmp ∷ []) action_set full_table [] (codes "0x1000") ≡ none
unfolding starts_with_case
add_target-full_example =
    add_target-full (openmp ∷ []) action_set full_table [] 48 (codes "x1000") refl
      full_table-unknown (omega arith)

abbrev remove_header : Header
remove_header = record {
  action = action_remove;
  target = codes "Lexgion(OpenMP).default";
  inheritance = none;
  punit_set = none;
}

openmp-found : find_domain_index (openmp ∷ []) (codes "OpenMP") ≡ some 0
unfolding find_domain_index str_eq
openmp-found = refl

test-restrict_example :
    test (restrict 0 1 small_set 0 1024) 2
    ≡ (test small_set 2 && (not (leb 0 2 && ltb 2 (0 + 1024)) || (leb 0 2 && leb 2 1)))
test-restrict_example = test-restrict 0 1 small_set 0 1024 2 small_set-IsValid

-- Ids of the first kind of domain 1, and a parser that has a configuration for just these.
abbrev target : List DomainPunitSet
target =
    record { is_set = false; punit = [] }
    ∷ record { is_set = true; punit = record { is_set = true; punit_ids = small_set } ∷ [] }
    ∷ record { is_set = false; punit = [] }
    ∷ []

abbrev configured : Parser
configured = record start {
  store = record store {
    domain_punit_trace_config = [] ∷ (record { events = 1; domain_punits = target } ∷ []) ∷ [];
  };
}

find_existing-unset_example : find_existing configured 1 target ≡ none
find_existing-unset_example = find_existing-unset configured 1 target refl

-- With the address of the target itself the configuration is found.
find_exact_punit_config_test : find_exact_punit_config (configs_of configured 1) 1 target ≡ some 0
unfolding find_exact_punit_config
find_exact_punit_config_test = refl

bit_at-switch_event_example :
    (bit_at 1 (switch_event (enables openmp 1 (codes "on")) 1 3)
      ≡ (if 1 == 1 then (if enables openmp 1 (codes "on") then 1 else 0) else bit_at 1 3))
    × (enables openmp 1 (codes "on") ≡ true → openmp.event_install_status / 2 ^ 1 % 2 ≡ 1)
bit_at-switch_event_example =
    bit_at-switch_event openmp 1 1 3 (codes "on") (omega arith) (omega arith)

four-whole : whole (strtol_any (codes "4")) ≡ some (pos 4)
unfolding strtol_any
four-whole = refl

get_knob_int-knob_key_example :
    (get_knob_int (λ _. pos 0) (knob_key libc (codes "threads") (codes "4") []) (codes "threads")
      ≡ to_int (pos 4))
    × ((other : List ℕ)
        → str_eq (codes "threads") other ≡ false
        → look_up_knob (knob_key libc (codes "threads") (codes "4") []) other
          ≡ look_up_knob [] other)
get_knob_int-knob_key_example =
    get_knob_int-knob_key libc (λ _. pos 0) (codes "threads") (codes "4") [] (pos 4) (omega arith)
      (omega arith) four-whole

-- A changed file that cannot be opened.
abbrev reloaded : Parser
reloaded = with_table complete (with_table prepare start)

start-reloads : reload libc none start ≡ some reloaded
unfolding reload
start-reloads = refl

reloaded-defaults : 0 < length reloaded.store.table.domain_defaults
unfolding complete prepare
reloaded-defaults = omega arith

default_config-reload_example : default_config reloaded.store.table 0 ≡ domain_default 0
default_config-reload_example =
    default_config-reload libc none start reloaded 0 start-reloads (omega arith) reloaded-defaults

range_rounds-IsFinished_example : IsFinished (range_rounds 6 small_set (codes "0,2-4"))
range_rounds-IsFinished_example = range_rounds-IsFinished 6 small_set (codes "0,2-4") (omega arith)

popcount_ulong-ones_example : popcount_ulong 5 ≡ some (ones 64 5)
popcount_ulong-ones_example = popcount_ulong-ones 5 (omega arith)
