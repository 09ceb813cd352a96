-- ===== src/Lexgion/Table.antt =====
-- src/pinsight.c: the table of the lexgions that a thread has met, and the begin of a lexgion.
-- `max_num_lexgions` is MAX_NUM_LEXGIONS, the length of the array. A slot beyond num_lexgions
-- keeps what stood in it, which a new lexgion does not overwrite in every field.
pub mod Find
pub mod Kept
pub mod Counts
use pinsight.Common.{
  ℕ, zero, suc, ◌+◌, ◌-◌, Bool, true, false, ◌&&◌, Option, none, some, List, [], ◌∷◌, get_elem?,
  modify, ◌==◌, if◌then◌else◌,
}
use pinsight.Lexgion.{Lexgion, LexgionRecord, ThreadData, u32, u32_max}
use pinsight.Lexgion.Stack.{push_lexgion}

-- The key of a lexgion: its class, its type and its code pointer.
abbrev pub has_key : ℕ → ℕ → ℕ → Lexgion → Bool
has_key cls type codeptr lg = (lg.cls == cls) && (lg.type == type) && (lg.codeptr_ra == codeptr)

-- One of the two loops of find_lexgion: `left` slots from slot i on.
find_from : (Lexgion → Bool) → List Lexgion → ℕ → ℕ → Option ℕ
find_from found lexgions i zero = none
find_from found lexgions i (suc left) =
    let rest = find_from found lexgions (i + 1) left in
    elim (get_elem? lexgions i) [ none ↦ rest | some lg ↦ if found lg then some i else rest ]

abbrev pub or_else : Option ℕ → Option ℕ → Option ℕ
or_else none later = later
or_else (some i) later = some i

-- The search from the most recent lexgion to the last, and then from the first on.
unfoldable pub find_lexgion : ℕ → ℕ → ℕ → ThreadData → Option ℕ
unfolding find_from
find_lexgion cls type codeptr td =
    let found = has_key cls type codeptr in
    elim td.recent_lexgion [
      | none ↦ none
      | some recent ↦
          if td.num_lexgions == 0
          then none
          else or_else (find_from found td.lexgions recent (td.num_lexgions - recent))
              (find_from found td.lexgions 0 recent)
    ]

-- The fields that a new lexgion gets; -1 as an unsigned int forces the first resolution.
unfoldable pub fresh : ℕ → ℕ → ℕ → Lexgion → Lexgion
fresh cls type codeptr lg = record lg {
  codeptr_ra = codeptr;
  type = type;
  cls = cls;
  counter = 0;
  trace_counter = 0;
  num_exes_after_last_trace = 0;
  trace_config = none;
  config_change_counter = u32_max;
  name_resolved_gen = u32_max;
}

unfoldable pub executed : Lexgion → Lexgion
executed lg = record lg {
  num_exes_after_last_trace = u32 (lg.num_exes_after_last_trace + 1);
  counter = u32 (lg.counter + 1);
}

abbrev pub counter_at : List Lexgion → ℕ → ℕ
counter_at lexgions i = elim (get_elem? lexgions i) [ none ↦ 0 | some lg ↦ lg.counter ]

-- The end of lexgion_begin: one more execution of lexgion `index`, and its record on the stack.
unfoldable pub enter : ℕ → ℕ → ThreadData → ThreadData × Option ℕ
unfolding push_lexgion executed
enter max_depth index td =
    let lexgions' = modify td.lexgions index executed in
    push_lexgion max_depth (some index) (counter_at lexgions' index)
      (record td { recent_lexgion = some index; lexgions = lexgions' })

-- A new lexgion takes the next slot of the table.
unfoldable pub add_lexgion : ℕ → ℕ → ℕ → ThreadData → ThreadData
unfolding fresh
add_lexgion cls type codeptr td = record td {
  lexgions = modify td.lexgions td.num_lexgions (fresh cls type codeptr);
  num_lexgions = td.num_lexgions + 1;
}

-- What lexgion_begin does with the result of the search. With the table full and a key that is
-- not in it, nothing changes and the result is NULL.
unfoldable pub begin_at : ℕ → ℕ → ℕ → ℕ → ℕ → ThreadData → Option ℕ → ThreadData × Option ℕ
unfolding add_lexgion enter
begin_at max_num_lexgions max_depth cls type codeptr td (some index) = enter max_depth index td
begin_at max_num_lexgions max_depth cls type codeptr td none =
    if td.num_lexgions == max_num_lexgions
    then (td, none)
    else enter max_depth td.num_lexgions (add_lexgion cls type codeptr td)

unfoldable pub lexgion_begin : ℕ → ℕ → ℕ → ℕ → ℕ → ThreadData → ThreadData × Option ℕ
unfolding find_lexgion begin_at
lexgion_begin max_num_lexgions max_depth cls type codeptr td =
    begin_at max_num_lexgions max_depth cls type codeptr td (find_lexgion cls type codeptr td)
