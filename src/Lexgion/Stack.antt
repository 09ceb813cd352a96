-- ===== src/Lexgion/Stack.antt =====
-- src/pinsight.c: the record stack of a thread. The records stand in an array and are linked by
-- `parent`; the functions follow the links. The warnings on stderr are not modelled.
pub mod Links
pub mod Refines
use pinsight.Common.{
  ℕ, zero, suc, ◌+◌, ◌-◌, Bool, true, false, not, ◌&&◌, ◌||◌, Option, none, some, List, [], ◌∷◌,
  get_elem?, set, ◌==◌, same, if◌then◌else◌,
}
use pinsight.Lexgion.{Lexgion, LexgionRecord, ThreadData}

-- init_thread_data.
unfoldable pub init_thread_data : ℕ → ThreadData → ThreadData
init_thread_data thread_num td = record td {
  global_thread_num = thread_num;
  stack_size = 0;
  current_record = none;
  num_lexgions = 0;
  recent_lexgion = none;
  initialized = true;
}

-- `max_depth` is MAX_LEXGION_STACK_DEPTH; the result is the new record, NULL on overflow.
unfoldable pub push_lexgion : ℕ → Option ℕ → ℕ → ThreadData → ThreadData × Option ℕ
push_lexgion max_depth lgp record_id td =
    let top = td.stack_size in
    if top == max_depth then (td, none) else (
      record td {
        lexgion_stack =
            set td.lexgion_stack top
              (record { lgp = lgp; record_id = record_id; parent = td.current_record });
        current_record = some top;
        stack_size = top + 1;
      },
      some top,
    )

-- What a pop yields: the lexgion, and the record id that is stored through `record_id`.
pub record Popped : Type 0 where
  pub lgp : Option ℕ
  pub record_id : Option ℕ

-- The record of a pointer; a pointer to no record of the array is never followed.
abbrev pub deref : ThreadData → Option ℕ → Option LexgionRecord
deref td none = none
deref td (some p) = get_elem? td.lexgion_stack p

unfoldable pub pop_lexgion : ThreadData → ThreadData × Popped
pop_lexgion td = elim (deref td td.current_record) [
  | none ↦ (td, record { lgp = none; record_id = none })
  | some r ↦ (
    record td { current_record = r.parent; stack_size = td.stack_size - 1 },
    record { lgp = r.lgp; record_id = some r.record_id },
  )
]

-- The searches down the stack: from a record to the first one whose lexgion `found` accepts,
-- with the records left as fuel.
pub walk : (Option ℕ → Bool) → ThreadData → ℕ → Option ℕ → Option ℕ
walk found td zero p = none
walk found td (suc fuel) p = elim (deref td p) [
  | none ↦ none
  | some r ↦ elim (found r.lgp) [ true ↦ p | false ↦ walk found td fuel r.parent ]
]

abbrev pub lexgion_at : List Lexgion → Option ℕ → Option Lexgion
lexgion_at lexgions none = none
lexgion_at lexgions (some i) = get_elem? lexgions i

-- lgp != NULL && lgp->codeptr_ra == codeptr_ra.
abbrev pub begins_at : List Lexgion → ℕ → Option ℕ → Bool
begins_at lexgions codeptr lgp = elim (lexgion_at lexgions lgp) [
  | none ↦ false
  | some lg ↦ lg.codeptr_ra == codeptr
]

abbrev pub has_type : List Lexgion → ℕ → ℕ → Option ℕ → Bool
has_type lexgions cls type lgp = elim (lexgion_at lexgions lgp) [
  | none ↦ false
  | some lg ↦ (lg.cls == cls) && (lg.type == type)
]

-- `while (current_record != stop) lgp = pop_lexgion(record_id);`
pub pop_until : ℕ → Option ℕ → ThreadData → Popped → ThreadData × Popped
unfolding pop_lexgion
pop_until zero stop td last = (td, last)
pop_until (suc fuel) stop td last = elim (same td.current_record stop) [
  | true ↦ (td, last)
  | false ↦ pop_until fuel stop (pop_lexgion td).0 (pop_lexgion td).1
]

abbrev pub parent_of : ThreadData → Option ℕ → Option ℕ
parent_of td p = elim (deref td p) [ none ↦ none | some r ↦ r.parent ]

abbrev pub nothing_popped : Popped
nothing_popped = record { lgp = none; record_id = none }

-- The end of lexgion_end_match, from the record that the search found.
unfoldable pub unwind_to : ThreadData → Option ℕ → ThreadData × Popped
unfolding pop_until
unwind_to td none = (td, nothing_popped)
unwind_to td (some p) = pop_until td.stack_size (parent_of td (some p)) td nothing_popped

unfoldable pub lexgion_end_match : ℕ → ThreadData → ThreadData × Popped
unfolding walk unwind_to
lexgion_end_match codeptr td =
    unwind_to td (walk (begins_at td.lexgions codeptr) td td.stack_size td.current_record)

unfoldable pub lexgion_end : ThreadData → ThreadData × Popped
unfolding pop_lexgion
lexgion_end td = pop_lexgion td

unfoldable pub top_lexgion_type : ℕ → ℕ → ThreadData → Option ℕ
unfolding walk
top_lexgion_type cls type td =
    walk (has_type td.lexgions cls type) td td.stack_size td.current_record

unfoldable pub top_lexgion : ThreadData → Option ℕ
top_lexgion td = td.current_record
