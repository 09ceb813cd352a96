-- ===== src/Lexgion.antt =====
-- src/pinsight.h: the lexgions (traced code regions) of a thread, and the stack of those that run.
-- A `lexgion_t *` is an index into the thread's table `lexgions`, a `lexgion_record_t *` an index
-- into its array `lexgion_stack`, and NULL is `none`. Unsigned ints wrap at 2 ^ 32.
pub mod Stack
pub mod Table
pub mod Resolve
pub mod Rate
use pinsight.Common.{ℕ, ◌+◌, ◌-◌, ◌%◌, ◌^◌, Bool, Option, List, get_or}
use pinsight.Config.Rules.{ConfigRef}

abbrev pub u32 : ℕ → ℕ
u32 n = n % 2 ^ 32

-- `(unsigned int)-1`, which as max_num_traces means no limit.
abbrev pub u32_max : ℕ
u32_max = 4294967295

-- x - 1 on an unsigned int.
abbrev pub pred32 : ℕ → ℕ
pred32 n = u32 (n + u32_max)

-- `cls` is the field `class`; addresses are numbers.
pub record Lexgion : Type 0 where
  pub codeptr_ra : ℕ
  pub cls : ℕ
  pub type : ℕ
  pub end_codeptr_ra : ℕ
  pub counter : ℕ
  pub trace_counter : ℕ
  pub introspect_gen : ℕ
  pub first_trace_num : ℕ
  pub last_trace_num : ℕ
  pub num_exes_after_last_trace : ℕ
  pub trace_config : Option ConfigRef
  pub config_change_counter : ℕ
  pub trace_bit : Bool
  pub name : Option (List ℕ)
  pub filename_hint : Option (List ℕ)
  pub name_resolved_gen : ℕ

pub record LexgionRecord : Type 0 where
  pub lgp : Option ℕ
  pub record_id : ℕ
  pub parent : Option ℕ

-- The thread-local data that the lexgion functions use. `stack_size` is stack_top + 1, and a
-- recent_lexgion of -1 is `none`.
pub record ThreadData : Type 0 where
  pub initialized : Bool
  pub global_thread_num : ℕ
  pub lexgion_stack : List LexgionRecord
  pub stack_size : ℕ
  pub current_record : Option ℕ
  pub lexgions : List Lexgion
  pub num_lexgions : ℕ
  pub recent_lexgion : Option ℕ
