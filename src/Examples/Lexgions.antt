-- ===== src/Examples/Lexgions.antt =====
-- The theorems on the lexgions of a thread, applied.
use pinsight.Common.{
  ◌+◌, ◌<◌, ◌≤◌, true, false, none, some, if◌then◌else◌, ◌≡◌, ◌↔◌, refl, arith, inl,
}
use pinsight.Lexgion.{Lexgion, u32}
use pinsight.Lexgion.Stack.{push_lexgion, lexgion_end_match, begins_at}
use pinsight.Lexgion.Stack.Refines.{
  frames, unwind, IsUnwound, push_lexgion-full, lexgion_end_match-frames,
}
use pinsight.Lexgion.Table.{find_lexgion, lexgion_begin}
use pinsight.Lexgion.Table.Find.{IsTable}
use pinsight.Lexgion.Table.Counts.{
  executions, same_key, lexgion_begin-executions, lexgion_begin-full,
}
use pinsight.Lexgion.Table.Kept.{lexgion_begin-IsTable}
use pinsight.Lexgion.Resolve.{resolve, set_trace_config, config_of}
use pinsight.Lexgion.Resolve.Order.{IsResolved, resolve-IsResolved}
use pinsight.Lexgion.Rate.{set_top_trace_bit_domain_event, check_event_enabled, set_rate_trace_bit}
use pinsight.Lexgion.Rate.Period.{run, mark, last_mark, IsNew, run-schedule, run-trace_bit}
use pinsight.Lexgion.Rate.Gate.{set_top_trace_bit-gates}
use pinsight.Lexgion.Rate.Cap.{IsCapped, run-silent}
use pinsight.Config.Mode.{TraceMode, tracing, same_mode}
use pinsight.Mpi.{fault, entered, call_prologue, call_epilogue, call_prologue-full}
use pinsight.Examples.Fixtures.{
  process, rules, table, region, thread, full_thread, thread-IsStack, thread-IsTable,
}

push_lexgion-full_example : push_lexgion 1 (some 0) 8 thread ≡ (thread, none)
push_lexgion-full_example = push_lexgion-full 1 (some 0) 8 thread refl

lexgion_end_match-frames_example :
    IsUnwound 2 thread
      (unwind (begins_at thread.lexgions 4096) (frames thread))
      (lexgion_end_match 4096 thread)
lexgion_end_match-frames_example = lexgion_end_match-frames 2 4096 thread thread-IsStack

lexgion_begin-executions_example : executions 1 3 4096 (lexgion_begin 2 2 1 3 4096 thread).0 ≡ (
    if same_key 1 3 4096 1 3 4096
    then u32 (executions 1 3 4096 thread + 1)
    else executions 1 3 4096 thread)
lexgion_begin-executions_example =
    lexgion_begin-executions 2 2 1 3 4096 1 3 4096 thread thread-IsTable (inl (omega arith))

lexgion_begin-IsTable_example : IsTable 2 (lexgion_begin 2 2 1 4 8192 thread).0
lexgion_begin-IsTable_example = lexgion_begin-IsTable 2 2 1 4 8192 thread thread-IsTable

full_thread-misses : find_lexgion 1 4 8192 full_thread ≡ none
unfolding find_lexgion
full_thread-misses = ground arith

lexgion_begin-full_example : lexgion_begin 1 2 1 4 8192 full_thread ≡ (full_thread, none)
lexgion_begin-full_example = lexgion_begin-full 1 2 1 4 8192 full_thread refl full_thread-misses

resolve-IsResolved_example : IsResolved table region 0 (resolve table region 0)
resolve-IsResolved_example = resolve-IsResolved table region 0

set_top_trace_bit-gates_example :
    let lg' = set_trace_config table 0 region in
    set_top_trace_bit_domain_event (λ _. true) table 0 5 region ≡ (
      if check_event_enabled (λ _. true) table 0 5 lg'
      then set_rate_trace_bit (config_of table lg') lg'
      else record lg' { trace_bit = false })
set_top_trace_bit-gates_example = set_top_trace_bit-gates (λ _. true) table 0 5 region

region-IsNew : IsNew region
region-IsNew = record { counter = refl; trace_counter = refl; num_exes_after_last_trace = refl }

run-schedule_example :
    let after = run rules 4 region in
    (after.trace_counter ≤ 2)
    × (last_mark rules after.trace_counter + after.num_exes_after_last_trace ≡ 4)
    × (after.trace_counter < 2 → 4 < mark rules after.trace_counter)
run-schedule_example = run-schedule rules 4 region (omega arith) (omega arith) region-IsNew

run-trace_bit_example :
    let q = (run rules 2 region).trace_counter in
    ((run rules 3 region).trace_bit ≡ true) ↔ ((q < 2) × (3 ≡ mark rules q))
run-trace_bit_example = run-trace_bit rules 2 region (omega arith) (omega arith) region-IsNew

abbrev capped_region : Lexgion
capped_region = record region { trace_counter = 2 }

capped_region-IsCapped : IsCapped rules capped_region
capped_region-IsCapped = record {
  finite = λ e. ground arith;
  reached = omega arith;
  current = refl;
}

run-silent_example :
    ((run rules 6 capped_region).trace_bit ≡ false)
    × ((run rules 6 capped_region).trace_counter ≡ 2)
run-silent_example = run-silent rules 5 capped_region capped_region-IsCapped

call_prologue-full_example :
    let call = call_prologue (λ _. none) (λ _. true) table 1 2 0 1 4 8192 tracing in
    (call tracing full_thread ≡ fault)
    × ((mode' : TraceMode)
        → same_mode mode' tracing ≡ false
        → call mode' full_thread ≡ entered none false full_thread)
    × (call_epilogue 8192 tracing none full_thread process ≡ (full_thread, process))
call_prologue-full_example =
    call_prologue-full (λ _. none) (λ _. true) 1 2 0 1 4 8192 tracing full_thread process refl refl
      full_thread-misses
