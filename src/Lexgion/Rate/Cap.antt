-- ===== src/Lexgion/Rate/Cap.antt =====
-- The cap max_num_traces of a tracing window: a capped lexgion stays silent until the control
-- thread advances the generation.
use pinsight.Common.{
  ℕ, zero, suc, ◌≤◌, false, not, ◌&&◌, leb, ◌==◌, if◌then◌else◌, ◌≡◌, ◌≢◌, refl, arith, ◌∙◌,
}
use pinsight.Config.Rules.{LexgionTraceConfig}
use pinsight.Lexgion.{Lexgion, u32_max, pred32}
use pinsight.Lexgion.Table.{executed}
use pinsight.Lexgion.Rate.{refresh_window, rate_bit, set_rate_trace_bit, count_trace}
use pinsight.Lexgion.Rate.Period.{execute, run}

-- The lexgion has reached the cap of the current generation.
pub record IsCapped (c : LexgionTraceConfig) (lg : Lexgion) : Type 0 where
  pub finite : c.max_num_traces ≢ u32_max
  pub reached : c.max_num_traces ≤ lg.trace_counter
  pub current : lg.introspect_gen ≡ c.end_action.generation

execute-IsCapped :
    (c : LexgionTraceConfig) (lg : Lexgion)
    → IsCapped c lg
    → IsCapped c (execute c lg)
      × ((execute c lg).trace_bit ≡ false)
      × ((execute c lg).trace_counter ≡ lg.trace_counter)
unfolding execute executed set_rate_trace_bit refresh_window rate_bit count_trace
execute-IsCapped c lg h = ground (arith, h.finite, h.reached, h.current)

run-IsCapped :
    (c : LexgionTraceConfig) (n : ℕ) (lg : Lexgion)
    → IsCapped c lg
    → IsCapped c (run c n lg) × ((run c n lg).trace_counter ≡ lg.trace_counter)
unfolding run
run-IsCapped c zero lg h = (h, refl)
run-IsCapped c (suc n) lg h =
    let (capped, kept) = run-IsCapped c n lg h in
    let (capped', _, kept') = execute-IsCapped c (run c n lg) capped in (capped', kept' ∙ kept)

-- A lexgion that has reached the cap of its window traces none of the executions that follow
-- under the same configuration, however many, and keeps its trace counter.
pub run-silent :
    (c : LexgionTraceConfig) (n : ℕ) (lg : Lexgion)
    → IsCapped c lg
    → ((run c (suc n) lg).trace_bit ≡ false) × ((run c (suc n) lg).trace_counter ≡ lg.trace_counter)
unfolding run
run-silent c n lg h =
    let (capped, kept) = run-IsCapped c n lg h in
    let (_, silent, kept') = execute-IsCapped c (run c n lg) capped in (silent, kept' ∙ kept)

-- The first execution after a change of the generation of a capped window counts from 0 again:
-- it is traced iff trace_starts_at and the rate allow it and the cap is not 0.
pub execute-new_generation :
    (c : LexgionTraceConfig) (lg : Lexgion)
    → c.max_num_traces ≢ u32_max
    → lg.introspect_gen ≢ c.end_action.generation
    → let lg' = executed lg in
      let traced =
        leb c.trace_starts_at (pred32 lg'.counter)
        && not (c.max_num_traces == 0)
        && leb c.tracing_rate lg'.num_exes_after_last_trace in
      ((execute c lg).trace_bit ≡ traced)
      × ((execute c lg).trace_counter ≡ (if traced then 1 else 0))
      × ((execute c lg).introspect_gen ≡ c.end_action.generation)
unfolding execute executed set_rate_trace_bit refresh_window rate_bit count_trace
execute-new_generation c lg h g = ground arith
