-- ===== src/Lexgion/Rate.antt =====
-- src/pinsight.c and src/pinsight.h: the rate triple, whether an execution of a lexgion is traced.
pub mod Period
pub mod Gate
pub mod Cap
use pinsight.Common.{
  ℕ, zero, suc, ◌+◌, ◌/◌, ◌%◌, ◌^◌, Bool, true, false, not, ◌&&◌, ◌||◌, Option, none, some, List,
  get_elem?, ltb, leb, ◌==◌, if◌then◌else◌,
}
use pinsight.Config.Domain.{DomainPunitSet}
use pinsight.Config.Rules.{EventSet, LexgionTraceConfig, ConfigTable}
use pinsight.Lexgion.{Lexgion, u32, u32_max, pred32}
use pinsight.Lexgion.Resolve.{set_trace_config, config_of}

-- The event is not switched off: no setting for the domain, or bit `event` of its mask.
unfoldable pub event_on : LexgionTraceConfig → ℕ → ℕ → Bool
event_on c domain event = elim (get_elem? c.domain_events domain) [
  | none ↦ true
  | some e ↦ not e.is_set || ((e.events / 2 ^ event) % 2 == 1)
]

-- The punits of a configuration are met; `matches` is domain_punit_set_match in the running thread.
abbrev pub punits_on : (List DomainPunitSet → Bool) → LexgionTraceConfig → Bool
punits_on matches c = not c.domain_punit_set_set || matches c.domain_punits

-- The reset of the trace counter at a new generation of the tracing window.
unfoldable pub refresh_window : LexgionTraceConfig → Lexgion → Lexgion
refresh_window c lg =
    if c.max_num_traces == u32_max
    then lg
    else if lg.introspect_gen == c.end_action.generation
    then lg
    else record lg { trace_counter = 0; introspect_gen = c.end_action.generation }

unfoldable pub rate_bit : LexgionTraceConfig → Lexgion → Bool
rate_bit c lg =
    leb c.trace_starts_at (pred32 lg.counter)
    && ((c.max_num_traces == u32_max) || ltb lg.trace_counter c.max_num_traces)
    && leb c.tracing_rate lg.num_exes_after_last_trace

-- lexgion_set_rate_trace_bit.
unfoldable pub set_rate_trace_bit : LexgionTraceConfig → Lexgion → Lexgion
unfolding refresh_window rate_bit
set_rate_trace_bit c lg = let lg' = refresh_window c lg in record lg' { trace_bit = rate_bit c lg' }

-- lexgion_set_top_trace_bit_domain_event has its own copies of the test of the event, of the
-- reset at a new generation, and of the rate triple.
event_off : LexgionTraceConfig → ℕ → ℕ → Bool
event_off c domain event = elim (get_elem? c.domain_events domain) [
  | none ↦ false
  | some e ↦ e.is_set && not ((e.events / 2 ^ event) % 2 == 1)
]

window_started : LexgionTraceConfig → Lexgion → Lexgion
window_started c lg =
    if not (c.max_num_traces == u32_max)
    then (if not (lg.introspect_gen == c.end_action.generation)
        then record lg { trace_counter = 0; introspect_gen = c.end_action.generation }
        else lg)
    else lg

-- The end of lexgion_set_top_trace_bit_domain_event, with the configuration that was resolved.
unfoldable pub set_trace_bit :
    (List DomainPunitSet → Bool) → LexgionTraceConfig → ℕ → ℕ → Lexgion → Lexgion
unfolding event_off window_started
set_trace_bit matches c domain event lg =
    if event_off c domain event
    then record lg { trace_bit = false }
    else if c.domain_punit_set_set && not (matches c.domain_punits)
    then record lg { trace_bit = false }
    else let lg' = window_started c lg in
      record lg' {
        trace_bit =
            leb c.trace_starts_at (pred32 lg'.counter)
            && ((c.max_num_traces == u32_max) || ltb lg'.trace_counter c.max_num_traces)
            && leb c.tracing_rate lg'.num_exes_after_last_trace;
      }

-- lexgion_set_top_trace_bit_domain_event; it returns the lexgion's trace bit.
unfoldable pub set_top_trace_bit_domain_event :
    (List DomainPunitSet → Bool) → ConfigTable → ℕ → ℕ → Lexgion → Lexgion
unfolding set_trace_bit set_trace_config config_of
set_top_trace_bit_domain_event matches table domain event lg =
    let lg' = set_trace_config table domain lg in
    set_trace_bit matches (config_of table lg') domain event lg'

-- lexgion_check_event_enabled; without a configuration every event is enabled.
unfoldable pub check_event_enabled :
    (List DomainPunitSet → Bool) → ConfigTable → ℕ → ℕ → Lexgion → Bool
unfolding event_on config_of
check_event_enabled matches table domain event lg = elim lg.trace_config [
  | none ↦ true
  | some _ ↦ event_on (config_of table lg) domain event && punits_on matches (config_of table lg)
]

-- The counters of lexgion_post_trace_update.
unfoldable pub count_trace : Lexgion → Lexgion
count_trace lg =
    let traces = u32 (lg.trace_counter + 1) in
    record lg {
      trace_counter = traces;
      first_trace_num = if traces == 1 then pred32 lg.counter else lg.first_trace_num;
      num_exes_after_last_trace = 0;
      last_trace_num = pred32 lg.counter;
    }

-- lexgion_post_trace_update found the cap of the window.
unfoldable pub is_capped : LexgionTraceConfig → Lexgion → Bool
is_capped c lg = not (c.max_num_traces == u32_max) && leb c.max_num_traces lg.trace_counter
