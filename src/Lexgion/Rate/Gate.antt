-- ===== src/Lexgion/Rate/Gate.antt =====
-- The gates of a trace: the event, the punits, and the rate triple, which the C code has twice.
use pinsight.Common.{ℕ, Bool, false, not, none, ◌&&◌, ◌||◌, ◌≡◌, arith, List, if◌then◌else◌, ◌≢◌}
use pinsight.Config.Domain.{DomainPunitSet}
use pinsight.Config.Rules.{ConfigTable, LexgionTraceConfig}
use pinsight.Lexgion.{Lexgion}
use pinsight.Lexgion.Resolve.{set_trace_config, config_of}
use pinsight.Lexgion.Rate.{
  event_off, event_on, punits_on, window_started, refresh_window, rate_bit, set_rate_trace_bit,
  set_trace_bit, set_top_trace_bit_domain_event, check_event_enabled,
}

event_off-on :
    (c : LexgionTraceConfig) (domain event : ℕ)
    → event_off c domain event ≡ not (event_on c domain event)
unfolding event_off event_on
event_off-on c domain event = ground arith

window_started-refresh :
    (c : LexgionTraceConfig) (lg : Lexgion) → window_started c lg ≡ refresh_window c lg
unfolding window_started refresh_window
window_started-refresh c lg = ground arith

-- Both gates, with a configuration.
set_trace_bit_lem :
    (matches : List DomainPunitSet → Bool) (c : LexgionTraceConfig) (domain event : ℕ)
    (lg : Lexgion)
    → set_trace_bit matches c domain event lg ≡ (
        if event_on c domain event && punits_on matches c
        then set_rate_trace_bit c lg
        else record lg { trace_bit = false })
unfolding set_trace_bit set_rate_trace_bit rate_bit
set_trace_bit_lem matches c domain event lg =
    rw (event_off-on c domain event, window_started-refresh c lg)
      (gates (event_on c domain event) c.domain_punit_set_set (matches c.domain_punits)
        (record lg { trace_bit = false }) (set_rate_trace_bit c lg))
  where
    gates :
        (e s m : Bool) (x y : Lexgion)
        → (if not e then x else (if s && not m then x else y))
          ≡ (if e && (not s || m) then y else x)
    gates e s m x y = ground arith

HasConfig : Lexgion → Type 0
HasConfig lg = lg.trace_config ≢ none

check_event_enabled_lem :
    (matches : List DomainPunitSet → Bool) (table : ConfigTable) (domain event : ℕ) (lg : Lexgion)
    → HasConfig lg
    → check_event_enabled matches table domain event lg
      ≡ (event_on (config_of table lg) domain event && punits_on matches (config_of table lg))
unfolding check_event_enabled HasConfig
check_event_enabled_lem matches table domain event lg h = ground (arith, h)

set_trace_config-HasConfig :
    (table : ConfigTable) (domain : ℕ) (lg : Lexgion) → HasConfig (set_trace_config table domain lg)
unfolding set_trace_config HasConfig
set_trace_config-HasConfig table domain lg = ground arith

-- lexgion_set_top_trace_bit_domain_event has its own copy of the gates: on the lexgion with its
-- configuration resolved it leaves the lexgion that lexgion_set_rate_trace_bit leaves, with the
-- reset at a new generation, if lexgion_check_event_enabled answers 1, and else the lexgion with a
-- cleared trace bit alone.
pub set_top_trace_bit-gates :
    (matches : List DomainPunitSet → Bool) (table : ConfigTable) (domain event : ℕ) (lg : Lexgion)
    → let lg' = set_trace_config table domain lg in
      set_top_trace_bit_domain_event matches table domain event lg ≡ (
        if check_event_enabled matches table domain event lg'
        then set_rate_trace_bit (config_of table lg') lg'
        else record lg' { trace_bit = false })
unfolding set_top_trace_bit_domain_event
set_top_trace_bit-gates matches table domain event lg =
    let lg' = set_trace_config table domain lg in
    rw
      (check_event_enabled_lem matches table domain event lg'
        (set_trace_config-HasConfig table domain lg))
      (set_trace_bit_lem matches (config_of table lg') domain event lg')
