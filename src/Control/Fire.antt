-- ===== src/Control/Fire.antt =====
-- src/pinsight.c and src/pinsight.h: the end of a tracing window by a count of traces. `td` is the
-- data of the running thread.
pub mod Latch
pub mod Modes
pub mod Policy
use pinsight.Common.{
  ℕ, zero, suc, ◌+◌, Bool, true, false, not, ◌&&◌, ◌||◌, Option, none, some, List, [], ◌∷◌,
  get_elem?, modify, ltb, ◌==◌, if◌then◌else◌,
}
use pinsight.Config.Mode.{TraceMode, mode_none, same_mode, WindowEndTrigger, trigger_all}
use pinsight.Config.Domain.{DomainTraceConfig}
use pinsight.Config.Window.{WindowEndAction}
use pinsight.Config.Rules.{LexgionTraceConfig, ConfigRef, ConfigTable}
use pinsight.Lexgion.{Lexgion, ThreadData, u32_max}
use pinsight.Lexgion.Resolve.{config_at}
use pinsight.Lexgion.Rate.{count_trace, is_capped}
use pinsight.Control.{
  Process, end_action_at, modify_action, wakeup, wakeup_mode_change, wakeup_introspect,
  max_num_domains,
}

-- The switch of one domain: to a mode that is asked for, once per cycle.
unfoldable pub switch_mode : TraceMode → DomainTraceConfig → DomainTraceConfig
switch_mode target d =
    if same_mode target mode_none
    then d
    else if not d.mode_change_fired && not (same_mode target d.mode)
    then record d { last_mode = d.mode; mode = target; mode_change_fired = true }
    else d

-- The switches of the first n domains.
unfoldable pub switch_modes : ℕ → List TraceMode → List DomainTraceConfig → List DomainTraceConfig
unfolding switch_mode
switch_modes zero modes ds = ds
switch_modes (suc n) modes [] = []
switch_modes (suc n) [] (d ∷ ds) = d ∷ ds
switch_modes (suc n) (m ∷ modes) (d ∷ ds) = switch_mode m d ∷ switch_modes n modes ds

-- The body of pinsight_fire_window_end once the latch is won; `ma` is the action behind `r`.
unfoldable pub end_window : ConfigRef → WindowEndAction → Process → Process
unfolding switch_modes wakeup
end_window r ma p =
    if ma.introspect
    then wakeup wakeup_introspect (record p { pending_mode_action = some r })
    else wakeup wakeup_mode_change (record p {
      domain_trace_config = switch_modes max_num_domains ma.mode p.domain_trace_config;
      pending_mode_action = some r;
    })

abbrev pub latch : WindowEndAction → WindowEndAction
latch ma = record ma { fired = true }

-- pinsight_fire_window_end.
unfoldable pub fire_window_end : ConfigRef → Process → Process
unfolding end_action_at modify_action end_window
fire_window_end r p =
    let ma = end_action_at p.table r in
    if ma.fired then p else end_window r ma (record p { table = modify_action latch r p.table })

-- The loop of pinsight_all_seen_lexgions_capped over the first n lexgions, with seen_finite > 0.
unfoldable pub all_capped : (ConfigRef → LexgionTraceConfig) → ℕ → List Lexgion → Bool → Bool
all_capped config zero lexgions seen_finite = seen_finite
all_capped config (suc n) [] seen_finite = seen_finite
all_capped config (suc n) (lg ∷ lexgions) seen_finite =
    let skip = all_capped config n lexgions seen_finite in
    let seen = all_capped config n lexgions true in
    elim lg.trace_config [
      | none ↦ skip
      | some r ↦
          if (config r).max_num_traces == u32_max
          then skip
          else if ltb lg.trace_counter (config r).max_num_traces
          then false
          else seen
    ]

unfoldable pub all_seen_lexgions_capped : ConfigTable → ThreadData → Bool
unfolding all_capped config_at
all_seen_lexgions_capped table td = all_capped (config_at table) td.num_lexgions td.lexgions false

abbrev pub is_all : WindowEndTrigger → Bool
is_all trigger_all = true
is_all _ = false

-- The counting policy lets this region end the window.
unfoldable pub may_fire : ConfigTable → LexgionTraceConfig → ThreadData → Bool
unfolding all_seen_lexgions_capped
may_fire table c td = not (is_all c.end_action.trigger) || all_seen_lexgions_capped table td

-- The end of lexgion_post_trace_update: the lexgion is `lg` after its counters were updated.
unfoldable pub trigger_window : ThreadData → Lexgion → Process → Process
unfolding config_at is_capped may_fire fire_window_end
trigger_window td lg p = elim lg.trace_config [
  | none ↦ p
  | some r ↦
      let c = config_at p.table r in
      if is_capped c lg && may_fire p.table c td then fire_window_end r p else p
]

-- lexgion_post_trace_update of the lexgion in slot `index` of the thread's table.
unfoldable pub post_trace_update : ℕ → ThreadData → Process → ThreadData × Process
unfolding count_trace trigger_window
post_trace_update index td p =
    let td' = record td { lexgions = modify td.lexgions index count_trace } in
    elim (get_elem? td'.lexgions index) [
      | none ↦ (td', p)
      | some lg ↦ (td', trigger_window td' lg p)
    ]
