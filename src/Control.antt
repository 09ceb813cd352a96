-- ===== src/Control.antt =====
-- src/pinsight_control_thread.c and src/pinsight.c: what the application threads and the control
-- thread share, as one state of the process. The threads act on it in turns: an application thread
-- ends a tracing window (Fire), the control thread applies the end action (Apply), waits on its
-- timers (Timers), and does both in its loop (Loop).
pub mod Fire
pub mod Timers
pub mod Apply
pub mod Loop
use pinsight.Common.{ℕ, zero, suc, ◌+◌, ◌%◌, ◌^◌, Bool, true, Option, List, modify, bit_or}
use pinsight.Common.Int.{ℤ}
use pinsight.Config.Mode.{NodePolicy}
use pinsight.Config.Domain.{DomainInfo, DomainTraceConfig, DomainSamplingConfig}
use pinsight.Config.Window.{WindowEndAction}
use pinsight.Config.Rules.{
  LexgionTraceConfig, ConfigRef, global_default, domain_default, entry, ConfigTable,
}
use pinsight.Lexgion.Resolve.{config_at}

-- `struct timespec`.
pub record Timespec : Type 0 where
  pub tv_sec : ℕ
  pub tv_nsec : ℕ

-- A `window_end_action_t *` is the configuration that holds it; `control_sem` is the value of the
-- semaphore. The arrays of the domains have MAX_NUM_DOMAINS elements.
pub record Process : Type 0 where
  pub table : ConfigTable
  pub num_domain : ℕ
  pub domain_info_table : List DomainInfo
  pub domain_trace_config : List DomainTraceConfig
  pub domain_sampling_config : List DomainSamplingConfig
  pub pending_mode_action : Option ConfigRef
  pub pending_wakeup_reason : ℕ
  pub control_sem : ℕ
  pub control_shutdown : Bool
  pub app_paused : Bool
  pub window_timer_armed : Bool
  pub window_deadline : Timespec
  pub window_timer_ma : Option ConfigRef
  pub manifest_timer_armed : Bool
  pub manifest_deadline : Timespec
  pub manifest_interval_sec : ℤ
  pub energy_measure_policy : NodePolicy

-- The bits of a wakeup reason.
abbrev pub wakeup_config_reload : ℕ
wakeup_config_reload = 1

abbrev pub wakeup_mode_change : ℕ
wakeup_mode_change = 2

abbrev pub wakeup_introspect : ℕ
wakeup_introspect = 4

abbrev pub max_num_domains : ℕ
max_num_domains = 8

-- The end action behind a pointer.
unfoldable pub end_action_at : ConfigTable → ConfigRef → WindowEndAction
unfolding config_at
end_action_at table r = (config_at table r).end_action

unfoldable pub in_config :
    (WindowEndAction → WindowEndAction) → LexgionTraceConfig → LexgionTraceConfig
in_config f c = record c { end_action = f c.end_action }

-- A write through the pointer.
unfoldable pub modify_action :
    (WindowEndAction → WindowEndAction) → ConfigRef → ConfigTable → ConfigTable
unfolding in_config
modify_action f global_default table = record table {
  lexgion_default = in_config f table.lexgion_default;
}
modify_action f (domain_default d) table = record table {
  domain_defaults = modify table.domain_defaults d (in_config f);
}
modify_action f (entry i) table = record table { entries = modify table.entries i (in_config f) }

-- pinsight_control_thread_wakeup; the handler of SIGUSR1 does the same with CONFIG_RELOAD.
unfoldable pub wakeup : ℕ → Process → Process
wakeup reason p = record p {
  pending_wakeup_reason = bit_or p.pending_wakeup_reason reason;
  control_sem = p.control_sem + 1;
}

-- The handler of SIGUSR1.
unfoldable pub sigusr1_handler : Process → Process
unfolding wakeup
sigusr1_handler p = wakeup wakeup_config_reload p

-- pinsight_control_thread_stop, up to the join.
unfoldable pub thread_stop : Process → Process
thread_stop p = record p { control_shutdown = true; control_sem = p.control_sem + 1 }
