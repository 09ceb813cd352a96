-- ===== src/Examples/Fixtures.antt =====
-- Data for the examples: a region of code, its configuration, a thread and a process.
use pinsight.Common.{ℕ, zero, suc, true, false, none, some, [], ◌∷◌, ◌<◌, refl, arith, codes}
use pinsight.Common.Int.{pos, negsuc}
use pinsight.Config.Mode.{
  mode_none, off, monitoring, tracing, policy_off, trigger_first, trigger_all,
}
use pinsight.Config.Domain.{DomainTraceConfig}
use pinsight.Config.Window.{WindowEndAction}
use pinsight.Config.Rules.{LexgionTraceConfig, global_default, entry, ConfigTable}
use pinsight.BitSet.{BitSet, value, array}
use pinsight.Lexgion.{Lexgion, LexgionRecord, ThreadData}
use pinsight.Lexgion.Stack.Links.{IsStack, Linked}
use pinsight.Lexgion.Table.Find.{IsTable}
use pinsight.Control.{Timespec, Process}

-- {0, 2} of 0..10, and {1, 128} of 0..128.
abbrev pub small_set : BitSet
small_set = record { words = value 5; nbits = 10; nwords = 1 }

abbrev pub large_set : BitSet
large_set = record { words = array (2 ∷ 0 ∷ 1 ∷ []); nbits = 128; nwords = 3 }

-- Two domains: the first is switched to a lower mode, then both trace again.
abbrev pub to_monitoring : WindowEndAction
to_monitoring = record {
  mode = monitoring ∷ mode_none ∷ [];
  introspect = false;
  introspect_pause_duration = pos 0;
  introspect_script = [];
  fired = false;
  generation = 0;
  trigger = trigger_first;
  window_timeout_sec = pos 60;
  np_target = [];
  np_set = [];
  sampling_target = [];
  sampling_set = [];
}

abbrev pub introspect_cycle : WindowEndAction
introspect_cycle = record to_monitoring {
  mode = tracing ∷ mode_none ∷ [];
  introspect = true;
  introspect_pause_duration = pos 10;
  introspect_script = codes "analyze.sh";
  trigger = trigger_all;
}

-- Every second execution from the third on, twice.
abbrev pub rules : LexgionTraceConfig
rules = record {
  domain_punit_set_set = false;
  domain_punits = [];
  domain_events = [];
  trace_starts_at = 2;
  max_num_traces = 2;
  tracing_rate = 2;
  codeptr = 0;
  removed = false;
  name = [];
  filename_hint = [];
  domain_index = negsuc 0;
  end_action = to_monitoring;
}

abbrev pub cycle_rules : LexgionTraceConfig
cycle_rules = record rules { codeptr = 4096; end_action = introspect_cycle }

abbrev pub table : ConfigTable
table = record {
  lexgion_default = rules;
  domain_defaults = [];
  entries = cycle_rules ∷ [];
  config_change_counter = 1;
}

abbrev pub region : Lexgion
region = record {
  codeptr_ra = 4096;
  cls = 1;
  type = 3;
  end_codeptr_ra = 0;
  counter = 0;
  trace_counter = 0;
  introspect_gen = 0;
  first_trace_num = 0;
  last_trace_num = 0;
  num_exes_after_last_trace = 0;
  trace_config = some (entry 0);
  config_change_counter = 0;
  trace_bit = false;
  name = none;
  filename_hint = none;
  name_resolved_gen = 0;
}

abbrev pub region_record : LexgionRecord
region_record = record { lgp = some 0; record_id = 7; parent = none }

-- One lexgion in a table of two, one record on a stack of two.
abbrev pub thread : ThreadData
thread = record {
  initialized = true;
  global_thread_num = 0;
  lexgion_stack = region_record ∷ region_record ∷ [];
  stack_size = 1;
  current_record = some 0;
  lexgions = region ∷ region ∷ [];
  num_lexgions = 1;
  recent_lexgion = some 0;
}

thread-Linked : (k : ℕ) → k < 1 → Linked thread.lexgion_stack k
thread-Linked zero h = (region_record, refl, refl)
thread-Linked (suc k) h = absurd (omega arith)

pub thread-IsStack : IsStack 2 thread
thread-IsStack = record { room = refl; fits = omega arith; current = refl; linked = thread-Linked }

pub thread-IsTable : IsTable 2 thread
thread-IsTable = record {
  keyed = record { room = refl; fits = omega arith; distinct = λ i j a b hi hj _ _ _. omega arith };
  recent_in = λ r h. ground arith;
  recent_there = λ h. cc;
}

-- The table has no second slot left.
abbrev pub full_thread : ThreadData
full_thread = record thread { lexgions = region ∷ [] }

abbrev pub traced_domain : DomainTraceConfig
traced_domain = record {
  mode = tracing;
  last_mode = off;
  events = 0;
  mode_change_fired = false;
  nodepolicy = record { policy = policy_off; param = 0 } ∷ [];
}

abbrev pub midnight : Timespec
midnight = record { tv_sec = 0; tv_nsec = 0 }

abbrev pub process : Process
process = record {
  table = table;
  num_domain = 2;
  domain_info_table = [];
  domain_trace_config = traced_domain ∷ traced_domain ∷ [];
  domain_sampling_config = [];
  pending_mode_action = none;
  pending_wakeup_reason = 0;
  control_sem = 0;
  control_shutdown = false;
  app_paused = false;
  window_timer_armed = true;
  window_deadline = record { tv_sec = 60; tv_nsec = 0 };
  window_timer_ma = some global_default;
  manifest_timer_armed = true;
  manifest_deadline = record { tv_sec = 10; tv_nsec = 0 };
  manifest_interval_sec = pos 10;
  energy_measure_policy = policy_off;
}
