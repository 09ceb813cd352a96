-- ===== src/Examples/Probes.antt =====
-- The theorem on the deadlines of the sampler, applied to a probe that is three intervals late.
use pinsight.Common.{◌*◌, ◌+◌, ◌≤◌, ◌<◌, ◌≡◌, refl, arith, true, false}
use pinsight.Config.Mode.{mode_none, output_both}
use pinsight.Control.{Timespec}
use pinsight.Control.Timers.Deadline.{nanoseconds}
use pinsight.Common.Int.{pos}
use pinsight.Config.Domain.{DomainSamplingConfig, DomainTraceConfig}
use pinsight.Sampler.{Probe, advance, count_call, schedule}
use pinsight.Sampler.Deadlines.{IsNormal, advance-deadline}

abbrev late_probe : Probe
late_probe = record {
  infra_min_trace_mode = mode_none;
  next_deadline = record { tv_sec = 9; tv_nsec = 999000000 };
  deadline_armed = true;
  fraction_excluded = false;
  latched_own = false;
  warned_latched = false;
  warned_min_mode = false;
  ticks = 4;
  missed_ticks = 0;
  cost_ns_total = 400;
  cost_ns_min = 90;
  cost_ns_max = 110;
}

abbrev call_end : Timespec
call_end = record { tv_sec = 10; tv_nsec = 2500000 }

advance-deadline_example :
    IsNormal (advance 1000 call_end late_probe).next_deadline
    × (nanoseconds call_end < nanoseconds (advance 1000 call_end late_probe).next_deadline)
    × (nanoseconds (advance 1000 call_end late_probe).next_deadline
        ≤ nanoseconds call_end + 1000 * 1000)
advance-deadline_example =
    advance-deadline 1000 call_end late_probe (omega arith) (omega arith) (omega arith)
      (omega arith)

missed_test : (advance 1000 call_end late_probe).missed_ticks ≡ 3
unfolding advance
missed_test = refl

count_call_test :
    count_call
      (record { tv_sec = 9; tv_nsec = 999999950 })
      (record { tv_sec = 10; tv_nsec = 30 })
      late_probe
    ≡ record late_probe { ticks = 5; cost_ns_total = 480; cost_ns_min = 80; cost_ns_max = 110 }
unfolding count_call
count_call_test = refl

abbrev sampling : DomainSamplingConfig
sampling = record {
  interval_us = 1000;
  sampler_thread_own = true;
  max_depth = 64;
  overhead_budget_pct = pos 0;
  output = output_both;
  process_fraction = pos 1000;
}

schedule_test :
    (tc : DomainTraceConfig)
    → schedule sampling tc call_end (record late_probe { deadline_armed = false })
      ≡ record late_probe {
        next_deadline = record { tv_sec = 10; tv_nsec = 3500000 };
        warned_latched = true;
      }
unfolding schedule
schedule_test tc = refl
