-- ===== src/Sampler.antt =====
-- src/pinsight_sampler.c: the deadlines and the counts of a probe. A reading of CLOCK_MONOTONIC is a
-- Timespec; a counter is an `unsigned long` or an `unsigned long long`, of 64 bits.
pub mod Deadlines
use pinsight.Common.{
  ℕ, ◌+◌, ◌-◌, ◌*◌, ◌/◌, ◌%◌, ◌^◌, Bool, true, false, not, ◌&&◌, ◌||◌, leb, ltb, ◌==◌,
  if◌then◌else◌,
}
use pinsight.Common.Int.{ℤ, pos, ltb_ℤ, sub_ℕ, pos_part, neg_part}
use pinsight.Control.{Timespec}
use pinsight.Config.Mode.{TraceMode, rank, mode_none, same_mode}
use pinsight.Config.Domain.{DomainTraceConfig, DomainSamplingConfig}

-- The fields of pinsight_probe_t that the scheduling of a probe reads and writes, without its name,
-- its callback and its context.
pub record Probe : Type 0 where
  pub infra_min_trace_mode : TraceMode
  pub next_deadline : Timespec
  pub deadline_armed : Bool
  pub fraction_excluded : Bool
  pub latched_own : Bool
  pub warned_latched : Bool
  pub warned_min_mode : Bool
  pub ticks : ℕ
  pub missed_ticks : ℕ
  pub cost_ns_total : ℕ
  pub cost_ns_min : ℕ
  pub cost_ns_max : ℕ

abbrev pub u64 : ℕ → ℕ
u64 n = n % 2 ^ 64

abbrev pub ts_add_us : Timespec → ℕ → Timespec
ts_add_us ts us =
    let sec = ts.tv_sec + us / 1000000 in
    let nsec = ts.tv_nsec + us % 1000000 * 1000 in
    if leb 1000000000 nsec
    then record { tv_sec = sec + 1; tv_nsec = nsec - 1000000000 }
    else record { tv_sec = sec; tv_nsec = nsec }

-- a - b in nanoseconds; the difference fits a `long long`.
abbrev pub ts_diff_ns : Timespec → Timespec → ℤ
ts_diff_ns a b = sub_ℕ (a.tv_sec * 1000000000 + a.tv_nsec) (b.tv_sec * 1000000000 + b.tv_nsec)

-- The probe as the check leaves it, and whether it is enabled; sc and tc are the configurations of
-- its domain.
probe_enabled : DomainSamplingConfig → DomainTraceConfig → Probe → Probe × Bool
probe_enabled sc tc p =
    if sc.interval_us == 0
    then (p, false)
    else if p.fraction_excluded
    then (p, false)
    else if not (same_mode p.infra_min_trace_mode mode_none)
        && ltb (rank tc.mode) (rank p.infra_min_trace_mode)
    then (record p { warned_min_mode = true }, false)
    else (p, true)

abbrev same_flag : Bool → Bool → Bool
same_flag true b = b
same_flag false b = not b

check_latched : DomainSamplingConfig → Probe → Probe
check_latched sc p =
    if not p.warned_latched && not (same_flag sc.sampler_thread_own p.latched_own)
    then record p { warned_latched = true }
    else p

abbrev pub arm : DomainSamplingConfig → Timespec → Probe × Bool → Probe
arm sc now (p, false) = record p { deadline_armed = false }
arm sc now (p, true) =
    if p.deadline_armed
    then p
    else record p { next_deadline = ts_add_us now sc.interval_us; deadline_armed = true }

-- What the first loop of a round does to one probe.
unfoldable pub schedule : DomainSamplingConfig → DomainTraceConfig → Timespec → Probe → Probe
unfolding probe_enabled check_latched
schedule sc tc now p = arm sc now (probe_enabled sc tc (check_latched sc p))

-- The counts behind a call of the probe that started at t0 and ended at t1, not before t0.
unfoldable pub count_call : Timespec → Timespec → Probe → Probe
count_call t0 t1 p =
    let cost = pos_part (ts_diff_ns t1 t0) in
    record p {
      ticks = u64 (p.ticks + 1);
      cost_ns_total = u64 (p.cost_ns_total + cost);
      cost_ns_min = if (p.cost_ns_min == 0) || ltb cost p.cost_ns_min then cost else p.cost_ns_min;
      cost_ns_max = if ltb p.cost_ns_max cost then cost else p.cost_ns_max;
    }

-- The number of periods that the deadline `next` lies behind `now`, the one that runs included.
pub missed : ℕ → Timespec → Timespec → ℕ
missed interval next now = neg_part (ts_diff_ns next now) / (interval * 1000) + 1

-- The deadline behind a call: the next period, or one period from now where that has passed.
unfoldable pub advance : ℕ → Timespec → Probe → Probe
unfolding missed
advance interval now p =
    let next = ts_add_us p.next_deadline interval in
    if ltb_ℤ (pos 0) (ts_diff_ns next now) then record p { next_deadline = next } else record p {
      missed_ticks = u64 (p.missed_ticks + missed interval next now);
      next_deadline = ts_add_us now interval;
    }
