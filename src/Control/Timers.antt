-- ===== src/Control/Timers.antt =====
-- src/pinsight_control_thread.c: the timers of the control thread. `now` is a reading of
-- CLOCK_REALTIME, `mono` one of CLOCK_MONOTONIC.
pub mod Deadline
pub mod Ended
use pinsight.Common.{
  ℕ, zero, suc, ◌+◌, ◌-◌, ◌*◌, ◌/◌, ◌%◌, Bool, true, false, not, ◌&&◌, ◌||◌, Option, none, some,
  List, [], ◌∷◌, ltb, leb, ◌==◌, if◌then◌else◌,
}
use pinsight.Common.Int.{ℤ, pos, negsuc}
use pinsight.Config.Mode.{TraceMode, mode_none, off, same_mode, same_policy, policy_off}
use pinsight.Config.Domain.{DomainTraceConfig}
use pinsight.Config.Window.{WindowEndAction}
use pinsight.Config.Rules.{global_default}
use pinsight.Control.{Timespec, Process, end_action_at}

-- The loop of window_already_ended over the first n domains.
unfoldable pub already_ended : ℕ → List TraceMode → List DomainTraceConfig → Bool → Bool
already_ended zero modes ds has_target = has_target
already_ended (suc n) [] ds has_target = has_target
already_ended (suc n) (m ∷ modes) [] has_target = has_target
already_ended (suc n) (m ∷ modes) (d ∷ ds) has_target =
    let skip = already_ended n modes ds has_target in
    let hit = already_ended n modes ds true in
    if same_mode m mode_none then skip else if not d.mode_change_fired then false else hit

unfoldable pub window_already_ended : WindowEndAction → Process → Bool
unfolding already_ended
window_already_ended ma p = already_ended p.num_domain ma.mode p.domain_trace_config false

-- The value of a C int that is known to be positive.
abbrev pub positive : ℤ → Option ℕ
positive (pos (suc n)) = some (suc n)
positive (pos zero) = none
positive (negsuc n) = none

abbrev pub after : Timespec → ℕ → Timespec
after t seconds = record t { tv_sec = t.tv_sec + seconds }

-- The loop of manifest_periodic_wanted over the first n domains.
unfoldable pub any_collecting : ℕ → List DomainTraceConfig → Bool
any_collecting zero ds = false
any_collecting (suc n) [] = false
any_collecting (suc n) (d ∷ ds) =
    let rest = any_collecting n ds in if not (same_mode d.mode off) then true else rest

unfoldable pub manifest_periodic_wanted : Process → Bool
unfolding any_collecting
manifest_periodic_wanted p = elim (positive p.manifest_interval_sec) [
  | none ↦ false
  | some _ ↦
      not (same_policy p.energy_measure_policy policy_off)
      || any_collecting p.num_domain p.domain_trace_config
]

abbrev pub interval_of : ℤ → ℕ
interval_of z = elim (positive z) [ none ↦ 0 | some n ↦ n ]

unfoldable pub manifest_timer_arm_from_config : Timespec → Process → Process
unfolding manifest_periodic_wanted
manifest_timer_arm_from_config now p =
    if manifest_periodic_wanted p
    then record p {
      manifest_deadline = after now (interval_of p.manifest_interval_sec);
      manifest_timer_armed = true;
    }
    else record p { manifest_timer_armed = false }

unfoldable pub window_timer_arm_from_default : Timespec → Process → Process
unfolding end_action_at
window_timer_arm_from_default now p =
    elim (positive (end_action_at p.table global_default).window_timeout_sec) [
      | none ↦ record p { window_timer_ma = none; window_timer_armed = false }
      | some seconds ↦ record p {
        window_deadline = after now seconds;
        window_timer_ma = some global_default;
        window_timer_armed = true;
      }
    ]

unfoldable pub ts_before : Timespec → Timespec → Bool
ts_before a b = ltb a.tv_sec b.tv_sec || ((a.tv_sec == b.tv_sec) && ltb a.tv_nsec b.tv_nsec)

abbrev pub milliseconds : Timespec → ℕ
milliseconds t = t.tv_sec * 1000 + t.tv_nsec / 1000000

-- The next rotation boundary of a period of `rotate_ms` > 0, and 2 ms, on CLOCK_REALTIME.
unfoldable pub rotate_deadline : ℕ → Timespec → Timespec → Timespec
rotate_deadline rotate_ms mono now =
    let rem_ms = rotate_ms - milliseconds mono % rotate_ms + 2 in
    let ns = now.tv_nsec + rem_ms % 1000 * 1000000 in
    record { tv_sec = now.tv_sec + rem_ms / 1000 + ns / 1000000000; tv_nsec = ns % 1000000000 }

pub data WakeKind : Type 0 where
  wake_rotate wake_window wake_manifest : WakeKind

-- An armed deadline replaces a later one.
unfoldable pub sooner :
    Bool → WakeKind → Timespec → Option (WakeKind × Timespec) → Option (WakeKind × Timespec)
unfolding ts_before
sooner armed kind deadline none = if armed then some (kind, deadline) else none
sooner armed kind deadline (some (k, e)) =
    if armed && ts_before deadline e then some (kind, deadline) else some (k, e)

-- What the control thread waits for; `rotate_ms` is 0 if no domain rotates.
unfoldable pub earliest : ℕ → Timespec → Timespec → Process → Option (WakeKind × Timespec)
unfolding sooner rotate_deadline
earliest rotate_ms mono now p =
    let rotation =
      if rotate_ms == 0 then none else some (wake_rotate, rotate_deadline rotate_ms mono now) in
    sooner p.manifest_timer_armed wake_manifest p.manifest_deadline
      (sooner p.window_timer_armed wake_window p.window_deadline rotation)
