-- ===== src/Examples/Windows.antt =====
-- The theorems on the ends of tracing windows and the control thread, applied.
use pinsight.Common.{
  ℕ, ◌+◌, ◌-◌, ◌*◌, ◌%◌, ◌<◌, ◌≤◌, ◌==◌, true, false, ◌||◌, some, List, [], ◌∷◌, get_elem?,
  if◌then◌else◌, ◌≡◌, ◌≢◌, refl, arith,
}
use pinsight.Common.Int.{pos}
use pinsight.Config.Mode.{monitoring, rank}
use pinsight.Config.Rules.{global_default, entry}
use pinsight.Lexgion.{u32, u32_max}
use pinsight.Lexgion.Resolve.{config_at}
use pinsight.Control.{Timespec, Process, end_action_at}
use pinsight.Control.Fire.{fire_window_end, post_trace_update}
use pinsight.Control.Fire.Latch.{
  InTable, the_default, an_entry, is_fired, fire_all, fire_window_end-once,
}
use pinsight.Control.Fire.Modes.{fire_window_end-modes}
use pinsight.Control.Fire.Policy.{IsOver, post_trace_update-window}
use pinsight.Control.Timers.{WakeKind, wake_manifest, earliest, rotate_deadline, milliseconds}
use pinsight.Control.Timers.Deadline.{
  IsArmed, nanoseconds, earliest-least, rotate_deadline-boundary,
}
use pinsight.Control.Apply.{apply_end_action, cyclic_resume}
use pinsight.Control.Apply.Cycle.{apply_end_action-cyclic}
use pinsight.Control.Loop.{Effect, continued, waiting, posted, control_pass}
use pinsight.Control.{sigusr1_handler, thread_stop, wakeup_config_reload}
use pinsight.Control.Loop.Rounds.{Round, left, in_pause, control_loop, control_loop-thread_stop}
use pinsight.Control.Loop.Pending.{fire_window_end-overwrites, pause-keeps_reason}
use pinsight.Examples.Fixtures.{table, region, thread, process, midnight, traced_domain}

default-InTable : InTable process.table global_default
default-InTable = the_default

cycle-InTable : InTable process.table (entry 0)
cycle-InTable = an_entry (omega arith)

cycle-resumes : cyclic_resume 2 (end_action_at table (entry 0)).mode ≡ true
unfolding cyclic_resume end_action_at config_at
cycle-resumes = ground arith

apply_end_action-cyclic_example :
    let ma = end_action_at table (entry 0) in
    let p' = apply_end_action midnight (entry 0) process in
    (end_action_at p'.table (entry 0)
      ≡ record ma { fired = false; generation = u32 (ma.generation + 1) })
    × ((i : ℕ) (d : _)
        → i < 2
        → get_elem? p'.domain_trace_config i ≡ some d
        → d.mode_change_fired ≡ false)
apply_end_action-cyclic_example =
    apply_end_action-cyclic midnight (entry 0) process cycle-InTable cycle-resumes

fire_window_end-once_example :
    fire_window_end global_default
      (fire_all (entry 0 ∷ []) (fire_window_end global_default process))
    ≡ fire_all (entry 0 ∷ []) (fire_window_end global_default process)
fire_window_end-once_example =
    fire_window_end-once global_default (entry 0 ∷ []) process default-InTable

default-unfired : is_fired global_default process ≡ false
unfolding end_action_at config_at
default-unfired = refl

default-mode : get_elem? (end_action_at process.table global_default).mode 0 ≡ some monitoring
unfolding end_action_at config_at
default-mode = refl

fire_window_end-modes_example :
    get_elem? (fire_window_end global_default process).domain_trace_config 0
    ≡ some (
        if (end_action_at table global_default).introspect
          || (rank monitoring == 0)
          || false
          || (rank monitoring == 4)
        then traced_domain
        else record traced_domain {
          last_mode = traced_domain.mode;
          mode = monitoring;
          mode_change_fired = true;
        })
fire_window_end-modes_example =
    fire_window_end-modes global_default process 0 monitoring traced_domain default-unfired
      (omega arith) default-mode refl

entry-finite : (config_at process.table (entry 0)).max_num_traces ≢ u32_max
unfolding config_at
entry-finite = λ e. ground arith

post_trace_update-window_example :
    let c = config_at table (entry 0) in
    let after = post_trace_update 0 thread process in
    (IsOver table c (u32 1) after.0 → after.1 ≡ fire_window_end (entry 0) process)
    × (¬ IsOver table c (u32 1) after.0 → after.1 ≡ process)
post_trace_update-window_example =
    post_trace_update-window 0 thread process region (entry 0) refl refl entry-finite

-- The window of the entry has ended: its INTROSPECT action is pending, with one post.
abbrev introspecting : Process
introspecting = record process {
  pending_mode_action = some (entry 0);
  pending_wakeup_reason = 4;
  control_sem = 1;
}

cycle-pauses : (end_action_at introspecting.table (entry 0)).introspect_pause_duration ≢ pos 0
unfolding end_action_at config_at
cycle-pauses = λ e. cc

pause-keeps_reason_example :
    (q : Process) × (effects : List Effect) × (control_pass
        (λ p. p)
        sigusr1_handler
        0
        midnight
        midnight
        posted
        introspecting
      ≡ continued q effects)
    × (q.app_paused ≡ false)
    × (q.pending_wakeup_reason ≡ wakeup_config_reload)
    × ((meanwhile : Process → Process) (rotate_ms' : ℕ) (mono' now' : Timespec)
        → control_pass (λ p. p) meanwhile rotate_ms' mono' now' posted q ≡ waiting q)
pause-keeps_reason_example =
    pause-keeps_reason (λ p. p) 0 midnight midnight (entry 0) introspecting refl refl refl refl
      cycle-pauses

cycle-unfired : is_fired (entry 0) (fire_window_end global_default process) ≡ false
unfolding fire_window_end end_action_at config_at
cycle-unfired = ground arith

fire_window_end-overwrites_example :
    let p' = fire_window_end (entry 0) (fire_window_end global_default process) in
    (p'.pending_mode_action ≡ some (entry 0))
    × (is_fired global_default p' ≡ true)
    × (p'.control_sem ≡ 0 + 2)
fire_window_end-overwrites_example =
    fire_window_end-overwrites global_default (entry 0) process default-InTable default-unfired
      cycle-unfired

manifest-first :
    earliest 0 midnight midnight process ≡ some (wake_manifest, process.manifest_deadline)
unfolding earliest
manifest-first = ground arith

earliest-least_example :
    IsArmed 0 midnight midnight process wake_manifest process.manifest_deadline
    × ((k : WakeKind) (e : Timespec)
        → IsArmed 0 midnight midnight process k e
        → nanoseconds process.manifest_deadline ≤ nanoseconds e)
earliest-least_example =
    earliest-least 0 midnight midnight process wake_manifest process.manifest_deadline (omega arith)
      (omega arith) (omega arith) manifest-first

rotate_deadline-boundary_example :
    let t = rotate_deadline 1000 midnight midnight in
    let wait = 1000 - milliseconds midnight % 1000 in
    (t.tv_nsec < 1000000000)
    × (nanoseconds t ≡ nanoseconds midnight + (wait + 2) * 1000000)
    × (0 < wait)
    × (wait ≤ 1000)
    × ((milliseconds midnight + wait) % 1000 ≡ 0)
rotate_deadline-boundary_example =
    rotate_deadline-boundary 1000 midnight midnight (omega arith) (omega arith)

-- Nothing happens until the thread is told to stop, which then posts.
abbrev stop_round : Round
stop_round = record {
  until_wake = thread_stop;
  result = posted;
  during_pause = λ p. p;
  rotate_ms = 0;
  mono = midnight;
  now = midnight;
}

-- The thread is blocked in the pause of the action of the entry.
control_loop-thread_stop_example :
    (q : Process) × (control_loop
        (λ p. p)
        (in_pause 4 [] (entry 0))
        (stop_round ∷ stop_round ∷ [])
        process
      ≡ left q)
    × (q.control_shutdown ≡ true)
control_loop-thread_stop_example =
    control_loop-thread_stop (λ p. p) (in_pause 4 [] (entry 0)) stop_round (stop_round ∷ []) process
      process refl refl
