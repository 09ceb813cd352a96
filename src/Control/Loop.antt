-- ===== src/Control/Loop.antt =====
-- src/pinsight_control_thread.c: pinsight_control_loop, one pass of it at a time. A pass reads the
-- clocks once (`now`, `mono`). What it does outside the process is a list of effects.
pub mod Pending
pub mod Rounds
pub mod Frame
use pinsight.Common.{
  ℕ, zero, suc, ◌+◌, ◌-◌, ◌/◌, ◌%◌, Bool, true, false, not, ◌&&◌, ◌||◌, Option, none, some, List,
  [], ◌∷◌, ◌++◌, ◌==◌, if◌then◌else◌, codes, str_eq,
}
use pinsight.Common.Int.{ℤ, pos, negsuc}
use pinsight.Config.Window.{WindowEndAction}
use pinsight.Config.Rules.{ConfigRef}
use pinsight.Control.{
  Timespec, Process, end_action_at, modify_action, wakeup_mode_change, wakeup_introspect,
}
use pinsight.Control.Fire.{latch}
use pinsight.Control.Timers.{
  WakeKind, wake_rotate, wake_window, wake_manifest, earliest, window_already_ended,
  manifest_timer_arm_from_config, window_timer_arm_from_default, positive,
}
use pinsight.Control.Apply.{apply_end_action}

-- What a pass has done outside: the calls that open or close collectors, callbacks, files and
-- traces.
pub data Effect : Type 0 where
  run_script : ConfigRef → Effect
  invalidate_config_mtime energy_apply_config dump_config apply_collect_state : Effect
  apply_all_modes sampler_kick emit_periodic emit_window : Effect

-- How a pass ends: the loop goes on, it is left, it still waits for a wakeup, or it is blocked in a
-- pause without limit, with the reason it handles, what it has done outside, and the configuration
-- whose action it applies afterwards.
pub data Pass : Type 0 where
  continued : Process → List Effect → Pass
  stopped : Process → Pass
  waiting : Process → Pass
  paused : ℕ → List Effect → ConfigRef → Process → Pass

-- How sem_wait and sem_timedwait return.
pub data WaitResult : Type 0 where
  interrupted timed_out posted : WaitResult

-- A bit of a wakeup reason.
abbrev pub has : ℕ → ℕ → Bool
has reason flag = (reason / flag) % 2 == 1

abbrev pub has_script : WindowEndAction → Bool
has_script ma = elim ma.introspect_script [
  | [] ↦ false
  | _ ∷ _ ↦ not (str_eq ma.introspect_script (codes "-"))
]

-- The end of a pause: a post is taken from the semaphore and the application resumes.
abbrev pub resume : Process → Process
resume p = record p { app_paused = false; control_sem = p.control_sem - 1 }

-- A pause has ended, or the thread is blocked in it.
pub data PauseEnd : Type 0 where
  resumed blocked : Process → PauseEnd

-- The pause of control_execute_introspect. `meanwhile` is what the application's threads and its
-- signals do to the process until the wait returns: with the semaphore at 0 a timed wait times
-- out, and one without a limit does not return. Signals that interrupt the wait are not modelled:
-- SIGUSR1 is blocked in this thread.
unfoldable pub pause : (Process → Process) → WindowEndAction → Process → PauseEnd
pause meanwhile ma p =
    let p' = meanwhile (record p { app_paused = true }) in
    elim ma.introspect_pause_duration [
      | pos zero ↦ resumed p
      | pos (suc _) ↦
          if p'.control_sem == 0
          then resumed (record p' { app_paused = false })
          else resumed (resume p')
      | negsuc _ ↦ if p'.control_sem == 0 then blocked p' else resumed (resume p')
    ]

-- Steps 4 and 5.
unfoldable pub finish_pass : Timespec → ℕ → List Effect → Process → Pass
unfolding manifest_timer_arm_from_config
finish_pass now reason effects p =
    if has reason 1 || has reason 2 || has reason 4
    then continued (manifest_timer_arm_from_config now p)
        (effects ++ apply_all_modes ∷ sampler_kick ∷ emit_window ∷ [])
    else continued p effects

-- The rest of a pass behind the script and the pause.
unfoldable pub after_pause : Timespec → ℕ → List Effect → ConfigRef → Process → Pass
unfolding apply_end_action finish_pass
after_pause now reason effects r p = finish_pass now reason effects (apply_end_action now r p)

abbrev pub script_effects : WindowEndAction → ConfigRef → List Effect → List Effect
script_effects ma r effects = if has_script ma then effects ++ run_script r ∷ [] else effects

abbrev pub behind_pause : Timespec → ℕ → List Effect → ConfigRef → PauseEnd → Pass
unfolding after_pause
behind_pause now reason effects r (resumed p) = after_pause now reason effects r p
behind_pause now reason effects r (blocked p) = paused reason effects r p

-- A thread that is blocked in a pause, once something was posted.
unfoldable pub continue_pause : Timespec → ℕ → List Effect → ConfigRef → Process → Pass
unfolding after_pause
continue_pause now reason effects r p =
    if p.control_sem == 0
    then paused reason effects r p
    else after_pause now reason effects r (resume p)

-- Steps 2 and 3.
unfoldable pub take_action : (Process → Process) → Timespec → ℕ → List Effect → Process → Pass
unfolding pause after_pause behind_pause apply_end_action end_action_at finish_pass
take_action meanwhile now reason effects p =
    if not (has reason 4 || has reason 2)
    then finish_pass now reason effects p
    else elim p.pending_mode_action [
      | none ↦ finish_pass now reason effects p
      | some r ↦
          let ma = end_action_at p.table r in
          let p' = record p { pending_mode_action = none } in
          if not (has reason 4)
          then finish_pass now reason effects (apply_end_action now r p')
          else behind_pause now reason (script_effects ma r effects) r (pause meanwhile ma p')
    ]

-- Step 1; `load_config` is pinsight_load_config(NULL).
unfoldable pub handle : (Process → Process) → (Process → Process) → Timespec → ℕ → Process → Pass
unfolding take_action window_timer_arm_from_default
handle load_config meanwhile now reason p =
    if has reason 1
    then take_action meanwhile now reason
        (invalidate_config_mtime ∷ energy_apply_config ∷ dump_config ∷ [])
        (window_timer_arm_from_default now (load_config p))
    else take_action meanwhile now reason [] p

abbrev pub reason_of : WindowEndAction → ℕ
reason_of ma = if ma.introspect then wakeup_introspect else wakeup_mode_change

-- The window's deadline was reached.
unfoldable pub window_timeout :
    (Process → Process) → (Process → Process) → Timespec → Process → Pass
unfolding handle end_action_at modify_action window_already_ended
window_timeout load_config meanwhile now p =
    let p' = record p { window_timer_armed = false } in
    elim p.window_timer_ma [
      | none ↦ continued p' []
      | some r ↦
          let ma = end_action_at p.table r in
          if window_already_ended ma p' || ma.fired
          then continued p' []
          else handle load_config meanwhile now (reason_of ma)
              (record p' { table = modify_action latch r p.table; pending_mode_action = some r })
    ]

-- A post was taken: leave, or handle the reasons that were gathered.
unfoldable pub woken : (Process → Process) → (Process → Process) → Timespec → Process → Pass
unfolding handle
woken load_config meanwhile now p =
    let p' = record p { control_sem = p.control_sem - 1 } in
    if p.control_shutdown
    then stopped p'
    else handle load_config meanwhile now p.pending_wakeup_reason
        (record p' { pending_wakeup_reason = 0 })

-- What a timeout does, by what was waited for; without a deadline there is none.
unfoldable pub deadline_reached :
    (Process → Process)
    → (Process → Process)
    → Timespec
    → Option (WakeKind × Timespec)
    → Process
    → Pass
unfolding window_timeout manifest_timer_arm_from_config
deadline_reached load_config meanwhile now (some (wake_rotate, _)) p =
    continued p (apply_collect_state ∷ [])
deadline_reached load_config meanwhile now (some (wake_manifest, _)) p =
    continued (manifest_timer_arm_from_config now p) (emit_periodic ∷ [])
deadline_reached load_config meanwhile now (some (wake_window, _)) p =
    window_timeout load_config meanwhile now p
deadline_reached load_config meanwhile now none p = waiting p

-- One pass of the loop of pinsight_control_loop.
unfoldable pub control_pass :
    (Process → Process)
    → (Process → Process)
    → ℕ
    → Timespec
    → Timespec
    → WaitResult
    → Process
    → Pass
unfolding woken deadline_reached earliest
control_pass load_config meanwhile rotate_ms mono now interrupted p = continued p []
control_pass load_config meanwhile rotate_ms mono now timed_out p =
    deadline_reached load_config meanwhile now (earliest rotate_ms mono now p) p
control_pass load_config meanwhile rotate_ms mono now posted p =
    if p.control_sem == 0 then waiting p else woken load_config meanwhile now p
