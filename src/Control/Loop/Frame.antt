-- ===== src/Control/Loop/Frame.antt =====
-- What the application of an end action leaves alone: the wakeups and the flags of the thread.
use pinsight.Common.{
  ℕ, true, false, Option, none, some, ◌≡◌, refl, both_branches, List, [], ◌∷◌, ◌++◌, ◌||◌,
}
use pinsight.Config.Window.{WindowEndAction}
use pinsight.Config.Rules.{ConfigRef, global_default}
use pinsight.Control.{Timespec, Process, end_action_at, modify_action}
use pinsight.Control.Apply.{
  apply_targets, cyclic_resume, clear_latches, next_generation, resume_cycle, apply_end_action,
}
use pinsight.Control.Loop.{
  Pass, continued, Effect, apply_all_modes, sampler_kick, emit_window, has, finish_pass,
  after_pause,
}
use pinsight.Control.Timers.{window_timer_arm_from_default, manifest_timer_arm_from_config}
use pinsight.Control.Timers.{manifest_periodic_wanted, positive, after}

-- q has the semaphore, the reasons to wake up, the pause and the shutdown of p.
pub record Wakes (p q : Process) : Type 0 where
  pub sem : q.control_sem ≡ p.control_sem
  pub reason : q.pending_wakeup_reason ≡ p.pending_wakeup_reason
  pub app : q.app_paused ≡ p.app_paused
  pub shutdown : q.control_shutdown ≡ p.control_shutdown

window_timer-Wakes :
    (now : Timespec) (p q : Process) → Wakes p q → Wakes p (window_timer_arm_from_default now q)
unfolding window_timer_arm_from_default
window_timer-Wakes now p q w =
    go (positive (end_action_at q.table global_default).window_timeout_sec)
  where
    go :
        (o : Option ℕ)
        → Wakes p (elim o [
          | none ↦ record q { window_timer_ma = none; window_timer_armed = false }
          | some seconds ↦ record q {
            window_deadline = after now seconds;
            window_timer_ma = some global_default;
            window_timer_armed = true;
          }
        ])
    go none = record { sem = w.sem; reason = w.reason; app = w.app; shutdown = w.shutdown }
    go (some n) = record { sem = w.sem; reason = w.reason; app = w.app; shutdown = w.shutdown }

pub manifest_timer-Wakes :
    (now : Timespec) (p q : Process) → Wakes p q → Wakes p (manifest_timer_arm_from_config now q)
unfolding manifest_timer_arm_from_config
manifest_timer-Wakes now p q w =
    both_branches (Wakes p) (manifest_periodic_wanted q)
      (record { sem = w.sem; reason = w.reason; app = w.app; shutdown = w.shutdown })
      (record { sem = w.sem; reason = w.reason; app = w.app; shutdown = w.shutdown })

apply_targets-Wakes : (ma : WindowEndAction) (p : Process) → Wakes p (apply_targets ma p)
unfolding apply_targets
apply_targets-Wakes ma p = record { sem = refl; reason = refl; app = refl; shutdown = refl }

next_cycle : ConfigRef → Process → Process
next_cycle r p = record p {
  domain_trace_config = clear_latches p.num_domain p.domain_trace_config;
  table = modify_action next_generation r p.table;
}

resume_cycle-Wakes :
    (now : Timespec) (r : ConfigRef) (p q : Process) → Wakes p q → Wakes p (resume_cycle now r q)
unfolding resume_cycle next_cycle
resume_cycle-Wakes now r p q w =
    window_timer-Wakes now p (next_cycle r q)
      (record { sem = w.sem; reason = w.reason; app = w.app; shutdown = w.shutdown })

pub apply_end_action-Wakes :
    (now : Timespec) (r : ConfigRef) (p : Process) → Wakes p (apply_end_action now r p)
unfolding apply_end_action
apply_end_action-Wakes now r p =
    let ma : WindowEndAction = end_action_at p.table r in
    let w : Wakes p (apply_targets ma p) = apply_targets-Wakes ma p in
    both_branches (Wakes p) (cyclic_resume p.num_domain ma.mode)
      {x = resume_cycle now r (apply_targets ma p)} {y = apply_targets ma p}
      (resume_cycle-Wakes now r p (apply_targets ma p) w) w

-- A pass goes on, in a process with the wakeups and the flags of p.
abbrev pub ContinuesAs : Process → Pass → Type 0
ContinuesAs p o = (q : Process) × (effects : List Effect) × (o ≡ continued q effects) × Wakes p q

finish_pass-ContinuesAs :
    (now : Timespec) (reason : ℕ) (effects : List Effect) (p q : Process)
    → Wakes p q
    → ContinuesAs p (finish_pass now reason effects q)
unfolding finish_pass
finish_pass-ContinuesAs now reason effects p q w =
    both_branches (ContinuesAs p) (has reason 1 || has reason 2 || has reason 4)
      (
        manifest_timer_arm_from_config now q,
        effects ++ apply_all_modes ∷ sampler_kick ∷ emit_window ∷ [],
        refl,
        manifest_timer-Wakes now p q w,
      )
      (q, effects, refl, w)

-- Behind a pause the pass goes on.
pub after_pause-ContinuesAs :
    (now : Timespec) (reason : ℕ) (effects : List Effect) (r : ConfigRef) (p : Process)
    → ContinuesAs p (after_pause now reason effects r p)
unfolding after_pause
after_pause-ContinuesAs now reason effects r p =
    finish_pass-ContinuesAs now reason effects p (apply_end_action now r p)
      (apply_end_action-Wakes now r p)
