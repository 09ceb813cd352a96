-- ===== src/Control/Loop/Pending.antt =====
-- What waits for the control thread between its passes: the pending action, the reasons to wake
-- up, and the posts of the semaphore.
use pinsight.Common.{
  ℕ, ◌+◌, ◌-◌, Bool, Option, if◌then◌else◌, true, false, ◌||◌, none, some, List, [], ◌≡◌, ◌≢◌, refl,
  arith, ap, ◌∙◌, ◌==◌,
}
use pinsight.Common.Int.{pos}
use pinsight.Config.Window.{WindowEndAction}
use pinsight.Config.Rules.{ConfigRef}
use pinsight.Control.{
  Timespec, Process, end_action_at, wakeup, sigusr1_handler, wakeup_introspect,
  wakeup_config_reload,
}
use pinsight.Control.Fire.{end_window, fire_window_end}
use pinsight.Control.Fire.Latch.{InTable, is_fired, fire_window_end-fired, fire_window_end-keeps}
use pinsight.Control.Timers.{window_already_ended}
use pinsight.Control.Loop.{
  Effect, continued, stopped, finish_pass, waiting, posted, pause, resumed, resume, behind_pause,
  script_effects, handle, take_action, woken, window_timeout, control_pass,
}
use pinsight.Control.Loop.Frame.{after_pause-ContinuesAs}

fire_window_end-posts :
    (r : ConfigRef) (p : Process)
    → is_fired r p ≡ false
    → let p' = fire_window_end r p in
      (p'.pending_mode_action ≡ some r) × (p'.control_sem ≡ p.control_sem + 1)
unfolding fire_window_end end_window wakeup
fire_window_end-posts r p h = ground arith

-- Two windows end before the control thread wakes up, the first of them in the table: two posts
-- are made and the latch of the first is set, but only the action of the second is pending.
pub fire_window_end-overwrites :
    (r s : ConfigRef) (p : Process)
    → InTable p.table r
    → is_fired r p ≡ false
    → is_fired s (fire_window_end r p) ≡ false
    → let p' = fire_window_end s (fire_window_end r p) in
      (p'.pending_mode_action ≡ some s)
      × (is_fired r p' ≡ true)
      × (p'.control_sem ≡ p.control_sem + 2)
fire_window_end-overwrites r s p h hr hs =
    let (_, first) = fire_window_end-posts r p hr in
    let (last, second) = fire_window_end-posts s (fire_window_end r p) hs in
    (
      last,
      fire_window_end-keeps r s (fire_window_end r p) (fire_window_end-fired r p h),
      omega (arith, first, second),
    )

-- Where the action of the window timer was fired, or every domain that it has a target for has
-- switched and there is one, the window's deadline does nothing but disarm the timer.
pub window_timeout-ended :
    (load_config meanwhile : Process → Process) (now : Timespec) (p : Process) (r : ConfigRef)
    → p.window_timer_ma ≡ some r
    → (window_already_ended (end_action_at p.table r) (record p { window_timer_armed = false })
        || is_fired r p)
      ≡ true
    → window_timeout load_config meanwhile now p
      ≡ continued (record p { window_timer_armed = false }) []
unfolding window_timeout
window_timeout-ended load_config meanwhile now p r hm h = ground arith

signalled : Process → Process
signalled p = resume (sigusr1_handler (record p { app_paused = true }))

pause-signalled :
    (ma : WindowEndAction) (p : Process)
    → ma.introspect_pause_duration ≢ pos 0
    → pause sigusr1_handler ma p ≡ resumed (signalled p)
unfolding pause sigusr1_handler wakeup signalled
pause-signalled ma p h = ground (arith, h)

sigusr1-signalled :
    (p : Process)
    → p.control_sem ≡ 0
    → p.pending_wakeup_reason ≡ 0
    → ((signalled p).control_sem ≡ 0)
      × ((signalled p).pending_wakeup_reason ≡ 1)
      × ((signalled p).app_paused ≡ false)
unfolding sigusr1_handler wakeup signalled
sigusr1-signalled p h k = (ground (arith, h), ground (arith, k), refl)

-- The process in which a pass for an INTROSPECT action meets its pause.
at_pause : Process → Process
at_pause p = record p {
  control_sem = p.control_sem - 1;
  pending_wakeup_reason = 0;
  pending_mode_action = none;
}

posted_pass :
    (load_config meanwhile : Process → Process) (rotate_ms : ℕ) (mono now : Timespec) (p : Process)
    → p.control_sem ≡ 1
    → control_pass load_config meanwhile rotate_ms mono now posted p
      ≡ woken load_config meanwhile now p
unfolding control_pass
posted_pass load_config meanwhile rotate_ms mono now p s =
    let some_post : (p.control_sem == 0) ≡ false = ground (arith, s) in
    ap (λ (b : Bool). if b then waiting p else woken load_config meanwhile now p) some_post

-- The process with the post and the reasons taken.
taken : Process → Process
taken p = record p { control_sem = p.control_sem - 1; pending_wakeup_reason = 0 }

woken-handle :
    (load_config meanwhile : Process → Process) (now : Timespec) (p : Process)
    → p.control_shutdown ≡ false
    → woken load_config meanwhile now p
      ≡ handle load_config meanwhile now p.pending_wakeup_reason (taken p)
unfolding woken taken
woken-handle load_config meanwhile now p h =
    ap
      (λ (b : Bool).
        if b
        then stopped (record p { control_sem = p.control_sem - 1 })
        else handle load_config meanwhile now p.pending_wakeup_reason (taken p))
      h

handle-introspect :
    (load_config meanwhile : Process → Process) (now : Timespec) (p : Process)
    → handle load_config meanwhile now wakeup_introspect p
      ≡ take_action meanwhile now wakeup_introspect [] p
unfolding handle
handle-introspect load_config meanwhile now p = refl

take_action-introspect :
    (meanwhile : Process → Process) (now : Timespec) (r : ConfigRef) (p : Process)
    → p.pending_mode_action ≡ some r
    → take_action meanwhile now wakeup_introspect [] p
      ≡ behind_pause now wakeup_introspect
          (script_effects (end_action_at p.table r) r [])
          r
          (pause meanwhile (end_action_at p.table r) (record p { pending_mode_action = none }))
unfolding take_action
take_action-introspect meanwhile now r p a =
    ap
      (λ (o : Option ConfigRef). elim o [
        | none ↦ finish_pass now wakeup_introspect [] p
        | some s ↦
            behind_pause now wakeup_introspect (script_effects (end_action_at p.table s) s []) s
              (pause meanwhile (end_action_at p.table s) (record p { pending_mode_action = none }))
      ])
      a

introspect_pass :
    (load_config : Process → Process) (rotate_ms : ℕ) (mono now : Timespec) (r : ConfigRef)
    (p : Process)
    → p.control_shutdown ≡ false
    → p.control_sem ≡ 1
    → p.pending_wakeup_reason ≡ wakeup_introspect
    → p.pending_mode_action ≡ some r
    → control_pass load_config sigusr1_handler rotate_ms mono now posted p
      ≡ behind_pause now wakeup_introspect
          (script_effects (end_action_at p.table r) r [])
          r
          (pause sigusr1_handler (end_action_at p.table r) (at_pause p))
unfolding taken at_pause
introspect_pass load_config rotate_ms mono now r p h s k a =
    posted_pass load_config sigusr1_handler rotate_ms mono now p s
    ∙ woken-handle load_config sigusr1_handler now p h
    ∙ ap (λ (n : ℕ). handle load_config sigusr1_handler now n (taken p)) k
    ∙ handle-introspect load_config sigusr1_handler now (taken p)
    ∙ take_action-introspect sigusr1_handler now r (taken p) a

empty_wait :
    (load_config meanwhile : Process → Process) (rotate_ms : ℕ) (mono now : Timespec) (p : Process)
    → p.control_sem ≡ 0
    → control_pass load_config meanwhile rotate_ms mono now posted p ≡ waiting p
unfolding control_pass
empty_wait load_config meanwhile rotate_ms mono now p h = rw h refl

-- The control thread wakes up for an INTROSPECT action with a pause, by the only post, and with no
-- other reason pending; a SIGUSR1 ends the pause. Then the whole pass, with the action applied, ends
-- with the application running, the reload still pending and the semaphore at 0; in this process
-- the thread waits for a post.
pub pause-keeps_reason :
    (load_config : Process → Process) (rotate_ms : ℕ) (mono now : Timespec) (r : ConfigRef)
    (p : Process)
    → p.control_shutdown ≡ false
    → p.control_sem ≡ 1
    → p.pending_wakeup_reason ≡ wakeup_introspect
    → p.pending_mode_action ≡ some r
    → (end_action_at p.table r).introspect_pause_duration ≢ pos 0
    → (q : Process) × (effects : List Effect) × (control_pass load_config sigusr1_handler rotate_ms
          mono now posted p
        ≡ continued q effects)
      × (q.app_paused ≡ false)
      × (q.pending_wakeup_reason ≡ wakeup_config_reload)
      × ((meanwhile : Process → Process) (rotate_ms' : ℕ) (mono' now' : Timespec)
          → control_pass load_config meanwhile rotate_ms' mono' now' posted q ≡ waiting q)
unfolding at_pause behind_pause
pause-keeps_reason load_config rotate_ms mono now r p h s k a d =
    let ma : WindowEndAction = end_action_at p.table r in
    let effects : List Effect = script_effects ma r [] in
    let (sem, reason, app) = sigusr1-signalled (at_pause p) (omega (arith, s)) refl in
    let (q, es, e, w) =
      after_pause-ContinuesAs now wakeup_introspect effects r (signalled (at_pause p)) in
    (
      q,
      es,
      introspect_pass load_config rotate_ms mono now r p h s k a
          ∙ ap (behind_pause now wakeup_introspect effects r) (pause-signalled ma (at_pause p) d)
          ∙ e,
      w.app ∙ app,
      w.reason ∙ reason,
      λ meanwhile rotate_ms' mono' now'.
          empty_wait load_config meanwhile rotate_ms' mono' now' q (w.sem ∙ sem),
    )
