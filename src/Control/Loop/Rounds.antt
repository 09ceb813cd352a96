-- ===== src/Control/Loop/Rounds.antt =====
-- src/pinsight_control_thread.c: the loop of the control thread over its passes, with what the
-- application's threads and its signals do in between.
use pinsight.Common.{
  ℕ, ◌+◌, ◌-◌, true, false, List, [], ◌∷◌, ◌==◌, if◌then◌else◌, ◌≡◌, refl, arith, subst, sym,
}
use pinsight.Config.Rules.{ConfigRef}
use pinsight.Control.{Timespec, Process, thread_stop}
use pinsight.Control.Timers.{window_timer_arm_from_default, manifest_timer_arm_from_config}
use pinsight.Control.Loop.{
  Pass, continued, stopped, waiting, paused, Effect, WaitResult, posted, woken, resume,
  control_pass, continue_pause,
}
use pinsight.Control.Loop.Frame.{after_pause-ContinuesAs}

-- One pass: what the others do until the wait returns, how it returns, what they do during a
-- pause, the period of a rotating collector, and the clocks.
pub record Round : Type 0 where
  pub until_wake : Process → Process
  pub result : WaitResult
  pub during_pause : Process → Process
  pub rotate_ms : ℕ
  pub mono : Timespec
  pub now : Timespec

-- Where the thread blocks: in the wait of the loop, or in a pause without limit.
pub data Blocked : Type 0 where
  in_wait : Blocked
  in_pause : ℕ → List Effect → ConfigRef → Blocked

-- The thread has left the loop, or goes on after these rounds.
pub data Thread : Type 0 where
  left running : Process → Thread

abbrev pub pass_of : (Process → Process) → Round → Blocked → Process → Pass
unfolding control_pass continue_pause
pass_of load_config r in_wait p =
    control_pass load_config r.during_pause r.rotate_ms r.mono r.now r.result p
pass_of load_config r (in_pause reason effects ref) p = continue_pause r.now reason effects ref p

-- The rounds of a thread that is blocked; `while (!control_shutdown)` is asked behind a pass.
unfoldable pub control_loop : (Process → Process) → Blocked → List Round → Process → Thread
unfolding pass_of
control_loop load_config b [] p = running p
control_loop load_config b (r ∷ rs) p = elim (pass_of load_config r b (r.until_wake p)) [
  | continued p' _ ↦
      let rest = control_loop load_config in_wait rs p' in
      if p'.control_shutdown then left p' else rest
  | stopped p' ↦ left p'
  | waiting p' ↦ control_loop load_config in_wait rs p'
  | paused reason effects ref p' ↦ control_loop load_config (in_pause reason effects ref) rs p'
]

-- pinsight_control_loop from its start.
unfoldable pub control_thread : (Process → Process) → Timespec → List Round → Process → Thread
unfolding control_loop window_timer_arm_from_default manifest_timer_arm_from_config
control_thread load_config now rounds p =
    let p' = manifest_timer_arm_from_config now (window_timer_arm_from_default now p) in
    let rest = control_loop load_config in_wait rounds p' in
    if p'.control_shutdown then left p' else rest

thread_stop-pass :
    (load_config meanwhile : Process → Process) (rotate_ms : ℕ) (mono now : Timespec) (p : Process)
    → control_pass load_config meanwhile rotate_ms mono now posted (thread_stop p)
      ≡ stopped (record p { control_shutdown = true })
unfolding control_pass woken thread_stop
thread_stop-pass load_config meanwhile rotate_ms mono now p =
    let some_post : (p.control_sem + 1 == 0) ≡ false = ground arith in
    let sem_taken : p.control_sem + 1 - 1 ≡ p.control_sem = omega arith in
    rw (some_post, sem_taken) refl

-- A pass that ends the loop: it stops, or goes on to the test of the shutdown.
abbrev Ends : Pass → Type 0
Ends (stopped p) = p.control_shutdown ≡ true
Ends (continued p _) = p.control_shutdown ≡ true
Ends (waiting p) = ⊥
Ends (paused _ _ _ p) = ⊥

continue_pause-Ends :
    (now : Timespec) (reason : ℕ) (effects : List Effect) (ref : ConfigRef) (s : Process)
    → Ends (continue_pause now reason effects ref (thread_stop s))
unfolding continue_pause thread_stop
continue_pause-Ends now reason effects ref s =
    let some_post : (s.control_sem + 1 == 0) ≡ false = ground arith in
    let (q, es, e, w) = after_pause-ContinuesAs now reason effects ref (resume (thread_stop s)) in
    rw some_post (subst (λ (o : Pass). Ends o) (sym e) w.shutdown)

pass_of-Ends :
    (load_config : Process → Process) (r : Round) (b : Blocked) (s : Process)
    → r.result ≡ posted
    → Ends (pass_of load_config r b (thread_stop s))
unfolding pass_of
pass_of-Ends load_config r in_wait s h =
    rw (h, thread_stop-pass load_config r.during_pause r.rotate_ms r.mono r.now s) refl
pass_of-Ends load_config r (in_pause reason effects ref) s h =
    continue_pause-Ends r.now reason effects ref s

-- Wherever the thread is blocked, in the wait of its loop or in a pause without limit, and whatever
-- has happened to the process by then: if pinsight_control_thread_stop is the last thing to run
-- before the wait returns with its post, the thread leaves the loop in that round, with the shutdown
-- set, whatever rounds would follow. In a pause the action is applied before.
pub control_loop-thread_stop :
    (load_config : Process → Process) (b : Blocked) (r : Round) (rs : List Round) (p s : Process)
    → r.result ≡ posted
    → r.until_wake p ≡ thread_stop s
    → (q : Process) × (control_loop load_config b (r ∷ rs) p ≡ left q) × (q.control_shutdown ≡ true)
unfolding control_loop
control_loop-thread_stop load_config b r rs p s e u =
    go (pass_of load_config r b (r.until_wake p)) (
      subst (λ (t : Process). Ends (pass_of load_config r b t)) (sym u)
        (pass_of-Ends load_config r b s e))
  where
    go :
        (o : Pass)
        → Ends o
        → (q : Process) × ((elim o [
          | continued p' _ ↦
              let rest = control_loop load_config in_wait rs p' in
              if p'.control_shutdown then left p' else rest
          | stopped p' ↦ left p'
          | waiting p' ↦ control_loop load_config in_wait rs p'
          | paused reason effects ref p' ↦
              control_loop load_config (in_pause reason effects ref) rs p'
        ])
            ≡ left q)
          × (q.control_shutdown ≡ true)
    go (stopped q) h = (q, refl, h)
    go (continued q _) h = (q, rw h refl, h)
    go (waiting q) h = absurd h
    go (paused _ _ _ q) h = absurd h
