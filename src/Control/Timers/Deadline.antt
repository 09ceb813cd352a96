-- ===== src/Control/Timers/Deadline.antt =====
-- What the control thread waits for.
use native.Mathlib.Nat.{mod-lt, mod-add-mod, mod_self}
use pinsight.Common.{
  ℕ, ◌+◌, ◌-◌, ◌*◌, ◌%◌, ◌≤◌, ◌<◌, true, false, none, some, ◌≡◌, arith, ◌↔◌, subst, sym, Bool-cases,
  ltb, inl, inr,
}
use pinsight.Control.{Timespec, Process}
use pinsight.Control.Timers.{
  WakeKind, wake_rotate, wake_window, wake_manifest, milliseconds, ts_before, rotate_deadline,
  sooner, earliest,
}

-- The nanoseconds of a time since the epoch.
abbrev pub nanoseconds : Timespec → ℕ
nanoseconds t = t.tv_sec * 1000000000 + t.tv_nsec

-- ts_before compares times whose nanoseconds are below one second.
pub ts_before-lt :
    (a b : Timespec)
    → a.tv_nsec < 1000000000
    → b.tv_nsec < 1000000000
    → (ts_before a b ≡ true) ↔ (nanoseconds a < nanoseconds b)
unfolding ts_before
ts_before-lt a b ha hb = ground arith

at_boundary : (r m : ℕ) → m % r < r → (m + (r - m % r)) % r ≡ 0
at_boundary r m h = rw (← mod-add-mod m r (r - m % r)) (rw (full (m % r) r h) (mod_self r))
  where
    full : (a b : ℕ) → a < b → a + (b - a) ≡ b
    full a b h = omega arith

-- The deadline of a rotation: a time with a valid count of nanoseconds, more than 2 ms and at most
-- the period and 2 ms after `now`, at which CLOCK_MONOTONIC has passed a boundary of the period by
-- 2 ms.
pub rotate_deadline-boundary :
    (rotate_ms : ℕ) (mono now : Timespec)
    → 0 < rotate_ms
    → now.tv_nsec < 1000000000
    → let t = rotate_deadline rotate_ms mono now in
      let wait = rotate_ms - milliseconds mono % rotate_ms in
      (t.tv_nsec < 1000000000)
      × (nanoseconds t ≡ nanoseconds now + (wait + 2) * 1000000)
      × (0 < wait)
      × (wait ≤ rotate_ms)
      × ((milliseconds mono + wait) % rotate_ms ≡ 0)
unfolding rotate_deadline
rotate_deadline-boundary rotate_ms mono now hr hn =
    let b = mod-lt (milliseconds mono) hr in
    (
      ground arith,
      ground arith,
      ground arith,
      ground arith,
      at_boundary rotate_ms (milliseconds mono) b,
    )

-- A wait without a deadline happens exactly if no domain rotates and no timer is armed.
pub earliest-none :
    (rotate_ms : ℕ) (mono now : Timespec) (p : Process)
    → (earliest rotate_ms mono now p ≡ none)
      ↔ ((rotate_ms ≡ 0) × (p.window_timer_armed ≡ false) × (p.manifest_timer_armed ≡ false))
unfolding earliest sooner
earliest-none rotate_ms mono now p = ground arith

-- The deadline of this kind is armed, and is this time.
abbrev pub IsArmed : ℕ → Timespec → Timespec → Process → WakeKind → Timespec → Type 0
IsArmed rotate_ms mono now p wake_rotate t =
    (0 < rotate_ms) × (t ≡ rotate_deadline rotate_ms mono now)
IsArmed rotate_ms mono now p wake_window t = (p.window_timer_armed ≡ true) × (t ≡ p.window_deadline)
IsArmed rotate_ms mono now p wake_manifest t =
    (p.manifest_timer_armed ≡ true) × (t ≡ p.manifest_deadline)

earliest-IsArmed :
    (rotate_ms : ℕ) (mono now : Timespec) (p : Process) (kind : WakeKind) (t : Timespec)
    → earliest rotate_ms mono now p ≡ some (kind, t)
    → IsArmed rotate_ms mono now p kind t
unfolding earliest sooner
earliest-IsArmed rotate_ms mono now p wake_rotate t h = ground arith
earliest-IsArmed rotate_ms mono now p wake_window t h = ground arith
earliest-IsArmed rotate_ms mono now p wake_manifest t h = ground arith

earliest-before :
    (rotate_ms : ℕ) (mono now : Timespec) (p : Process) (kind : WakeKind) (t : Timespec)
    → earliest rotate_ms mono now p ≡ some (kind, t)
    → (k : WakeKind) (e : Timespec) → IsArmed rotate_ms mono now p k e
    → ts_before e t ≡ false
unfolding earliest sooner ts_before
earliest-before rotate_ms mono now p kind t h wake_rotate e a = ground arith
earliest-before rotate_ms mono now p kind t h wake_window e a = ground arith
earliest-before rotate_ms mono now p kind t h wake_manifest e a = ground arith

-- An armed deadline has less than a second of nanoseconds, if those of the timers have.
IsArmed-normal :
    (rotate_ms : ℕ) (mono now : Timespec) (p : Process) (kind : WakeKind) (t : Timespec)
    → now.tv_nsec < 1000000000
    → p.window_deadline.tv_nsec < 1000000000
    → p.manifest_deadline.tv_nsec < 1000000000
    → IsArmed rotate_ms mono now p kind t
    → t.tv_nsec < 1000000000
IsArmed-normal rotate_ms mono now p wake_rotate t n w m a =
    let r = rotate_deadline-boundary rotate_ms mono now a.0 n in
    subst (λ (s : Timespec). s.tv_nsec < 1000000000) (sym a.1) r.0
IsArmed-normal rotate_ms mono now p wake_window t n w m a =
    subst (λ (s : Timespec). s.tv_nsec < 1000000000) (sym a.1) w
IsArmed-normal rotate_ms mono now p wake_manifest t n w m a =
    subst (λ (s : Timespec). s.tv_nsec < 1000000000) (sym a.1) m

-- The deadline that is waited for is armed, and in nanoseconds none that is armed is earlier, where
-- the clock and the deadlines of the timers have less than a second of nanoseconds.
pub earliest-least :
    (rotate_ms : ℕ) (mono now : Timespec) (p : Process) (kind : WakeKind) (t : Timespec)
    → now.tv_nsec < 1000000000
    → p.window_deadline.tv_nsec < 1000000000
    → p.manifest_deadline.tv_nsec < 1000000000
    → earliest rotate_ms mono now p ≡ some (kind, t)
    → IsArmed rotate_ms mono now p kind t
      × ((k : WakeKind) (e : Timespec)
          → IsArmed rotate_ms mono now p k e
          → nanoseconds t ≤ nanoseconds e)
earliest-least rotate_ms mono now p kind t n w m h =
    let armed = earliest-IsArmed rotate_ms mono now p kind t h in
    (
      armed,
      λ k e a.
          let order =
            ts_before-lt e t (IsArmed-normal rotate_ms mono now p k e n w m a)
              (IsArmed-normal rotate_ms mono now p kind t n w m armed) in
          let not_before = earliest-before rotate_ms mono now p kind t h k e a in
          not_less (nanoseconds e) (nanoseconds t) (λ l. cc (order.1 l, not_before)),
    )
  where
    not_less : (a b : ℕ) → (a < b → ⊥) → b ≤ a
    not_less a b h = elim (Bool-cases (ltb a b)) [
      | inl p ↦ absurd (h (ground (arith, p)))
      | inr p ↦ ground (arith, p)
    ]
