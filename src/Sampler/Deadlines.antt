-- ===== src/Sampler/Deadlines.antt =====
-- The deadline of a probe behind a call lies in the future, and no period is lost from the count.
use native.Mathlib.Nat.{mod-lt, div-add-mod', add-mul}
use pinsight.Common.{
  ℕ, ◌+◌, ◌-◌, ◌*◌, ◌/◌, ◌%◌, ◌≤◌, ◌<◌, Bool, true, false, ◌≡◌, ap, ◌∙◌, arith, inl, inr,
  Bool-cases, ltb, leb, if◌then◌else◌,
}
use pinsight.Common.Int.{pos, ltb_ℤ, neg_part, sub_ℕ}
use pinsight.Control.{Timespec}
use pinsight.Control.Timers.Deadline.{nanoseconds}
use pinsight.Sampler.{Probe, u64, ts_add_us, ts_diff_ns, missed, advance}

-- A time with less than a second of nanoseconds.
abbrev pub IsNormal : Timespec → Type 0
IsNormal t = t.tv_nsec < 1000000000

nanoseconds-ts_add_us :
    (t : Timespec) (us : ℕ)
    → IsNormal t
    → (nanoseconds (ts_add_us t us) ≡ nanoseconds t + us * 1000) × IsNormal (ts_add_us t us)
nanoseconds-ts_add_us t us h = (ground (arith, h), ground (arith, h))

sign : (x y : ℕ) → ltb_ℤ (pos 0) (sub_ℕ x y) ≡ ltb y x
sign x y = elim (Bool-cases (leb y x)) [
  | inl p ↦ rw p (ground (arith, p))
  | inr p ↦ rw p (ground (arith, p))
]

future : (a b : Timespec) → nanoseconds b < nanoseconds a → ltb_ℤ (pos 0) (ts_diff_ns a b) ≡ true
future a b l =
    let e : ltb (nanoseconds b) (nanoseconds a) ≡ true = ground (arith, l) in
    sign (nanoseconds a) (nanoseconds b) ∙ e

past : (a b : Timespec) → nanoseconds a ≤ nanoseconds b → ltb_ℤ (pos 0) (ts_diff_ns a b) ≡ false
past a b l =
    let e : ltb (nanoseconds b) (nanoseconds a) ≡ false = ground (arith, l) in
    sign (nanoseconds a) (nanoseconds b) ∙ e

magnitude : (x y : ℕ) → x ≤ y → neg_part (sub_ℕ x y) ≡ y - x
magnitude x y h = elim (Bool-cases (leb y x)) [
  | inl p ↦ rw p (ground (arith, p, h))
  | inr p ↦ rw p (ground (arith, p, h))
]

in_period : (b i : ℕ) → 0 < i → (b / i * i ≤ b) × (b < (b / i + 1) * i)
in_period b i h =
    let whole : b / i * i + b % i ≡ b = div-add-mod' b i in
    let rest : b % i < i = mod-lt b h in
    (omega (arith, whole), rw (add-mul (b / i) 1 i) (omega (arith, whole, rest)))

-- The periods since a deadline that has passed.
missed_late :
    (interval : ℕ) (next now : Timespec)
    → nanoseconds next ≤ nanoseconds now
    → missed interval next now ≡ (nanoseconds now - nanoseconds next) / (interval * 1000) + 1
unfolding missed
missed_late interval next now l =
    ap (λ (k : ℕ). k / (interval * 1000) + 1) (magnitude (nanoseconds next) (nanoseconds now) l)

advance_on_time :
    (interval : ℕ) (now : Timespec) (p : Probe)
    → nanoseconds now < nanoseconds (ts_add_us p.next_deadline interval)
    → advance interval now p ≡ record p { next_deadline = ts_add_us p.next_deadline interval }
unfolding advance
advance_on_time interval now p l =
    let next : Timespec = ts_add_us p.next_deadline interval in
    ap
      (λ (b : Bool). if b then record p { next_deadline = next } else record p {
        missed_ticks = u64 (p.missed_ticks + missed interval next now);
        next_deadline = ts_add_us now interval;
      })
      (future next now l)

advance_late :
    (interval : ℕ) (now : Timespec) (p : Probe)
    → nanoseconds (ts_add_us p.next_deadline interval) ≤ nanoseconds now
    → advance interval now p ≡ record p {
      missed_ticks =
          u64 (p.missed_ticks + missed interval (ts_add_us p.next_deadline interval) now);
      next_deadline = ts_add_us now interval;
    }
unfolding advance
advance_late interval now p l =
    let next : Timespec = ts_add_us p.next_deadline interval in
    ap
      (λ (b : Bool). if b then record p { next_deadline = next } else record p {
        missed_ticks = u64 (p.missed_ticks + missed interval next now);
        next_deadline = ts_add_us now interval;
      })
      (past next now l)

-- Behind a call that was due, the deadline of a probe is a valid time in the future, at most one
-- interval away, if the interval is not 0 and the times are valid.
pub advance-deadline :
    (interval : ℕ) (now : Timespec) (p : Probe)
    → 0 < interval
    → IsNormal now
    → IsNormal p.next_deadline
    → nanoseconds p.next_deadline ≤ nanoseconds now
    → let q = advance interval now p in
      IsNormal q.next_deadline
      × (nanoseconds now < nanoseconds q.next_deadline)
      × (nanoseconds q.next_deadline ≤ nanoseconds now + interval * 1000)
advance-deadline interval now p h n d l =
    let next : Timespec = ts_add_us p.next_deadline interval in
    let a = nanoseconds-ts_add_us p.next_deadline interval d in
    let b = nanoseconds-ts_add_us now interval n in
    elim (Bool-cases (ltb (nanoseconds now) (nanoseconds next))) [
      | inl s ↦
          let f : nanoseconds now < nanoseconds next = ground (arith, s) in
          rw (advance_on_time interval now p f) (a.1, f, omega (arith, a.0, l))
      | inr s ↦
          let f : nanoseconds next ≤ nanoseconds now = ground (arith, s) in
          rw (advance_late interval now p f) (b.1, omega (arith, b.0, h), omega (arith, b.0))
    ]

-- The missed ticks of a late deadline: after that many periods it is in the future, and not
-- earlier.
missed-periods :
    (interval : ℕ) (next now : Timespec)
    → 0 < interval
    → nanoseconds next ≤ nanoseconds now
    → (nanoseconds now < nanoseconds next + missed interval next now * (interval * 1000))
      × (nanoseconds next + (missed interval next now - 1) * (interval * 1000) ≤ nanoseconds now)
missed-periods interval next now h l =
    let late : ℕ = nanoseconds now - nanoseconds next in
    let w = in_period late (interval * 1000) (omega (arith, h)) in
    let before : late / (interval * 1000) + 1 - 1 ≡ late / (interval * 1000) = omega arith in
    rw (missed_late interval next now l, before) (omega (arith, w.1, l), omega (arith, w.0, l))
