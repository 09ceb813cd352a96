-- ===== src/Lexgion/Rate/Period.antt =====
-- The executions of one lexgion under one configuration: which of them the rate triple traces.
use pinsight.Common.{
  ℕ, zero, suc, ◌+◌, ◌≤◌, ◌<◌, Bool, true, ◌&&◌, ltb, leb, ◌==◌, if◌then◌else◌, ◌≡◌, refl, sym,
  subst, arith, ◌⊎◌, ◌↔◌, inl, inr, ◌^◌,
}
use pinsight.Config.Rules.{LexgionTraceConfig}
use pinsight.Lexgion.{Lexgion, u32_max}
use pinsight.Lexgion.Table.{executed}
use pinsight.Lexgion.Rate.{refresh_window, rate_bit, set_rate_trace_bit, count_trace}

-- One execution: lexgion_begin, lexgion_set_rate_trace_bit, and lexgion_post_trace_update if it
-- is traced.
unfoldable pub execute : LexgionTraceConfig → Lexgion → Lexgion
unfolding executed set_rate_trace_bit count_trace
execute c lg =
    let lg' = set_rate_trace_bit c (executed lg) in if lg'.trace_bit then count_trace lg' else lg'

unfoldable pub run : LexgionTraceConfig → ℕ → Lexgion → Lexgion
unfolding execute
run c zero lg = lg
run c (suc n) lg = execute c (run c n lg)

-- A rate of 0 traces as one of 1 does.
abbrev pub step : LexgionTraceConfig → ℕ
step c = if c.tracing_rate == 0 then 1 else c.tracing_rate

-- How many executions there are when trace q (from 0) has happened: the first trace waits for
-- trace_starts_at executions, and for the rate; the others follow at the rate.
abbrev pub mark : LexgionTraceConfig → ℕ → ℕ
mark c zero = if ltb c.trace_starts_at (step c) then step c else c.trace_starts_at + 1
mark c (suc q) = mark c q + step c

-- The execution of the latest of q traces.
abbrev pub last_mark : LexgionTraceConfig → ℕ → ℕ
last_mark c zero = 0
last_mark c (suc q) = mark c q

-- What holds after n executions: q traces, the last of them at mark q - 1.
record InPeriod (c : LexgionTraceConfig) (n q : ℕ) (lg : Lexgion) : Type 0 where
  counted : lg.counter ≡ n
  traced : lg.trace_counter ≡ q
  bounded : q ≤ n
  fresh_or_current :
      (q ≡ 0) ⊎ ((c.max_num_traces ≡ u32_max) ⊎ (lg.introspect_gen ≡ c.end_action.generation))
  capped : (q ≡ 0) ⊎ (q ≤ c.max_num_traces)
  since : last_mark c q + lg.num_exes_after_last_trace ≡ n
  waiting : (q < c.max_num_traces) → n < mark c q

abbrev is_due : LexgionTraceConfig → ℕ → ℕ → ℕ → Bool
is_due c n q since =
    leb c.trace_starts_at n && ltb q c.max_num_traces && leb c.tracing_rate (suc since)

abbrev IsCurrent : LexgionTraceConfig → Lexgion → Type 0
IsCurrent c lg = (c.max_num_traces ≡ u32_max) ⊎ (lg.introspect_gen ≡ c.end_action.generation)

execute-lem :
    (c : LexgionTraceConfig) (lg : Lexgion) (n q since : ℕ)
    → lg.counter ≡ n
    → lg.trace_counter ≡ q
    → lg.num_exes_after_last_trace ≡ since
    → suc n < 2 ^ 32
    → q ≤ n
    → since ≤ n
    → c.max_num_traces ≤ u32_max
    → (q ≡ 0) ⊎ IsCurrent c lg
    → ((execute c lg).counter ≡ suc n)
      × ((execute c lg).trace_counter ≡ (if is_due c n q since then suc q else q))
      × ((execute c lg).num_exes_after_last_trace ≡ (if is_due c n q since then 0 else suc since))
      × IsCurrent c (execute c lg)
      × ((execute c lg).trace_bit ≡ is_due c n q since)
unfolding execute executed set_rate_trace_bit refresh_window rate_bit count_trace
execute-lem c lg n q since hn hq hs bn bq bs bm hc = ground arith

mark-start : (c : LexgionTraceConfig) (q : ℕ) → (c.trace_starts_at < mark c q) × (step c ≤ mark c q)
mark-start c zero = ground arith
mark-start c (suc q) = ground (arith, mark-start c q)

since-lem :
    (c : LexgionTraceConfig) (n q since : ℕ) (lg : Lexgion)
    → last_mark c q + since ≡ n
    → (q < c.max_num_traces → n < mark c q)
    → lg.num_exes_after_last_trace ≡ (if is_due c n q since then 0 else suc since)
    → lg.trace_bit ≡ is_due c n q since
    → last_mark c (if lg.trace_bit then suc q else q) + lg.num_exes_after_last_trace ≡ suc n
since-lem c n zero since lg h w d g = ground (arith, mark-start c 0)
since-lem c n (suc p) since lg h w d g = ground (arith, mark-start c p)

waiting-lem :
    (c : LexgionTraceConfig) (n q since : ℕ) (lg : Lexgion)
    → last_mark c q + since ≡ n
    → (q < c.max_num_traces → n < mark c q)
    → lg.trace_bit ≡ is_due c n q since
    → (if lg.trace_bit then suc q else q) < c.max_num_traces
    → suc n < mark c (if lg.trace_bit then suc q else q)
waiting-lem c n zero since lg h w g = ground (arith, mark-start c 0)
waiting-lem c n (suc p) since lg h w g = ground (arith, mark-start c p)

execute-InPeriod :
    (c : LexgionTraceConfig) (n q : ℕ) (lg : Lexgion)
    → suc n < 2 ^ 32
    → c.max_num_traces ≤ u32_max
    → InPeriod c n q lg
    → InPeriod c (suc n) (if (execute c lg).trace_bit then suc q else q) (execute c lg)
execute-InPeriod c n q lg bn bm h =
    let (a, b, d, f, g) =
      execute-lem c lg n q lg.num_exes_after_last_trace h.counted h.traced refl bn h.bounded
        (omega (arith, h.since)) bm h.fresh_or_current in
    record {
      counted = a;
      traced = ground arith;
      bounded = ground (arith, h.bounded);
      fresh_or_current = inr f;
      capped = ground (arith, h.capped);
      since = since-lem c n q lg.num_exes_after_last_trace (execute c lg) h.since h.waiting d g;
      waiting = waiting-lem c n q lg.num_exes_after_last_trace (execute c lg) h.since h.waiting g;
    }

due-lem :
    (c : LexgionTraceConfig) (n q since : ℕ) (b : Bool)
    → last_mark c q + since ≡ n
    → (q < c.max_num_traces → n < mark c q)
    → b ≡ is_due c n q since
    → (b ≡ true) ↔ ((q < c.max_num_traces) × (suc n ≡ mark c q))
due-lem c n zero since b h w g =
    (λ e. ground (arith, mark-start c 0), λ e. ground (arith, mark-start c 0))
due-lem c n (suc p) since b h w g =
    (λ e. ground (arith, mark-start c p), λ e. ground (arith, mark-start c p))

pub record IsNew (lg : Lexgion) : Type 0 where
  pub counter : lg.counter ≡ 0
  pub trace_counter : lg.trace_counter ≡ 0
  pub num_exes_after_last_trace : lg.num_exes_after_last_trace ≡ 0

run-InPeriod :
    (c : LexgionTraceConfig) (n : ℕ) (lg : Lexgion)
    → n < 2 ^ 32
    → c.max_num_traces ≤ u32_max
    → IsNew lg
    → (q : ℕ) × InPeriod c n q (run c n lg)
unfolding run
run-InPeriod c zero lg bn bm h = (
  0,
  record {
    counted = h.counter;
    traced = h.trace_counter;
    bounded = omega arith;
    fresh_or_current = inl refl;
    capped = inl refl;
    since = omega (arith, h.num_exes_after_last_trace);
    waiting = λ _. ground arith;
  },
)
run-InPeriod c (suc n) lg bn bm h =
    let (q, p) = run-InPeriod c n lg (omega arith) bm h in
    (_, execute-InPeriod c n q (run c n lg) bn bm p)

run-InPeriod_at :
    (c : LexgionTraceConfig) (n : ℕ) (lg : Lexgion)
    → n < 2 ^ 32
    → c.max_num_traces ≤ u32_max
    → IsNew lg
    → InPeriod c n (run c n lg).trace_counter (run c n lg)
run-InPeriod_at c n lg bn bm h =
    let (q, p) = run-InPeriod c n lg bn bm h in
    subst (λ x. InPeriod c n x (run c n lg)) (sym p.traced) p

-- The schedule of the traces of a lexgion that is new to the table. Let q be the trace counter
-- after n executions under configuration c, without wrap-around of the counters. Then q is at
-- most max_num_traces and the latest trace was at execution `last_mark c q`, which is
-- num_exes_after_last_trace executions ago; and unless q is max_num_traces, the execution of the
-- next trace, `mark c q`, has not been reached: none was missed.
pub run-schedule :
    (c : LexgionTraceConfig) (n : ℕ) (lg : Lexgion)
    → n < 2 ^ 32
    → c.max_num_traces ≤ u32_max
    → IsNew lg
    → let after = run c n lg in
      (after.trace_counter ≤ c.max_num_traces)
      × (last_mark c after.trace_counter + after.num_exes_after_last_trace ≡ n)
      × (after.trace_counter < c.max_num_traces → n < mark c after.trace_counter)
run-schedule c n lg bn bm h =
    let p = run-InPeriod_at c n lg bn bm h in (ground (arith, p.capped), p.since, p.waiting)

-- Execution n + 1 of a lexgion that is new to the table is traced exactly if fewer than
-- max_num_traces executions were, and it is the one at which the next trace is due.
pub run-trace_bit :
    (c : LexgionTraceConfig) (n : ℕ) (lg : Lexgion)
    → suc n < 2 ^ 32
    → c.max_num_traces ≤ u32_max
    → IsNew lg
    → let q = (run c n lg).trace_counter in
      ((run c (suc n) lg).trace_bit ≡ true) ↔ ((q < c.max_num_traces) × (suc n ≡ mark c q))
unfolding run
run-trace_bit c n lg bn bm h =
    let p = run-InPeriod_at c n lg (omega arith) bm h in
    let (_, _, _, _, g) =
      execute-lem c (run c n lg) n _ (run c n lg).num_exes_after_last_trace p.counted refl refl bn
        p.bounded (omega (arith, p.since)) bm p.fresh_or_current in
    due-lem c n _ _ _ p.since p.waiting g
