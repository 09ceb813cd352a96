-- ===== src/Control/Fire/Policy.antt =====
-- The count policies `first` and `all`.
use pinsight.Common.{
  subst, sym, get_elem?-modify_self, Option-cases, ℕ, zero, suc, ◌+◌, ◌≤◌, ◌<◌, Bool, true, false,
  not, ◌&&◌, ◌||◌, Option, none, some, List, [], ◌∷◌, get_elem?, ltb, leb, ◌==◌, if◌then◌else◌, ◌≡◌,
  ◌≢◌, refl, arith, inl, inr, ◌⊎◌, ◌↔◌, Bool-cases,
}
use pinsight.Config.Mode.{WindowEndTrigger, trigger_first, trigger_all, trigger_anchor}
use pinsight.Config.Rules.{LexgionTraceConfig, ConfigRef, ConfigTable}
use pinsight.Lexgion.{Lexgion, ThreadData, u32_max}
use pinsight.Lexgion.Resolve.{config_at}
use pinsight.Lexgion.{u32}
use pinsight.Lexgion.Rate.{count_trace, is_capped}
use pinsight.Control.{Process}
use pinsight.Control.Fire.{
  all_capped, all_seen_lexgions_capped, is_all, may_fire, trigger_window, fire_window_end,
  post_trace_update,
}

-- The finite cap of a region, if it has one.
abbrev pub cap_of : (ConfigRef → LexgionTraceConfig) → Lexgion → Option ℕ
cap_of config lg = elim lg.trace_config [
  | none ↦ none
  | some r ↦ if (config r).max_num_traces == u32_max then none else some (config r).max_num_traces
]

-- Of the first n lexgions, those with a finite cap have reached it.
abbrev pub AllCapped : (ConfigRef → LexgionTraceConfig) → ℕ → List Lexgion → Type 0
AllCapped config n lexgions =
    (i : ℕ) (lg : Lexgion) (limit : ℕ)
    → i < n
    → get_elem? lexgions i ≡ some lg
    → cap_of config lg ≡ some limit
    → limit ≤ lg.trace_counter

-- One of them has a finite cap.
abbrev pub SeenGate : (ConfigRef → LexgionTraceConfig) → ℕ → List Lexgion → Type 0
SeenGate config n lexgions =
    (i : ℕ) × (lg : Lexgion) × (limit : ℕ) × (i < n)
    × (get_elem? lexgions i ≡ some lg)
    × (cap_of config lg ≡ some limit)

all_capped-cons :
    (config : ConfigRef → LexgionTraceConfig) (n : ℕ) (lg : Lexgion) (lgs : List Lexgion)
    (seen : Bool)
    → all_capped config (suc n) (lg ∷ lgs) seen ≡ (elim (cap_of config lg) [
      | none ↦ all_capped config n lgs seen
      | some limit ↦ if ltb lg.trace_counter limit then false else all_capped config n lgs true
    ])
unfolding all_capped
all_capped-cons config n lg lgs seen = ground arith

some_eq : (a b : Lexgion) → some a ≡ some b → a ≡ b
some_eq a b h = cc

module _ (config : ConfigRef → LexgionTraceConfig) where
  tail-AllCapped :
      (n : ℕ) (lg : Lexgion) (lgs : List Lexgion)
      → AllCapped config (suc n) (lg ∷ lgs)
      → AllCapped config n lgs
  tail-AllCapped n lg lgs h i x limit hi hx hc = h (suc i) x limit (omega arith) hx hc

  cons-AllCapped :
      (n : ℕ) (lg : Lexgion) (lgs : List Lexgion)
      → ((limit : ℕ) → cap_of config lg ≡ some limit → limit ≤ lg.trace_counter)
      → AllCapped config n lgs
      → AllCapped config (suc n) (lg ∷ lgs)
  cons-AllCapped n lg lgs k h zero x limit hi hx hc =
      let e = some_eq lg x hx in
      subst (λ y. limit ≤ y.trace_counter) e
        (k limit (subst (λ y. cap_of config y ≡ some limit) (sym e) hc))
  cons-AllCapped n lg lgs k h (suc i) x limit hi hx hc = h i x limit (omega arith) hx hc

  shift :
      (n : ℕ) (lg : Lexgion) (lgs : List Lexgion) (seen : Bool)
      → (seen ≡ true) ⊎ SeenGate config n lgs
      → (seen ≡ true) ⊎ SeenGate config (suc n) (lg ∷ lgs)
  shift n lg lgs seen (inl h) = inl h
  shift n lg lgs seen (inr (i, x, limit, hi, hx, hc)) = inr (suc i, x, limit, omega arith, hx, hc)

  unshift :
      (n : ℕ) (lg : Lexgion) (lgs : List Lexgion) (seen : Bool)
      → cap_of config lg ≡ none
      → (seen ≡ true) ⊎ SeenGate config (suc n) (lg ∷ lgs)
      → (seen ≡ true) ⊎ SeenGate config n lgs
  unshift n lg lgs seen e (inl h) = inl h
  unshift n lg lgs seen e (inr (zero, x, limit, hi, hx, hc)) = cc
  unshift n lg lgs seen e (inr (suc i, x, limit, hi, hx, hc)) =
      inr (i, x, limit, omega arith, hx, hc)

  all_capped_sound :
      (n : ℕ) (lgs : List Lexgion) (seen : Bool)
      → all_capped config n lgs seen ≡ true
      → AllCapped config n lgs × ((seen ≡ true) ⊎ SeenGate config n lgs)
  unfolding all_capped
  all_capped_sound zero lgs seen h = ((λ i lg limit hi hx hc. absurd (omega arith)), inl h)
  all_capped_sound (suc n) [] seen h = ((λ i lg limit hi hx hc. cc), inl h)
  all_capped_sound (suc n) (lg ∷ lgs) seen h = elim (Option-cases (cap_of config lg)) [
    | inl e ↦
        let (a, b) = all_capped_sound n lgs seen (ground arith) in
        (cons-AllCapped n lg lgs (λ limit k. cc) a, shift n lg lgs seen b)
    | inr (limit, e) ↦
        let (a, b) = all_capped_sound n lgs true (ground arith) in
        (
          cons-AllCapped n lg lgs (λ other k. ground arith) a,
          inr (0, lg, limit, omega arith, refl, e),
        )
  ]

  all_capped_complete :
      (n : ℕ) (lgs : List Lexgion) (seen : Bool)
      → AllCapped config n lgs
      → (seen ≡ true) ⊎ SeenGate config n lgs
      → all_capped config n lgs seen ≡ true
  unfolding all_capped
  all_capped_complete zero lgs seen h (inl g) = g
  all_capped_complete zero lgs seen h (inr (i, lg, limit, hi, _, _)) = absurd (omega arith)
  all_capped_complete (suc n) [] seen h (inl g) = g
  all_capped_complete (suc n) [] seen h (inr (i, lg, limit, hi, hx, _)) = cc
  all_capped_complete (suc n) (lg ∷ lgs) seen h g = elim (Option-cases (cap_of config lg)) [
    | inl e ↦
        rw (all_capped-cons config n lg lgs seen, e)
          (all_capped_complete n lgs seen (tail-AllCapped n lg lgs h) (unshift n lg lgs seen e g))
    | inr (limit, e) ↦
        rw (all_capped-cons config n lg lgs seen, e)
          (ground (
            arith,
            h 0 lg limit (omega arith) refl e,
            all_capped_complete n lgs true (tail-AllCapped n lg lgs h) (inl refl),
          ))
  ]

-- pinsight_all_seen_lexgions_capped answers 1 exactly if the thread has met a region with a finite
-- cap and all those it has met have reached theirs.
pub all_seen_lexgions_capped_iff :
    (table : ConfigTable) (td : ThreadData)
    → (all_seen_lexgions_capped table td ≡ true) ↔ (
        AllCapped (config_at table) td.num_lexgions td.lexgions
        × SeenGate (config_at table) td.num_lexgions td.lexgions)
unfolding all_seen_lexgions_capped
all_seen_lexgions_capped_iff table td = (
  (λ h.
      let (a, b) = all_capped_sound (config_at table) td.num_lexgions td.lexgions false h in
      (a, elim b [ inl e ↦ cc | inr s ↦ s ])),
  (λ h. all_capped_complete (config_at table) td.num_lexgions td.lexgions false h.0 (inr h.1)),
)

post_trace_update_lem :
    (index : ℕ) (td : ThreadData) (p : Process) (lg : Lexgion) (r : ConfigRef)
    → get_elem? td.lexgions index ≡ some lg
    → lg.trace_config ≡ some r
    → (config_at p.table r).max_num_traces ≢ u32_max
    → let c = config_at p.table r in
      let after = post_trace_update index td p in
      after.1 ≡ (
        if leb c.max_num_traces (u32 (lg.trace_counter + 1))
          && (not (is_all c.end_action.trigger) || all_seen_lexgions_capped p.table after.0)
        then fire_window_end r p
        else p)
unfolding post_trace_update trigger_window is_capped may_fire count_trace
post_trace_update_lem index td p lg r hl hr hm =
    ground (arith, get_elem?-modify_self td.lexgions index count_trace lg hl)

-- The window of a configuration is over: the cap is reached with this count of traces and, under
-- the policy `all`, the thread has met a region with a finite cap and all those it has met have
-- reached theirs.
abbrev pub IsOver : ConfigTable → LexgionTraceConfig → ℕ → ThreadData → Type 0
IsOver table c count td =
    (c.max_num_traces ≤ count)
    × ((c.end_action.trigger ≢ trigger_all)
        ⊎ (AllCapped (config_at table) td.num_lexgions td.lexgions
            × SeenGate (config_at table) td.num_lexgions td.lexgions))

not_all : (t : WindowEndTrigger) → t ≢ trigger_all → is_all t ≡ false
not_all trigger_first h = refl
not_all trigger_all h = absurd (h refl)
not_all trigger_anchor h = refl

is_all-not : (t : WindowEndTrigger) → is_all t ≡ false → t ≢ trigger_all
is_all-not trigger_first h e = cc
is_all-not trigger_all h e = cc
is_all-not trigger_anchor h e = cc

may_end : ConfigTable → LexgionTraceConfig → ℕ → ThreadData → Bool
may_end table c count td =
    leb c.max_num_traces count
    && (not (is_all c.end_action.trigger) || all_seen_lexgions_capped table td)

may_end_iff :
    (table : ConfigTable) (c : LexgionTraceConfig) (count : ℕ) (td : ThreadData)
    → (may_end table c count td ≡ true) ↔ IsOver table c count td
unfolding may_end
may_end_iff table c count td =
    let seen = all_seen_lexgions_capped_iff table td in
    (
      (λ h. (
        ground (arith, h),
        elim (Bool-cases (is_all c.end_action.trigger)) [
          | inl a ↦ inr (seen.0 (ground (arith, h, a)))
          | inr a ↦ inl (is_all-not c.end_action.trigger a)
        ],
      )),
      (λ h. elim h.1 [
        | inl a ↦ ground (arith, h.0, not_all c.end_action.trigger a)
        | inr a ↦ ground (arith, h.0, seen.1 a)
      ]),
    )

-- What lexgion_post_trace_update does to the process, for a lexgion in the table whose
-- configuration is `r` with a finite cap. With the count of traces that the lexgion then has, the
-- window of `r` ends if its cap is reached and, under the policy `all`, every region with a
-- finite cap that the thread has met has reached its own, one of them at least; in every other
-- case the process is left alone.
pub post_trace_update-window :
    (index : ℕ) (td : ThreadData) (p : Process) (lg : Lexgion) (r : ConfigRef)
    → get_elem? td.lexgions index ≡ some lg
    → lg.trace_config ≡ some r
    → (config_at p.table r).max_num_traces ≢ u32_max
    → let c = config_at p.table r in
      let after = post_trace_update index td p in
      let count = u32 (lg.trace_counter + 1) in
      (IsOver p.table c count after.0 → after.1 ≡ fire_window_end r p)
      × (¬ IsOver p.table c count after.0 → after.1 ≡ p)
unfolding may_end
post_trace_update-window index td p lg r hl hr hm =
    let c = config_at p.table r in
    let after = post_trace_update index td p in
    let count = u32 (lg.trace_counter + 1) in
    let both = may_end_iff p.table c count after.0 in
    let e = post_trace_update_lem index td p lg r hl hr hm in
    (
      (λ h. rw e (ground (arith, both.1 h))),
      (λ h. elim (Bool-cases (may_end p.table c count after.0)) [
        | inl y ↦ absurd (h (both.0 y))
        | inr n ↦ rw e (ground (arith, n))
      ]),
    )
