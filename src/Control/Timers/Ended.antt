-- ===== src/Control/Timers/Ended.antt =====
-- A window that a count has ended is not ended again by its timer.
use pinsight.Common.{
  ℕ, zero, suc, ◌<◌, Bool, true, false, some, List, [], ◌∷◌, get_elem?, ◌==◌, ◌≡◌, ◌≢◌, refl, arith,
  inl, inr, ◌⊎◌, ◌↔◌, Bool-cases, subst,
}
use pinsight.Config.Mode.{TraceMode, rank}
use pinsight.Config.Domain.{DomainTraceConfig}
use pinsight.Config.Window.{WindowEndAction}
use pinsight.Control.{Process}
use pinsight.Control.Timers.{already_ended, window_already_ended}

-- Of the first n domains, those with a target mode have switched in this cycle.
abbrev pub AllSwitched : ℕ → List TraceMode → List DomainTraceConfig → Type 0
AllSwitched n modes ds =
    (i : ℕ) (m : TraceMode) (d : DomainTraceConfig)
    → i < n
    → get_elem? modes i ≡ some m
    → get_elem? ds i ≡ some d
    → rank m ≢ 0
    → d.mode_change_fired ≡ true

-- One of the first n domains has a target mode.
abbrev pub SomeTarget : ℕ → List TraceMode → List DomainTraceConfig → Type 0
SomeTarget n modes ds =
    (i : ℕ) × (m : TraceMode) × (d : DomainTraceConfig) × (i < n)
    × (get_elem? modes i ≡ some m)
    × (get_elem? ds i ≡ some d)
    × (rank m ≢ 0)

some_eq {ℓ} : {A : Type ℓ} (a b : A) → some a ≡ some b → a ≡ b
some_eq a b h = cc

cons-AllSwitched :
    (n : ℕ) (x : TraceMode) (y : DomainTraceConfig) (modes : List TraceMode)
    (ds : List DomainTraceConfig)
    → (rank x ≢ 0 → y.mode_change_fired ≡ true)
    → AllSwitched n modes ds
    → AllSwitched (suc n) (x ∷ modes) (y ∷ ds)
cons-AllSwitched n x y modes ds k h zero m d hi hm hd hr =
    subst (λ z. z.mode_change_fired ≡ true) (some_eq y d hd)
      (k (λ e. hr (subst (λ z. rank z ≡ 0) (some_eq x m hm) e)))
cons-AllSwitched n x y modes ds k h (suc i) m d hi hm hd hr = h i m d (omega arith) hm hd hr

shift :
    (n : ℕ) (x : TraceMode) (y : DomainTraceConfig) (modes : List TraceMode)
    (ds : List DomainTraceConfig)
    → SomeTarget n modes ds
    → SomeTarget (suc n) (x ∷ modes) (y ∷ ds)
shift n x y modes ds (i, m, d, hi, hm, hd, hr) = (suc i, m, d, omega arith, hm, hd, hr)

unshift :
    (n : ℕ) (x : TraceMode) (y : DomainTraceConfig) (modes : List TraceMode)
    (ds : List DomainTraceConfig)
    → rank x ≡ 0
    → SomeTarget (suc n) (x ∷ modes) (y ∷ ds)
    → SomeTarget n modes ds
unshift n x y modes ds e (zero, m, d, hi, hm, hd, hr) =
    absurd (hr (subst (λ z. rank z ≡ 0) (some_eq x m hm) e))
unshift n x y modes ds e (suc i, m, d, hi, hm, hd, hr) = (i, m, d, omega arith, hm, hd, hr)

tail-AllSwitched :
    (n : ℕ) (x : TraceMode) (y : DomainTraceConfig) (modes : List TraceMode)
    (ds : List DomainTraceConfig)
    → AllSwitched (suc n) (x ∷ modes) (y ∷ ds)
    → AllSwitched n modes ds
tail-AllSwitched n x y modes ds h i m d hi hm hd hr = h (suc i) m d (omega arith) hm hd hr

already_ended_sound :
    (n : ℕ) (modes : List TraceMode) (ds : List DomainTraceConfig) (seen : Bool)
    → already_ended n modes ds seen ≡ true
    → AllSwitched n modes ds × ((seen ≡ true) ⊎ SomeTarget n modes ds)
unfolding already_ended
already_ended_sound zero modes ds seen h = ((λ i m d hi _ _ _. absurd (omega arith)), inl h)
already_ended_sound (suc n) [] ds seen h = ((λ i m d _ hm _ _. cc), inl h)
already_ended_sound (suc n) (x ∷ modes) [] seen h = ((λ i m d _ _ hd _. cc), inl h)
already_ended_sound (suc n) (x ∷ modes) (y ∷ ds) seen h = elim (Bool-cases (rank x == 0)) [
  | inl e ↦
      let (a, b) = already_ended_sound n modes ds seen (ground arith) in
      (
        cons-AllSwitched n x y modes ds (λ k. ground arith) a,
        elim b [ inl c ↦ inl c | inr c ↦ inr (shift n x y modes ds c) ],
      )
  | inr e ↦
      let (a, b) = already_ended_sound n modes ds true (ground arith) in
      (
        cons-AllSwitched n x y modes ds (λ k. ground arith) a,
        inr (0, x, y, omega arith, refl, refl, (λ k. ground arith)),
      )
]

already_ended_complete :
    (n : ℕ) (modes : List TraceMode) (ds : List DomainTraceConfig) (seen : Bool)
    → AllSwitched n modes ds
    → (seen ≡ true) ⊎ SomeTarget n modes ds
    → already_ended n modes ds seen ≡ true
unfolding already_ended
already_ended_complete zero modes ds seen h (inl g) = g
already_ended_complete zero modes ds seen h (inr (i, m, d, hi, _, _, _)) = absurd (omega arith)
already_ended_complete (suc n) [] ds seen h (inl g) = g
already_ended_complete (suc n) [] ds seen h (inr (i, m, d, hi, hm, _, _)) = cc
already_ended_complete (suc n) (x ∷ modes) [] seen h (inl g) = g
already_ended_complete (suc n) (x ∷ modes) [] seen h (inr (i, m, d, hi, hm, hd, _)) = cc
already_ended_complete (suc n) (x ∷ modes) (y ∷ ds) seen h g = elim (Bool-cases (rank x == 0)) [
  | inl e ↦
      let rest =
        already_ended_complete n modes ds seen (tail-AllSwitched n x y modes ds h)
          (elim g [ inl c ↦ inl c | inr c ↦ inr (unshift n x y modes ds (ground arith) c) ]) in
      ground arith
  | inr e ↦
      let rest =
        already_ended_complete n modes ds true (tail-AllSwitched n x y modes ds h) (inl refl) in
      ground (arith, h 0 x y (omega arith) refl refl (λ k. ground arith))
]

-- window_already_ended answers 1 exactly if the action gives some domain a target mode, and every
-- domain that has one has switched in this cycle.
pub window_already_ended_iff :
    (ma : WindowEndAction) (p : Process)
    → (window_already_ended ma p ≡ true) ↔ (
        AllSwitched p.num_domain ma.mode p.domain_trace_config
        × SomeTarget p.num_domain ma.mode p.domain_trace_config)
unfolding window_already_ended
window_already_ended_iff ma p = (
  (λ h.
      let (a, b) = already_ended_sound p.num_domain ma.mode p.domain_trace_config false h in
      (a, elim b [ inl e ↦ cc | inr s ↦ s ])),
  (λ h. already_ended_complete p.num_domain ma.mode p.domain_trace_config false h.0 (inr h.1)),
)
