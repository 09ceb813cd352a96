-- ===== src/Control/Fire/Modes.antt =====
-- The mode switches at the end of a window.
use pinsight.Common.{
  ℕ, zero, suc, ◌≤◌, ◌<◌, true, false, ◌||◌, some, List, [], ◌∷◌, get_elem?, ◌==◌, if◌then◌else◌,
  ◌≡◌, refl, arith, Bool-cases, inl, inr,
}
use pinsight.Config.Mode.{TraceMode, rank}
use pinsight.Config.Domain.{DomainTraceConfig}
use pinsight.Config.Rules.{ConfigRef}
use pinsight.Control.{Process, end_action_at, wakeup, max_num_domains}
use pinsight.Control.Fire.{switch_mode, switch_modes, end_window, fire_window_end}

switch_mode-again :
    (m : TraceMode) (d : DomainTraceConfig) → switch_mode m (switch_mode m d) ≡ switch_mode m d
unfolding switch_mode
switch_mode-again m d = ground arith

-- Switching the modes of the first n domains, after the switch of the first n' where n ≤ n',
-- changes nothing.
pub switch_modes-again :
    (n n' : ℕ) (modes : List TraceMode) (ds : List DomainTraceConfig)
    → n ≤ n'
    → switch_modes n modes (switch_modes n' modes ds) ≡ switch_modes n' modes ds
unfolding switch_modes
switch_modes-again zero n' modes ds h = refl
switch_modes-again (suc n) zero modes ds h = absurd (omega arith)
switch_modes-again (suc n) (suc n') modes [] h = refl
switch_modes-again (suc n) (suc n') [] (d ∷ ds) h = refl
switch_modes-again (suc n) (suc n') (m ∷ modes) (d ∷ ds) h =
    rw (switch_mode-again m d, switch_modes-again n n' modes ds (omega arith)) refl

get_elem?-switch_modes :
    (n i : ℕ) (modes : List TraceMode) (ds : List DomainTraceConfig) (m : TraceMode)
    (d : DomainTraceConfig)
    → i < n
    → get_elem? modes i ≡ some m
    → get_elem? ds i ≡ some d
    → get_elem? (switch_modes n modes ds) i ≡ some (switch_mode m d)
unfolding switch_modes
get_elem?-switch_modes zero i modes ds m d h hm hd = absurd (omega arith)
get_elem?-switch_modes (suc n) i modes [] m d h hm hd = cc
get_elem?-switch_modes (suc n) i [] (x ∷ ds) m d h hm hd = cc
get_elem?-switch_modes (suc n) zero (y ∷ modes) (x ∷ ds) m d h hm hd = ground arith
get_elem?-switch_modes (suc n) (suc i) (y ∷ modes) (x ∷ ds) m d h hm hd =
    get_elem?-switch_modes n i modes ds m d (omega arith) hm hd

-- What a window end that wins the latch does to domain i. An INTROSPECT action leaves every domain
-- to the control thread. Any other switches the domain at once: to the target, remembering the
-- mode it had, if one is given that is not the current mode and the domain has not switched in
-- this cycle; else the domain stays as it is.
pub fire_window_end-modes :
    (r : ConfigRef) (p : Process) (i : ℕ) (m : TraceMode) (d : DomainTraceConfig)
    → let ma = end_action_at p.table r in
      ma.fired ≡ false
      → i < max_num_domains
      → get_elem? ma.mode i ≡ some m
      → get_elem? p.domain_trace_config i ≡ some d
      → get_elem? (fire_window_end r p).domain_trace_config i
        ≡ some (
            if ma.introspect || (rank m == 0) || d.mode_change_fired || (rank m == rank d.mode)
            then d
            else record d { last_mode = d.mode; mode = m; mode_change_fired = true })
unfolding fire_window_end end_window switch_mode wakeup
fire_window_end-modes r p i m d hf hi hm hd =
    elim (Bool-cases (end_action_at p.table r).introspect) [
      | inl e ↦ ground (arith, hd)
      | inr e ↦ ground (arith, get_elem?-switch_modes max_num_domains i _ _ m d hi hm hd)
    ]
