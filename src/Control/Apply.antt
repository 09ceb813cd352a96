-- ===== src/Control/Apply.antt =====
-- src/pinsight_control_thread.c: the control thread applies an end action, steps 2 and 3 of its
-- loop.
pub mod Cycle
use pinsight.Common.{
  ℕ, zero, suc, ◌+◌, Bool, true, false, not, ◌&&◌, ◌||◌, Option, none, some, List, [], ◌∷◌,
  get_elem?, get_or, set, modify, ltb, ◌==◌, if◌then◌else◌, codes, str_eq,
}
use pinsight.Config.Mode.{TraceMode, tracing, same_mode, NodePolicyVal}
use pinsight.Config.Domain.{DomainInfo, NodePolicyKey, DomainTraceConfig, DomainSamplingConfig}
use pinsight.Config.Window.{WindowEndAction}
use pinsight.Config.Rules.{ConfigRef}
use pinsight.Lexgion.{u32}
use pinsight.Control.{Timespec, Process, end_action_at, modify_action}
use pinsight.Control.Fire.{switch_modes}
use pinsight.Control.Timers.{window_timer_arm_from_default}

-- The loop of pinsight_get_nodepolicy_index.
unfoldable pub find_key : List ℕ → List NodePolicyKey → ℕ → Option ℕ
find_key key [] i = none
find_key key (k ∷ keys) i =
    let rest = find_key key keys (i + 1) in if str_eq k.name key then some i else rest

-- pinsight_get_nodepolicy_index; a negative domain index does not occur here.
unfoldable pub get_nodepolicy_index : List DomainInfo → ℕ → ℕ → List ℕ → Option ℕ
unfolding find_key
get_nodepolicy_index infos num_domain domain key =
    if ltb domain num_domain
    then (elim (get_elem? infos domain) [ none ↦ none | some i ↦ find_key key i.nodepolicy_keys 0 ])
    else none

-- The node policy target of a domain.
unfoldable pub target_policy : Option ℕ → NodePolicyVal → DomainTraceConfig → DomainTraceConfig
target_policy none v d = d
target_policy (some i) v d = record d { nodepolicy = set d.nodepolicy i v }

-- The loop over np_set, from domain i on.
unfoldable pub target_policies :
    (ℕ → Option ℕ)
    → ℕ
    → ℕ
    → List Bool
    → List NodePolicyVal
    → List DomainTraceConfig
    → List DomainTraceConfig
unfolding target_policy
target_policies index i zero np_set targets ds = ds
target_policies index i (suc n) (s ∷ np_set) (v ∷ targets) (d ∷ ds) =
    (if s then target_policy (index i) v d else d)
    ∷ target_policies index (i + 1) n np_set targets ds
target_policies index i (suc n) _ _ ds = ds

-- The loop over sampling_set.
unfoldable pub target_sampling :
    ℕ → List Bool → List ℕ → List DomainSamplingConfig → List DomainSamplingConfig
target_sampling zero sampling_set targets ds = ds
target_sampling (suc n) (s ∷ sampling_set) (v ∷ targets) (d ∷ ds) =
    (if s then record d { interval_us = v } else d) ∷ target_sampling n sampling_set targets ds
target_sampling (suc n) _ _ ds = ds

-- Some of the first n domains resumes tracing.
unfoldable pub cyclic_resume : ℕ → List TraceMode → Bool
cyclic_resume zero modes = false
cyclic_resume (suc n) [] = false
cyclic_resume (suc n) (m ∷ modes) =
    let rest = cyclic_resume n modes in if same_mode m tracing then true else rest

-- The latches of the first n domains are cleared.
unfoldable pub clear_latches : ℕ → List DomainTraceConfig → List DomainTraceConfig
clear_latches zero ds = ds
clear_latches (suc n) [] = []
clear_latches (suc n) (d ∷ ds) = record d { mode_change_fired = false } ∷ clear_latches n ds

abbrev pub next_generation : WindowEndAction → WindowEndAction
next_generation ma = record ma { fired = false; generation = u32 (ma.generation + 1) }

-- The three loops over the domains.
unfoldable pub apply_targets : WindowEndAction → Process → Process
unfolding switch_modes target_policies target_sampling get_nodepolicy_index
apply_targets ma p =
    let index = λ (d : ℕ).
      get_nodepolicy_index p.domain_info_table p.num_domain d (codes "device_activity") in
    record p {
      domain_trace_config =
          target_policies index 0 p.num_domain ma.np_set ma.np_target
            (switch_modes p.num_domain ma.mode p.domain_trace_config);
      domain_sampling_config =
          target_sampling p.num_domain ma.sampling_set ma.sampling_target p.domain_sampling_config;
    }

-- The start of the next cycle.
unfoldable pub resume_cycle : Timespec → ConfigRef → Process → Process
unfolding clear_latches modify_action window_timer_arm_from_default
resume_cycle now r p = window_timer_arm_from_default now (record p {
  domain_trace_config = clear_latches p.num_domain p.domain_trace_config;
  table = modify_action next_generation r p.table;
})

unfoldable pub apply_end_action : Timespec → ConfigRef → Process → Process
unfolding end_action_at apply_targets cyclic_resume resume_cycle
apply_end_action now r p =
    let ma = end_action_at p.table r in
    let p' = apply_targets ma p in
    if cyclic_resume p.num_domain ma.mode then resume_cycle now r p' else p'
