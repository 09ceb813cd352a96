-- ===== src/Control/Apply/Cycle.antt =====
-- A cycle of tracing windows: the count ends a window, the control thread starts the next.
use pinsight.Common.{
  ℕ, zero, suc, ◌+◌, ◌≤◌, ◌<◌, true, false, some, List, [], ◌∷◌, get_elem?, get_or, modify, length,
  ◌≡◌, refl, arith, ap, sym, ◌∙◌,
}
use pinsight.Config.Domain.{DomainTraceConfig}
use pinsight.Config.Window.{WindowEndAction}
use pinsight.Config.Rules.{
  LexgionTraceConfig, ConfigRef, global_default, domain_default, entry, ConfigTable,
}
use pinsight.Lexgion.{u32}
use pinsight.Lexgion.Resolve.{config_at}
use pinsight.Control.{
  Timespec, Process, end_action_at, in_config, modify_action, wakeup, max_num_domains,
}
use pinsight.Control.Fire.{switch_modes, end_window, fire_window_end}
use pinsight.Control.Fire.Latch.{InTable, the_default, a_domain, an_entry}
use pinsight.Control.Fire.Modes.{switch_modes-again}
use pinsight.Control.Timers.{window_timer_arm_from_default}
use pinsight.Control.Apply.{
  cyclic_resume, clear_latches, next_generation, apply_targets, resume_cycle, apply_end_action,
}

get_or-in_config :
    (f : WindowEndAction → WindowEndAction) (cs : List LexgionTraceConfig) (i : ℕ)
    (d : LexgionTraceConfig)
    → i < length cs
    → (get_or (modify cs i (in_config f)) i d).end_action ≡ f (get_or cs i d).end_action
unfolding in_config
get_or-in_config f [] i d h = absurd (omega arith)
get_or-in_config f (c ∷ cs) zero d h = refl
get_or-in_config f (c ∷ cs) (suc i) d h = get_or-in_config f cs i d (omega arith)

-- A write through a pointer into the table is read back through it.
pub end_action_at-modify_action :
    (f : WindowEndAction → WindowEndAction) (table : ConfigTable) (r : ConfigRef)
    → InTable table r
    → end_action_at (modify_action f r table) r ≡ f (end_action_at table r)
unfolding end_action_at config_at modify_action in_config
end_action_at-modify_action f table global_default the_default = refl
end_action_at-modify_action f table (domain_default d) (a_domain h) =
    get_or-in_config f table.domain_defaults d table.lexgion_default h
end_action_at-modify_action f table (entry i) (an_entry h) =
    get_or-in_config f table.entries i table.lexgion_default h

clear_latches-cleared :
    (n i : ℕ) (ds : List DomainTraceConfig) (d : DomainTraceConfig)
    → i < n
    → get_elem? (clear_latches n ds) i ≡ some d
    → d.mode_change_fired ≡ false
unfolding clear_latches
clear_latches-cleared zero i ds d h e = absurd (omega arith)
clear_latches-cleared (suc n) i [] d h e = cc
clear_latches-cleared (suc n) zero (x ∷ ds) d h e = ground arith
clear_latches-cleared (suc n) (suc i) (x ∷ ds) d h e =
    clear_latches-cleared n i ds d (omega arith) e

arm-keeps :
    (now : Timespec) (p : Process)
    → let p' = window_timer_arm_from_default now p in
      (p'.table ≡ p.table)
      × (p'.domain_trace_config ≡ p.domain_trace_config)
      × (p'.num_domain ≡ p.num_domain)
unfolding window_timer_arm_from_default
arm-keeps now p = ground arith

resume_cycle-fields :
    (now : Timespec) (r : ConfigRef) (p : Process)
    → let p' = resume_cycle now r p in
      (p'.table ≡ modify_action next_generation r p.table)
      × (p'.domain_trace_config ≡ clear_latches p.num_domain p.domain_trace_config)
unfolding resume_cycle
resume_cycle-fields now r p =
    let (a, b, _) = arm-keeps now (record p {
      domain_trace_config = clear_latches p.num_domain p.domain_trace_config;
      table = modify_action next_generation r p.table;
    }) in
    (a, b)

apply_end_action-resumes :
    (now : Timespec) (r : ConfigRef) (p : Process)
    → cyclic_resume p.num_domain (end_action_at p.table r).mode ≡ true
    → apply_end_action now r p ≡ resume_cycle now r (apply_targets (end_action_at p.table r) p)
unfolding apply_end_action
apply_end_action-resumes now r p c = rw c refl

-- The end action of a cyclic window, one in the table with a domain that resumes tracing: after
-- the control thread has applied it, it differs from before in that its latch is clear and its
-- generation has advanced by one, as an unsigned int, and the latches of the registered domains
-- are clear.
pub apply_end_action-cyclic :
    (now : Timespec) (r : ConfigRef) (p : Process)
    → InTable p.table r
    → cyclic_resume p.num_domain (end_action_at p.table r).mode ≡ true
    → let ma = end_action_at p.table r in
      let p' = apply_end_action now r p in
      (end_action_at p'.table r ≡ record ma { fired = false; generation = u32 (ma.generation + 1) })
      × ((i : ℕ) (d : DomainTraceConfig)
          → i < p.num_domain
          → get_elem? p'.domain_trace_config i ≡ some d
          → d.mode_change_fired ≡ false)
unfolding apply_targets
apply_end_action-cyclic now r p h c =
    let (a, b) = resume_cycle-fields now r (apply_targets (end_action_at p.table r) p) in
    rw (apply_end_action-resumes now r p c) (
      ap (λ t. end_action_at t r) a ∙ end_action_at-modify_action next_generation p.table r h,
      λ i d hi hd.
          clear_latches-cleared p.num_domain i _ d hi (ap (λ ds. get_elem? ds i) (sym b) ∙ hd),
    )

-- An end action that resumes no domain leaves the configurations, its latch included, as they are.
pub apply_end_action-one_shot :
    (now : Timespec) (r : ConfigRef) (p : Process)
    → cyclic_resume p.num_domain (end_action_at p.table r).mode ≡ false
    → (apply_end_action now r p).table ≡ p.table
unfolding apply_end_action apply_targets
apply_end_action-one_shot now r p c = ground arith

-- After a window end that is not INTROSPECT has won the latch, the switch of the modes by the
-- control thread finds nothing left to do.
pub switch_modes-after_fire :
    (r : ConfigRef) (p : Process)
    → let ma = end_action_at p.table r in
      let p' = fire_window_end r p in
      ma.fired ≡ false
      → ma.introspect ≡ false
      → p.num_domain ≤ max_num_domains
      → switch_modes p'.num_domain ma.mode p'.domain_trace_config ≡ p'.domain_trace_config
unfolding fire_window_end end_window wakeup
switch_modes-after_fire r p hf hi hn = ground (
  arith,
  switch_modes-again p.num_domain max_num_domains (end_action_at p.table r).mode
      p.domain_trace_config hn,
)
