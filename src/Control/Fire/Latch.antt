-- ===== src/Control/Fire/Latch.antt =====
-- The latch of an end action: of the threads that end a window, one does.
use pinsight.Common.{
  ℕ, zero, suc, ◌<◌, Bool, true, List, [], ◌∷◌, get_or, modify, length, if◌then◌else◌, ◌≡◌, refl,
  arith, Bool-cases, inl, inr,
}
use pinsight.Config.Rules.{
  LexgionTraceConfig, ConfigRef, global_default, domain_default, entry, ConfigTable,
}
use pinsight.Lexgion.Resolve.{config_at}
use pinsight.Control.{Process, end_action_at, in_config, modify_action, wakeup}
use pinsight.Control.Fire.{end_window, latch, fire_window_end}

-- The pointer is into the table.
pub data InTable (table : ConfigTable) : ConfigRef → Type 0 where
  the_default : InTable table global_default
  a_domain : {d : ℕ} → d < length table.domain_defaults → InTable table (domain_default d)
  an_entry : {i : ℕ} → i < length table.entries → InTable table (entry i)

-- Its action has been fired in this cycle.
abbrev pub is_fired : ConfigRef → Process → Bool
is_fired r p = (end_action_at p.table r).fired

-- The windows of `rs` are ended in this order.
unfoldable pub fire_all : List ConfigRef → Process → Process
unfolding fire_window_end
fire_all [] p = p
fire_all (r ∷ rs) p = fire_all rs (fire_window_end r p)

get_or-latch :
    (cs : List LexgionTraceConfig) (i : ℕ) (d : LexgionTraceConfig)
    → i < length cs
    → (get_or (modify cs i (in_config latch)) i d).end_action.fired ≡ true
unfolding in_config
get_or-latch [] i d h = absurd (omega arith)
get_or-latch (c ∷ cs) zero d h = refl
get_or-latch (c ∷ cs) (suc i) d h = get_or-latch cs i d (omega arith)

get_or-keeps :
    (cs : List LexgionTraceConfig) (i : ℕ) (d d' : LexgionTraceConfig)
    → (d.end_action.fired ≡ true → d'.end_action.fired ≡ true)
    → (get_or cs i d).end_action.fired ≡ true
    → (get_or cs i d').end_action.fired ≡ true
get_or-keeps [] i d d' k h = k h
get_or-keeps (c ∷ cs) zero d d' k h = h
get_or-keeps (c ∷ cs) (suc i) d d' k h = get_or-keeps cs i d d' k h

-- A latch at slot j leaves the one at slot i fired, whatever the value out of range.
get_or-latch_keeps :
    (cs : List LexgionTraceConfig) (i j : ℕ) (d d' : LexgionTraceConfig)
    → (d.end_action.fired ≡ true → d'.end_action.fired ≡ true)
    → (get_or cs i d).end_action.fired ≡ true
    → (get_or (modify cs j (in_config latch)) i d').end_action.fired ≡ true
unfolding in_config
get_or-latch_keeps [] i j d d' k h = k h
get_or-latch_keeps (c ∷ cs) zero zero d d' k h = refl
get_or-latch_keeps (c ∷ cs) zero (suc j) d d' k h = h
get_or-latch_keeps (c ∷ cs) (suc i) zero d d' k h = get_or-keeps cs i d d' k h
get_or-latch_keeps (c ∷ cs) (suc i) (suc j) d d' k h = get_or-latch_keeps cs i j d d' k h

modify_action-latch :
    (table : ConfigTable) (r : ConfigRef)
    → InTable table r
    → (end_action_at (modify_action latch r table) r).fired ≡ true
unfolding end_action_at config_at modify_action in_config
modify_action-latch table global_default the_default = refl
modify_action-latch table (domain_default d) (a_domain h) =
    get_or-latch table.domain_defaults d table.lexgion_default h
modify_action-latch table (entry i) (an_entry h) =
    get_or-latch table.entries i table.lexgion_default h

modify_action-keeps :
    (table : ConfigTable) (r s : ConfigRef)
    → (end_action_at table r).fired ≡ true
    → (end_action_at (modify_action latch s table) r).fired ≡ true
unfolding end_action_at config_at modify_action in_config
modify_action-keeps table global_default global_default h = refl
modify_action-keeps table global_default (domain_default d) h = h
modify_action-keeps table global_default (entry j) h = h
modify_action-keeps table (domain_default d) global_default h =
    get_or-keeps table.domain_defaults d _ _ (λ _. refl) h
modify_action-keeps table (domain_default d) (domain_default e) h =
    get_or-latch_keeps table.domain_defaults d e _ _ (λ k. k) h
modify_action-keeps table (domain_default d) (entry j) h = h
modify_action-keeps table (entry i) global_default h =
    get_or-keeps table.entries i _ _ (λ _. refl) h
modify_action-keeps table (entry i) (domain_default e) h = h
modify_action-keeps table (entry i) (entry j) h =
    get_or-latch_keeps table.entries i j _ _ (λ k. k) h

fire_window_end-table :
    (r : ConfigRef) (p : Process)
    → (fire_window_end r p).table
      ≡ (if is_fired r p then p.table else modify_action latch r p.table)
unfolding fire_window_end end_window wakeup
fire_window_end-table r p = ground arith

pub fire_window_end-fired :
    (r : ConfigRef) (p : Process) → InTable p.table r → is_fired r (fire_window_end r p) ≡ true
fire_window_end-fired r p h = elim (Bool-cases (is_fired r p)) [
  | inl e ↦ rw (fire_window_end-table r p, e) e
  | inr e ↦ rw (fire_window_end-table r p, e) (modify_action-latch p.table r h)
]

pub fire_window_end-keeps :
    (r s : ConfigRef) (p : Process) → is_fired r p ≡ true → is_fired r (fire_window_end s p) ≡ true
fire_window_end-keeps r s p h = elim (Bool-cases (is_fired s p)) [
  | inl e ↦ rw (fire_window_end-table s p, e) h
  | inr e ↦ rw (fire_window_end-table s p, e) (modify_action-keeps p.table r s h)
]

fire_all-keeps :
    (r : ConfigRef) (rs : List ConfigRef) (p : Process)
    → is_fired r p ≡ true
    → is_fired r (fire_all rs p) ≡ true
unfolding fire_all
fire_all-keeps r [] p h = h
fire_all-keeps r (s ∷ rs) p h =
    fire_all-keeps r rs (fire_window_end s p) (fire_window_end-keeps r s p h)

fire_window_end-latched :
    (r : ConfigRef) (p : Process) → is_fired r p ≡ true → fire_window_end r p ≡ p
unfolding fire_window_end
fire_window_end-latched r p h = rw h refl

-- Once a thread has ended the window of an action in the table, ending it again changes nothing,
-- whichever windows threads end in between, in whatever order.
pub fire_window_end-once :
    (r : ConfigRef) (rs : List ConfigRef) (p : Process)
    → InTable p.table r
    → fire_window_end r (fire_all rs (fire_window_end r p)) ≡ fire_all rs (fire_window_end r p)
fire_window_end-once r rs p h =
    fire_window_end-latched r _ (fire_all-keeps r rs _ (fire_window_end-fired r p h))
