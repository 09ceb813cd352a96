-- ===== src/Parse/LexgionKeys/Laws.antt =====
-- The keys of a section of lexgions may stand in any order.
use pinsight.Common.{
  ℕ, List, Option, none, some, get_elem?, codes, ◌≡◌, refl, str_eq, inl, inr, Option-cases,
  both_branches,
}
use pinsight.Config.Domain.{DomainInfo}
use pinsight.Config.Rules.{LexgionTraceConfig}
use pinsight.Parse.LexgionKeys.{
  lexgion_key, with_action, replaced_action, event_key, in_domain_events, override_event,
}
use pinsight.Parse.State.{find_event, find_domain_index, enables}
use pinsight.Parse.Text.{before, behind}

-- The keys window_timeout and window_end_trigger give the same configuration before and after the
-- key window_end_action, whatever the three values.
pub lexgion_key_order :
    (infos : List DomainInfo) (action timeout trigger : List ℕ) (c : LexgionTraceConfig)
    → (lexgion_key infos
          (codes "window_end_action")
          action
          (lexgion_key infos (codes "window_timeout") timeout c)
        ≡ lexgion_key infos
            (codes "window_timeout")
            timeout
            (lexgion_key infos (codes "window_end_action") action c))
      × (lexgion_key infos
            (codes "window_end_action")
            action
            (lexgion_key infos (codes "window_end_trigger") trigger c)
          ≡ lexgion_key infos
              (codes "window_end_trigger")
              trigger
              (lexgion_key infos (codes "window_end_action") action c))
unfolding lexgion_key with_action replaced_action str_eq
lexgion_key_order infos action timeout trigger c = (refl, refl)

-- What the cycle of the end action owns: its generation and its latch.
abbrev Keeps : LexgionTraceConfig → LexgionTraceConfig → Type 0
Keeps c d =
    (d.end_action.generation ≡ c.end_action.generation) × (d.end_action.fired ≡ c.end_action.fired)

in_domain_events-Keeps :
    (d : ℕ) (event val : List ℕ) (info : Option DomainInfo) (c : LexgionTraceConfig)
    → Keeps c (in_domain_events d event val info c)
unfolding override_event in_domain_events find_event enables
in_domain_events-Keeps d event val none c = (refl, refl)
in_domain_events-Keeps d event val (some info) c = elim (Option-cases (find_event info event)) [
  | inl e ↦ rw (e, in_domain_events) (refl, refl)
  | inr (eid, e) ↦ rw (e, in_domain_events) (refl, refl)
]

event_key-Keeps :
    (infos : List DomainInfo) (key val : List ℕ) (c : LexgionTraceConfig)
    → Keeps c (event_key infos key val c)
unfolding event_key
event_key-Keeps infos key val c = elim (Option-cases (behind 46 key)) [
  | inl e ↦ rw (e, event_key) (refl, refl)
  | inr (event, e) ↦ elim (Option-cases (find_domain_index infos (before 46 key))) [
    | inl f ↦ rw (e, f, event_key) (refl, refl)
    | inr (d, f) ↦ rw (e, f, event_key) (in_domain_events-Keeps d event val (get_elem? infos d) c)
  ]
]

-- No line `key = value` of a section of a lexgion changes the generation or the latch of the end
-- action of the configuration, whatever the key and its value.
pub lexgion_key-cycle :
    (infos : List DomainInfo) (key val : List ℕ) (c : LexgionTraceConfig)
    → ((lexgion_key infos key val c).end_action.generation ≡ c.end_action.generation)
      × ((lexgion_key infos key val c).end_action.fired ≡ c.end_action.fired)
unfolding lexgion_key with_action replaced_action
lexgion_key-cycle infos key val c =
    both_branches (Keeps c) (str_eq key (codes "trace_starts_at")) (refl, refl)
      (both_branches (Keeps c) (str_eq key (codes "max_num_traces")) (refl, refl)
        (both_branches (Keeps c) (str_eq key (codes "tracing_rate")) (refl, refl)
          (both_branches (Keeps c) (str_eq key (codes "window_end_action")) (refl, refl)
            (both_branches (Keeps c) (str_eq key (codes "window_timeout")) (refl, refl)
              (both_branches (Keeps c) (str_eq key (codes "window_end_trigger")) (refl, refl)
                (event_key-Keeps infos key val c))))))
