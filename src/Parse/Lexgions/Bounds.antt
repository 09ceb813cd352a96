-- ===== src/Parse/Lexgions/Bounds.antt =====
-- The sections of lexgions never shrink the table of configurations, nor let it grow beyond its
-- 512 entries.
use pinsight.Common.{
  ℕ, ◌≤◌, false, Option, none, some, List, [], ◌∷◌, length, modify, leb, ltb, ◌≡◌, arith, inl, inr,
  Bool-cases, Option-cases, length-modify, length-append, both_branches, subst, if◌then◌else◌,
  str_eq, codes, starts_with, starts_with_case,
}
use pinsight.Common.Int.{ℤ}
use pinsight.Config.Domain.{DomainInfo}
use pinsight.Config.Rules.{
  LexgionTraceConfig, ConfigTable, ConfigRef, entry, domain_default, global_default,
}
use pinsight.Lexgion.Resolve.{first_entry}
use pinsight.Node.{take}
use pinsight.Parse.State.{
  Parser, ConfigAction, action_set, action_reset, action_remove, modify_config, modify_configs,
  find_domain_index,
}
use pinsight.Parse.Text.{read_address, behind, before, drop, tokens, trim_whitespace}
use pinsight.Parse.Entries.{
  alloc_lexgion_config, get_or_create_address_lexgion_config, has_codeptr, with_codeptr,
  get_or_create_named_lexgion_config, write_entry, restored, has_name, named_config,
}
use pinsight.Parse.Lexgions.{
  Target, find_target, list_target, domain_target, default_target, add_targets, add_target,
  add_named, add_address, add_name, NameSpec, name_spec, nowhere,
}

-- A table is not shorter than before, and has at most 512 entries where it had no more.
pub record Grows (cs ds : List LexgionTraceConfig) : Type 0 where
  pub kept : length cs ≤ length ds
  pub bounded : length cs ≤ 512 → length ds ≤ 512

pub Grows-refl : (cs : List LexgionTraceConfig) → Grows cs cs
Grows-refl cs = record { kept = omega arith; bounded = λ h. h }

pub Grows-trans : {cs ds es : List LexgionTraceConfig} → Grows cs ds → Grows ds es → Grows cs es
Grows-trans g h = record {
  kept = omega (arith, g.kept, h.kept);
  bounded = λ l. h.bounded (g.bounded l);
}

Grows-length : (cs ds : List LexgionTraceConfig) → length ds ≡ length cs → Grows cs ds
Grows-length cs ds e = record { kept = omega arith; bounded = λ l. omega arith }

pub modify_config-Grows :
    (f : LexgionTraceConfig → LexgionTraceConfig) (t : ConfigTable) (r : ConfigRef)
    → Grows t.entries (modify_config f t r).entries
unfolding modify_config
modify_config-Grows f t global_default = Grows-refl t.entries
modify_config-Grows f t (domain_default d) = Grows-refl t.entries
modify_config-Grows f t (entry i) =
    Grows-length t.entries (modify t.entries i f) (length-modify t.entries i f)

pub modify_configs-Grows :
    (f : LexgionTraceConfig → LexgionTraceConfig) (t : ConfigTable) (rs : List ConfigRef)
    → Grows t.entries (modify_configs f t rs).entries
unfolding modify_configs
modify_configs-Grows f t [] = Grows-refl t.entries
modify_configs-Grows f t (r ∷ rs) =
    Grows-trans (modify_config-Grows f t r) (modify_configs-Grows f (modify_config f t r) rs)

alloc-Grows : (t : ConfigTable) → Grows t.entries (alloc_lexgion_config t).0.entries
unfolding alloc_lexgion_config
alloc-Grows t = elim (Bool-cases (leb 512 (length t.entries))) [
  | inl p ↦ rw p (Grows-refl t.entries)
  | inr p ↦
      let e = length-append t.entries (record t.lexgion_default { removed = false } ∷ []) in
      rw p (record { kept = omega (arith, e); bounded = λ l. ground (arith, e) })
]

write_entry-Grows :
    (f : LexgionTraceConfig → LexgionTraceConfig) (r : ConfigTable × Option ℕ)
    → Grows r.0.entries (write_entry f r).0.entries
write_entry-Grows f (t, none) = Grows-refl t.entries
write_entry-Grows f (t, some i) =
    Grows-length t.entries (modify t.entries i f) (length-modify t.entries i f)

address-Grows :
    (t : ConfigTable) (a : ℕ) → Grows t.entries (get_or_create_address_lexgion_config t a).0.entries
unfolding get_or_create_address_lexgion_config
address-Grows t a = elim (Option-cases (first_entry (has_codeptr a) t.entries)) [
  | inl e ↦
      rw (e, get_or_create_address_lexgion_config)
        (Grows-trans (alloc-Grows t) (write_entry-Grows (with_codeptr a) (alloc_lexgion_config t)))
  | inr (i, e) ↦ rw (e, get_or_create_address_lexgion_config) (Grows-refl t.entries)
]

named-Grows :
    (t : ConfigTable) (d : ℤ) (name : List ℕ) (hint : Option (List ℕ))
    → Grows t.entries (get_or_create_named_lexgion_config t d name hint).0.entries
unfolding get_or_create_named_lexgion_config
named-Grows t d [] hint = Grows-refl t.entries
named-Grows t d (c ∷ name) hint =
    elim (Option-cases (first_entry (has_name d (c ∷ name)) t.entries)) [
      | inl e ↦
          rw (e, get_or_create_named_lexgion_config)
            (Grows-trans (alloc-Grows t)
              (write_entry-Grows (named_config d (c ∷ name) hint) (alloc_lexgion_config t)))
      | inr (i, e) ↦
          rw (e, get_or_create_named_lexgion_config) (write_entry-Grows restored (t, some i))
    ]

-- A result that is there has a table that grew from the entries cs.
abbrev GrowsTo : List LexgionTraceConfig → Option (ConfigTable × List ConfigRef) → Type 0
GrowsTo cs none = Unit
GrowsTo cs (some n) = Grows cs n.0.entries

add_address-GrowsTo :
    (cs : List LexgionTraceConfig) (refs : List ConfigRef) (r : ConfigTable × Option ℕ)
    → Grows cs r.0.entries
    → GrowsTo cs (add_address refs r)
unfolding add_address
add_address-GrowsTo cs refs (t, none) g = tt
add_address-GrowsTo cs refs (t, some i) g = Grows-trans g (modify_config-Grows restored t (entry i))

add_name-GrowsTo :
    (cs : List LexgionTraceConfig) (refs : List ConfigRef) (r : ConfigTable × Option ℕ)
    → Grows cs r.0.entries
    → GrowsTo cs (add_name refs r)
add_name-GrowsTo cs refs (t, none) g = g
add_name-GrowsTo cs refs (t, some i) g = g

add_named-GrowsTo :
    (t : ConfigTable) (refs : List ConfigRef) (s : Option NameSpec)
    → GrowsTo t.entries (add_named t refs s)
unfolding add_named
add_named-GrowsTo t refs none = Grows-refl t.entries
add_named-GrowsTo t refs (some s) =
    add_name-GrowsTo t.entries refs (get_or_create_named_lexgion_config t s.domain s.name s.hint)
      (named-Grows t s.domain s.name s.hint)

named_or_skipped :
    (infos : List DomainInfo) (action : ConfigAction) (t : ConfigTable) (refs : List ConfigRef)
    (s : List ℕ)
    → GrowsTo t.entries
        (elim action [ action_remove ↦ some (t, refs) | _ ↦ add_named t refs (name_spec infos s) ])
named_or_skipped infos action_set t refs s = add_named-GrowsTo t refs (name_spec infos s)
named_or_skipped infos action_reset t refs s = add_named-GrowsTo t refs (name_spec infos s)
named_or_skipped infos action_remove t refs s = Grows-refl t.entries

add_target-GrowsTo :
    (infos : List DomainInfo) (action : ConfigAction) (t : ConfigTable) (refs : List ConfigRef)
    (s : List ℕ)
    → GrowsTo t.entries (add_target infos action t refs s)
unfolding add_target
add_target-GrowsTo infos action t refs [] = Grows-refl t.entries
add_target-GrowsTo infos action t refs (c ∷ s) =
    both_branches (GrowsTo t.entries) (starts_with_case (c ∷ s) (codes "0x"))
      (add_address-GrowsTo t.entries refs
        (get_or_create_address_lexgion_config t (read_address (c ∷ s)))
        (address-Grows t (read_address (c ∷ s))))
      (named_or_skipped infos action t refs (take 255 (c ∷ s)))

GrowsTo-trans :
    (cs ds : List LexgionTraceConfig) (r : Option (ConfigTable × List ConfigRef))
    → Grows cs ds
    → GrowsTo ds r
    → GrowsTo cs r
GrowsTo-trans cs ds none g h = tt
GrowsTo-trans cs ds (some n) g h = Grows-trans g h

add_targets-GrowsTo :
    (infos : List DomainInfo) (action : ConfigAction) (t : ConfigTable) (refs : List ConfigRef)
    (ts : List (List ℕ))
    → GrowsTo t.entries (add_targets infos action t refs ts)
unfolding add_targets
add_targets-GrowsTo infos action t refs [] = Grows-refl t.entries
add_targets-GrowsTo infos action t refs (s ∷ ts) = elim (Bool-cases (ltb (length refs) 64)) [
  | inr p ↦ rw (p, add_targets) (Grows-refl t.entries)
  | inl p ↦ elim (Option-cases (add_target infos action t refs (trim_whitespace s))) [
    | inl e ↦ rw (p, e, add_targets) tt
    | inr (n, e) ↦
        rw (p, e, add_targets)
          (GrowsTo-trans t.entries n.0.entries (add_targets infos action n.0 n.1 ts)
            (subst (λ (r : Option (ConfigTable × List ConfigRef)). GrowsTo t.entries r) e
              (add_target-GrowsTo infos action t refs (trim_whitespace s)))
            (add_targets-GrowsTo infos action n.0 n.1 ts))
  ]
]

abbrev pub TargetGrows : List LexgionTraceConfig → Option Target → Type 0
TargetGrows cs none = Unit
TargetGrows cs (some t) = Grows cs t.table.entries

list_target-TargetGrows :
    (p : Parser) (action : ConfigAction) (list : List ℕ)
    → TargetGrows p.store.table.entries (list_target p action list)
unfolding list_target
list_target-TargetGrows p action list =
    elim (Option-cases
      (add_targets p.store.domain_info_table action p.store.table [] (tokens 44 list))) [
        | inl e ↦ rw (e, list_target) tt
        | inr (n, e) ↦
            rw (e, list_target)
              (subst
                (λ (r : Option (ConfigTable × List ConfigRef)). GrowsTo p.store.table.entries r) e
                (add_targets-GrowsTo p.store.domain_info_table action p.store.table []
                  (tokens 44 list)))
      ]

domain_target-Grows :
    (p : Parser) (name : List ℕ) → Grows p.store.table.entries (domain_target p name).table.entries
unfolding domain_target modify_config
domain_target-Grows p name =
    elim (Option-cases (find_domain_index p.store.domain_info_table name)) [
      | inl e ↦ rw (e, domain_target) (Grows-refl p.store.table.entries)
      | inr (d, e) ↦ rw (e, domain_target) (Grows-refl p.store.table.entries)
    ]

pub find_target-TargetGrows :
    (p : Parser) (action : ConfigAction) (target : List ℕ)
    → TargetGrows p.store.table.entries (find_target p action target)
unfolding find_target default_target
find_target-TargetGrows p action target =
    both_branches (TargetGrows p.store.table.entries) (str_eq target (codes "Lexgion.default"))
      (Grows-refl p.store.table.entries)
      (both_branches (TargetGrows p.store.table.entries) (starts_with target (codes "Lexgion("))
        listed (Grows-refl p.store.table.entries))
  where
    listed : TargetGrows p.store.table.entries (elim (behind 41 target) [
      | none ↦ some (nowhere p)
      | some after ↦
          let inside = drop 8 (before 41 target) in
          if str_eq after (codes ".default")
          then some (domain_target p inside)
          else list_target p action inside
    ])
    listed = elim (Option-cases (behind 41 target)) [
      | inl e ↦ rw e (Grows-refl p.store.table.entries)
      | inr (after, e) ↦ rw e (
          both_branches (TargetGrows p.store.table.entries) (str_eq after (codes ".default"))
            (domain_target-Grows p (drop 8 (before 41 target)))
            (list_target-TargetGrows p action (drop 8 (before 41 target))))
    ]
