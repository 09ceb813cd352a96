-- ===== src/Parse/Lexgions/Laws.antt =====
-- What the sections of lexgions do: the entry of an address is the one that the lexgion at that
-- address is traced by.
use pinsight.Common.{
  ℕ, zero, suc, ◌≤◌, true, Option, none, some, List, [], ◌∷◌, ◌++◌, length, modify, ◌==◌, codes,
  starts_with_case, ◌≡◌, refl, arith, inl, inr, Bool-cases, Option-cases, sym, subst,
}
use pinsight.Config.Domain.{DomainInfo}
use pinsight.Config.Rules.{LexgionTraceConfig, ConfigTable, ConfigRef, entry}
use pinsight.Lexgion.{Lexgion}
use pinsight.Lexgion.Resolve.{first_entry, at_codeptr, resolve}
use pinsight.Parse.State.{ConfigAction, action_remove, modify_config, Parser, find_domain_index}
use pinsight.Parse.Header.{Header}
use pinsight.Parse.Text.{read_address}
use pinsight.Parse.Entries.{get_or_create_address_lexgion_config, has_codeptr, restored}
use pinsight.Parse.Entries.Laws.{first_entry_lem, full}
use pinsight.Parse.Lexgions.{
  add_target, add_address, act, entered, domain_target, with_table, domain_base,
}

-- The first entry of an address, when it is restored, is the first live one of that address.
first_entry-restored :
    (a : ℕ) (cs : List LexgionTraceConfig) (i : ℕ)
    → first_entry (has_codeptr a) cs ≡ some i
    → first_entry (at_codeptr a) (modify cs i restored) ≡ some i
unfolding first_entry
first_entry-restored a [] i h = cc
first_entry-restored a (c ∷ cs) zero h = elim (Bool-cases (c.codeptr == a)) [
  | inl p ↦ ground (arith, p)
  | inr p ↦ elim (Option-cases (first_entry (has_codeptr a) cs)) [
    | inl q ↦ absurd (ground (arith, p, q))
    | inr (j, q) ↦ absurd (ground (arith, p, q))
  ]
]
first_entry-restored a (c ∷ cs) (suc i) h = elim (Bool-cases (c.codeptr == a)) [
  | inl p ↦ absurd (ground (arith, p))
  | inr p ↦ elim (Option-cases (first_entry (has_codeptr a) cs)) [
    | inl q ↦ absurd (ground (arith, p, q))
    | inr (j, q) ↦
        let e : first_entry (has_codeptr a) cs ≡ some i = ground (arith, p, q) in
        rw (p, first_entry-restored a cs i e) refl
  ]
]

add_address_lem :
    (refs : List ConfigRef) (r : ConfigTable × Option ℕ) (i : ℕ)
    → r.1 ≡ some i
    → add_address refs r ≡ some (modify_config restored r.0 (entry i), refs ++ entry i ∷ [])
unfolding modify_config
add_address_lem refs (table, none) i h = cc
add_address_lem refs (table, some j) i h = let e : j ≡ i = ground arith in rw e refl

resolve_lem :
    (table : ConfigTable) (lg : Lexgion) (domain i : ℕ)
    → first_entry (at_codeptr lg.codeptr_ra) table.entries ≡ some i
    → resolve table lg domain ≡ entry i
unfolding resolve
resolve_lem table lg domain i h = rw (h, resolve) refl

-- A piece of the list of [Lexgion(...)] that is an address, when the table has or gets an entry
-- for it: that entry is added to the section's, and from then on every lexgion at that address is
-- traced by it, whatever its name and domain and even if the entry was removed before.
pub resolve-add_target :
    (infos : List DomainInfo) (action : ConfigAction) (table : ConfigTable) (refs : List ConfigRef)
    (c : ℕ) (s : List ℕ) (i : ℕ) (lg : Lexgion) (domain : ℕ)
    → starts_with_case (c ∷ s) (codes "0x") ≡ true
    → (get_or_create_address_lexgion_config table (read_address (c ∷ s))).1 ≡ some i
    → lg.codeptr_ra ≡ read_address (c ∷ s)
    → (table' : ConfigTable) × (add_target infos action table refs (c ∷ s)
        ≡ some (table', refs ++ entry i ∷ []))
      × (resolve table' lg domain ≡ entry i)
unfolding add_target modify_config
resolve-add_target infos action table refs c s i lg domain h g e =
    let table' = (get_or_create_address_lexgion_config table (read_address (c ∷ s))).0 in
    (
      modify_config restored table' (entry i),
      rw (h, add_target)
          (add_address_lem refs (get_or_create_address_lexgion_config table (read_address (c ∷ s)))
            i g),
      resolve_lem (modify_config restored table' (entry i)) lg domain i (
          subst (λ (a : ℕ). first_entry (at_codeptr a) (modify table'.entries i restored) ≡ some i)
            (sym e)
            (first_entry-restored (read_address (c ∷ s)) table'.entries i
              (first_entry_lem table (read_address (c ∷ s)) i g))),
    )

-- Where the table is full and has no entry for the address, the NULL that comes back is written
-- to: the parser crashes.
pub add_target-full :
    (infos : List DomainInfo) (action : ConfigAction) (table : ConfigTable) (refs : List ConfigRef)
    (c : ℕ) (s : List ℕ)
    → starts_with_case (c ∷ s) (codes "0x") ≡ true
    → first_entry (has_codeptr (read_address (c ∷ s))) table.entries ≡ none
    → 512 ≤ length table.entries
    → add_target infos action table refs (c ∷ s) ≡ none
unfolding add_target
add_target-full infos action table refs c s h e l =
    rw (h, add_target, full table (read_address (c ∷ s)) e l) refl

-- The header [REMOVE Lexgion(Domain).default] on a registered domain, which the warning says is
-- ignored: the default of the domain is overwritten all the same, with the global default and the
-- domain's events.
pub act-domain_target :
    (h : Header) (p : Parser) (name : List ℕ) (d : ℕ) (lg : ConfigRef)
    → h.action ≡ action_remove
    → find_domain_index p.store.domain_info_table name ≡ some d
    → (act h true lg (entered (domain_target p name) p)).store ≡ record p.store {
      table = record p.store.table {
        domain_defaults = modify p.store.table.domain_defaults d (λ _. domain_base p.store d);
      };
    }
unfolding act entered domain_target with_table modify_config
act-domain_target h p name d lg e f = rw (e, act, f, domain_target) refl
