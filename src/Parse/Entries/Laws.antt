-- ===== src/Parse/Entries/Laws.antt =====
-- An entry that was found or created is found again, and the table keeps its bound.
use pinsight.Common.{
  ℕ, ◌≤◌, ◌<◌, Bool, true, false, none, some, List, [], ◌∷◌, ◌++◌, length, modify, leb, ◌≡◌, refl,
  arith, leb→le, inl, inr, Bool-cases, Option-cases, ap, ◌∙◌, sym,
}
use pinsight.Config.Rules.{LexgionTraceConfig, ConfigTable}
use pinsight.Lexgion.Resolve.{first_entry}
use pinsight.Parse.Entries.{
  alloc_lexgion_config, get_or_create_address_lexgion_config, has_codeptr, with_codeptr,
}

none-some : {i : ℕ} → none ≡ some i → ⊥
none-some h = cc

-- An update of the element behind a list.
modify-last :
    (xs : List LexgionTraceConfig) (x : LexgionTraceConfig)
    (f : LexgionTraceConfig → LexgionTraceConfig)
    → modify (xs ++ x ∷ []) (length xs) f ≡ xs ++ f x ∷ []
modify-last [] x f = refl
modify-last (y ∷ xs) x f = ap (λ t. y ∷ t) (modify-last xs x f)

-- The first entry of a list that another entry follows.
first_entry-append :
    (accepts : LexgionTraceConfig → Bool) (cs : List LexgionTraceConfig) (c : LexgionTraceConfig)
    → accepts c ≡ true
    → first_entry accepts cs ≡ none
    → first_entry accepts (cs ++ c ∷ []) ≡ some (length cs)
unfolding first_entry
first_entry-append accepts [] c h e = rw h refl
first_entry-append accepts (d ∷ cs) c h e = elim (Bool-cases (accepts d)) [
  | inl p ↦ absurd (ground (arith, p))
  | inr p ↦ elim (Option-cases (first_entry accepts cs)) [
    | inl q ↦ rw (p, first_entry-append accepts cs c h q) refl
    | inr (i, q) ↦ absurd (ground (arith, p, q))
  ]
]

-- The three cases of the entry for an address.
pub created :
    (table : ConfigTable) (a : ℕ)
    → first_entry (has_codeptr a) table.entries ≡ none
    → length table.entries < 512
    → get_or_create_address_lexgion_config table a ≡ (
      record table {
        entries =
            table.entries ++ record table.lexgion_default { removed = false; codeptr = a } ∷ [];
      },
      some (length table.entries),
    )
unfolding get_or_create_address_lexgion_config alloc_lexgion_config
created table a e l =
    rw
      (
        e,
        get_or_create_address_lexgion_config,
        alloc_lexgion_config,
        (let f : leb 512 (length table.entries) ≡ false = ground arith in f),
        modify-last table.entries (record table.lexgion_default { removed = false })
            (with_codeptr a),
      )
      refl

pub found :
    (table : ConfigTable) (a i : ℕ)
    → first_entry (has_codeptr a) table.entries ≡ some i
    → get_or_create_address_lexgion_config table a ≡ (table, some i)
unfolding get_or_create_address_lexgion_config
found table a i e = rw (e, get_or_create_address_lexgion_config) refl

pub full :
    (table : ConfigTable) (a : ℕ)
    → first_entry (has_codeptr a) table.entries ≡ none
    → 512 ≤ length table.entries
    → get_or_create_address_lexgion_config table a ≡ (table, none)
unfolding get_or_create_address_lexgion_config alloc_lexgion_config
full table a e l =
    rw
      (
        e,
        get_or_create_address_lexgion_config,
        alloc_lexgion_config,
        (let f : leb 512 (length table.entries) ≡ true = ground arith in f),
      )
      refl

-- The entry that is given back is the first one with the address.
pub first_entry_lem :
    (table : ConfigTable) (a i : ℕ)
    → (get_or_create_address_lexgion_config table a).1 ≡ some i
    → first_entry (has_codeptr a) (get_or_create_address_lexgion_config table a).0.entries ≡ some i
first_entry_lem table a i h = elim (Option-cases (first_entry (has_codeptr a) table.entries)) [
  | inr (j, e) ↦ rw (found table a j e) (e ∙ sym (ap (λ t. t.1) (found table a j e)) ∙ h)
  | inl e ↦ elim (Bool-cases (leb 512 (length table.entries))) [
    | inl p ↦ absurd (none-some (sym (ap (λ t. t.1) (full table a e (leb→le 512 _ p))) ∙ h))
    | inr p ↦
        let l : length table.entries < 512 = ground arith in
        rw (created table a e l) (
          first_entry-append (has_codeptr a) table.entries
            (record table.lexgion_default { removed = false; codeptr = a }) (ground arith) e
          ∙ sym (ap (λ t. t.1) (created table a e l))
          ∙ h)
  ]
]

-- An address that has an entry, or gets one, has the same entry from then on: asking again changes
-- nothing.
pub get_or_create_address_again :
    (table : ConfigTable) (a i : ℕ)
    → (get_or_create_address_lexgion_config table a).1 ≡ some i
    → get_or_create_address_lexgion_config (get_or_create_address_lexgion_config table a).0 a
      ≡ ((get_or_create_address_lexgion_config table a).0, some i)
get_or_create_address_again table a i h =
    found (get_or_create_address_lexgion_config table a).0 a i (first_entry_lem table a i h)
