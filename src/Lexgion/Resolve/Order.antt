-- ===== src/Lexgion/Resolve/Order.antt =====
-- The order of the four sources of a configuration, as a relation that has one result.
use pinsight.Common.{
  ℕ, zero, suc, ◌<◌, Bool, true, false, Option, none, some, List, [], ◌∷◌, get_elem?, ◌==◌,
  if◌then◌else◌, ◌≡◌, refl, arith, ◌≢◌, Bool-cases, inl, inr,
}
use pinsight.Config.Rules.{
  LexgionTraceConfig, ConfigRef, global_default, domain_default, entry, ConfigTable,
}
use pinsight.Lexgion.{Lexgion}
use pinsight.Lexgion.Resolve.{
  first_entry, at_codeptr, at_name, named_entry, codeptr_of, default_config, resolve, is_resolved,
  set_trace_config,
}

-- Entry i is the first one that a test accepts.
pub record IsFirst (accepts : LexgionTraceConfig → Bool) (cs : List LexgionTraceConfig) (i : ℕ)
    : Type 0 where
  pub config : LexgionTraceConfig
  pub there : get_elem? cs i ≡ some config
  pub accepted : accepts config ≡ true
  pub before :
      (j : ℕ) (c : LexgionTraceConfig) → j < i → get_elem? cs j ≡ some c → accepts c ≡ false

-- No entry is accepted.
abbrev pub NoEntry : (LexgionTraceConfig → Bool) → List LexgionTraceConfig → Type 0
NoEntry accepts cs = (j : ℕ) (c : LexgionTraceConfig) → get_elem? cs j ≡ some c → accepts c ≡ false

abbrev Search : (LexgionTraceConfig → Bool) → List LexgionTraceConfig → Option ℕ → Type 0
Search accepts cs none = NoEntry accepts cs
Search accepts cs (some i) = IsFirst accepts cs i

abbrev later : Option ℕ → Option ℕ
later none = none
later (some i) = some (suc i)

Search-skip :
    (accepts : LexgionTraceConfig → Bool) (c : LexgionTraceConfig) (cs : List LexgionTraceConfig)
    (res : Option ℕ)
    → accepts c ≡ false
    → Search accepts cs res
    → Search accepts (c ∷ cs) (later res)
Search-skip accepts c cs none e h = go
  where
    go : NoEntry accepts (c ∷ cs)
    go zero d p = ground arith
    go (suc j) d p = h j d p
Search-skip accepts c cs (some i) e h = record {
  config = h.config;
  there = h.there;
  accepted = h.accepted;
  before = go;
}
  where
    go :
        (j : ℕ) (d : LexgionTraceConfig)
        → j < suc i
        → get_elem? (c ∷ cs) j ≡ some d
        → accepts d ≡ false
    go zero d l p = ground arith
    go (suc j) d l p = h.before j d (omega arith) p

first_entry-Search :
    (accepts : LexgionTraceConfig → Bool) (cs : List LexgionTraceConfig)
    → Search accepts cs (first_entry accepts cs)
unfolding first_entry
first_entry-Search accepts [] = λ j c p. cc
first_entry-Search accepts (c ∷ cs) = elim (Bool-cases (accepts c)) [
  | inl p ↦
      rw p (record {
        config = c;
        there = refl;
        accepted = p;
        before = λ j d l q. absurd (omega arith);
      })
  | inr p ↦
      rw p (Search-skip accepts c cs (first_entry accepts cs) p (first_entry-Search accepts cs))
]

-- An entry that the lexgion's own name selects; a lexgion with no name selects none.
abbrev pub selects : ℕ → Option (List ℕ) → Option (List ℕ) → LexgionTraceConfig → Bool
selects domain none hint c = false
selects domain (some name) hint c = at_name domain name hint c

-- The four sources in their order: the first live entry at the code pointer, the first entry that
-- the name selects, the domain's default, the global default.
pub data IsResolved (table : ConfigTable) (lg : Lexgion) (domain : ℕ) : ConfigRef → Type 0 where
  by_codeptr :
      (i : ℕ)
      → IsFirst (at_codeptr lg.codeptr_ra) table.entries i
      → IsResolved table lg domain (entry i)
  by_name :
      (i : ℕ)
      → NoEntry (at_codeptr lg.codeptr_ra) table.entries
      → IsFirst (selects domain lg.name lg.filename_hint) table.entries i
      → IsResolved table lg domain (entry i)
  by_domain :
      NoEntry (at_codeptr lg.codeptr_ra) table.entries
      → NoEntry (selects domain lg.name lg.filename_hint) table.entries
      → codeptr_of table.domain_defaults domain ≢ 0
      → IsResolved table lg domain (domain_default domain)
  by_default :
      NoEntry (at_codeptr lg.codeptr_ra) table.entries
      → NoEntry (selects domain lg.name lg.filename_hint) table.entries
      → codeptr_of table.domain_defaults domain ≡ 0
      → IsResolved table lg domain global_default

named_entry-Search :
    (domain : ℕ) (name hint : Option (List ℕ)) (cs : List LexgionTraceConfig)
    → Search (selects domain name hint) cs (named_entry domain name hint cs)
unfolding named_entry
named_entry-Search domain none hint cs = λ j c q. refl
named_entry-Search domain (some name) hint cs = first_entry-Search (at_name domain name hint) cs

-- The configuration that is looked up is the one that the order of the four sources says.
pub resolve-IsResolved :
    (table : ConfigTable) (lg : Lexgion) (domain : ℕ)
    → IsResolved table lg domain (resolve table lg domain)
unfolding resolve default_config
resolve-IsResolved table lg domain =
    go (first_entry (at_codeptr lg.codeptr_ra) table.entries)
      (named_entry domain lg.name lg.filename_hint table.entries)
      (first_entry-Search (at_codeptr lg.codeptr_ra) table.entries)
      (named_entry-Search domain lg.name lg.filename_hint table.entries)
  where
    last :
        NoEntry (at_codeptr lg.codeptr_ra) table.entries
        → NoEntry (selects domain lg.name lg.filename_hint) table.entries
        → IsResolved table lg domain (default_config table domain)
    last a b = elim (Bool-cases (codeptr_of table.domain_defaults domain == 0)) [
      | inl p ↦ rw p (by_default a b (ground arith))
      | inr p ↦ rw p (by_domain a b (ground arith))
    ]

    go :
        (r s : Option ℕ)
        → Search (at_codeptr lg.codeptr_ra) table.entries r
        → Search (selects domain lg.name lg.filename_hint) table.entries s
        → IsResolved table lg domain (elim r [
          | some i ↦ entry i
          | none ↦ elim s [ some i ↦ entry i | none ↦ default_config table domain ]
        ])
    go (some i) s a b = by_codeptr i a
    go none (some i) a b = by_name i a b
    go none none a b = last a b

fresh_resolved :
    (table : ConfigTable) (lg : Lexgion) (r : ConfigRef)
    → is_resolved table
        (record lg { trace_config = some r; config_change_counter = table.config_change_counter })
      ≡ true
unfolding is_resolved
fresh_resolved table lg r = ground arith

-- After lexgion_set_trace_config the cached configuration is current. It is the one that was
-- cached if that was current, and the one that the four sources say otherwise; a second call
-- before the next reload changes nothing.
pub set_trace_config-current :
    (table : ConfigTable) (domain : ℕ) (lg : Lexgion)
    → let lg' = set_trace_config table domain lg in
      (is_resolved table lg' ≡ true)
      × (lg'.trace_config
          ≡ (if is_resolved table lg then lg.trace_config else some (resolve table lg domain)))
      × (set_trace_config table domain lg' ≡ lg')
unfolding set_trace_config
set_trace_config-current table domain lg = elim (Bool-cases (is_resolved table lg)) [
  | inl p ↦ rw p (p, refl, rw p)
  | inr p ↦ let e = fresh_resolved table lg (resolve table lg domain) in rw p (e, refl, rw e)
]
