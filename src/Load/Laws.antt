-- ===== src/Load/Laws.antt =====
-- What a reload leaves behind.
use pinsight.Common.{
  ℕ, zero, suc, ◌+◌, ◌<◌, false, Option, none, some, List, [], ◌∷◌, length, ◌==◌, ◌≡◌, refl, arith,
  inl, inr, Bool-cases, ap, subst,
}
use pinsight.Config.Domain.{DomainInfo}
use pinsight.Config.Rules.{LexgionTraceConfig, domain_default}
use pinsight.Lexgion.Resolve.{default_config, codeptr_of}
use pinsight.Parse.State.{Store, Parser, Libc}
use pinsight.Parse.File.{parse_config_file}
use pinsight.Parse.Lexgions.{domain_base}
use pinsight.Load.{fill_defaults, filled, reload, complete, prepare, with_table}

filled-codeptr : (s : Store) (d : ℕ) (c : LexgionTraceConfig) → (filled s d c).codeptr == 0 ≡ false
unfolding domain_base
filled-codeptr s d c = elim (Bool-cases (c.codeptr == 0)) [
  | inl p ↦ rw p (ground arith)
  | inr p ↦ rw p p
]

fill_defaults-codeptr :
    (s : Store) (i : ℕ) (ds : List DomainInfo) (cs : List LexgionTraceConfig) (j : ℕ)
    → j < length ds
    → j < length cs
    → codeptr_of (fill_defaults s i ds cs) j == 0 ≡ false
unfolding fill_defaults
fill_defaults-codeptr s i [] cs j h l = absurd (omega arith)
fill_defaults-codeptr s i (d ∷ ds) [] j h l = absurd (omega arith)
fill_defaults-codeptr s i (d ∷ ds) (c ∷ cs) zero h l = filled-codeptr s i c
fill_defaults-codeptr s i (d ∷ ds) (c ∷ cs) (suc j) h l =
    fill_defaults-codeptr s (i + 1) ds cs j (omega arith) (omega arith)

length-fill_defaults :
    (s : Store) (i : ℕ) (ds : List DomainInfo) (cs : List LexgionTraceConfig)
    → length (fill_defaults s i ds cs) ≡ length cs
unfolding fill_defaults
length-fill_defaults s i [] cs = refl
length-fill_defaults s i (d ∷ ds) [] = refl
length-fill_defaults s i (d ∷ ds) (c ∷ cs) = ap suc (length-fill_defaults s (i + 1) ds cs)

-- A domain that is registered and has its default.
abbrev HasDefault : ℕ → Option Parser → Type 0
HasDefault d none = Unit
HasDefault d (some q) =
    d < length q.store.domain_info_table
    → d < length q.store.table.domain_defaults
    → default_config q.store.table d ≡ domain_default d

default_config_lem :
    (p : Parser) (d : ℕ)
    → d < length p.store.domain_info_table
    → d < length p.store.table.domain_defaults
    → default_config (complete p.store) d ≡ domain_default d
unfolding default_config complete
default_config_lem p d h l =
    rw
      (
        fill_defaults-codeptr p.store 0 p.store.domain_info_table p.store.table.domain_defaults d h
            l,
        default_config,
      )
      refl

-- After a reload that does not crash, every registered domain has a default of its own, whether or
-- not the file has a section for it: a lexgion that no entry selects is traced by its domain's
-- default, never by the global one.
pub default_config-reload :
    (libc : Libc) (lines : Option (List (List ℕ))) (p q : Parser) (d : ℕ)
    → reload libc lines p ≡ some q
    → d < length q.store.domain_info_table
    → d < length q.store.table.domain_defaults
    → default_config q.store.table d ≡ domain_default d
unfolding reload complete
default_config-reload libc lines p q d h i l =
    go (parse_config_file libc lines (with_table prepare p)) h
  where
    go :
        (o : Option Parser)
        → (elim o [ none ↦ none | some r ↦ some (with_table complete r) ]) ≡ some q
        → default_config q.store.table d ≡ domain_default d
    go none e = cc
    go (some r) e =
        subst (λ (o : Option Parser). HasDefault d o) e
          (λ a b. default_config_lem r d a (
            omega (
              arith,
              length-fill_defaults r.store 0 r.store.domain_info_table
                  r.store.table.domain_defaults,
            )))
          i l
