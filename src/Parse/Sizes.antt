-- ===== src/Parse/Sizes.antt =====
-- The tables that the parser writes: how many elements they have before and after. The arrays of
-- the domains keep their size, the table of the lexgions its 512 entries, and the table of the
-- knobs its 64.
pub mod Headers
pub mod Keys
use pinsight.Common.{ℕ, ◌≤◌, List, length, ◌≡◌, refl, arith, ◌∙◌}
use pinsight.Config.Rules.{LexgionTraceConfig, ConfigTable}
use pinsight.Parse.State.{Store, Parser, Outcome, parsed, malformed, crashed}
use pinsight.Parse.Lexgions.Bounds.{Grows, Grows-refl, Grows-trans}

pub record Evolves (s t : Store) : Type 0 where
  pub entries : Grows s.table.entries t.table.entries
  pub infos : length t.domain_info_table ≡ length s.domain_info_table
  pub tracing : length t.domain_trace_config ≡ length s.domain_trace_config
  pub sampling : length t.domain_sampling_config ≡ length s.domain_sampling_config
  pub punits : length t.domain_punit_trace_config ≡ length s.domain_punit_trace_config
  pub knobs_kept : length s.knob_table ≤ length t.knob_table
  pub knobs_bounded : length s.knob_table ≤ 64 → length t.knob_table ≤ 64

pub Evolves-refl : (s : Store) → Evolves s s
Evolves-refl s = record {
  entries = Grows-refl s.table.entries;
  infos = refl;
  tracing = refl;
  sampling = refl;
  punits = refl;
  knobs_kept = omega arith;
  knobs_bounded = λ h. h;
}

pub Evolves-trans : {s t u : Store} → Evolves s t → Evolves t u → Evolves s u
Evolves-trans e f = record {
  entries = Grows-trans e.entries f.entries;
  infos = f.infos ∙ e.infos;
  tracing = f.tracing ∙ e.tracing;
  sampling = f.sampling ∙ e.sampling;
  punits = f.punits ∙ e.punits;
  knobs_kept = omega (arith, e.knobs_kept, f.knobs_kept);
  knobs_bounded = λ h. f.knobs_bounded (e.knobs_bounded h);
}

-- Another table of lexgions.
pub Evolves-table :
    (s : Store) (t : ConfigTable)
    → Grows s.table.entries t.entries
    → Evolves s (record s { table = t })
Evolves-table s t g = record {
  entries = g;
  infos = refl;
  tracing = refl;
  sampling = refl;
  punits = refl;
  knobs_kept = omega arith;
  knobs_bounded = λ h. h;
}

-- The outcome of a line, where it leaves a parser.
abbrev pub OutcomeEvolves : Store → Outcome → Type 0
OutcomeEvolves s (parsed p) = Evolves s p.store
OutcomeEvolves s malformed = Unit
OutcomeEvolves s crashed = Unit
