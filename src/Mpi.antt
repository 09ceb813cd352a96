-- ===== src/Mpi.antt =====
-- src/pmpi_mpi.c: what every MPI wrapper does before and after it calls MPI. The mode of the
-- domain is volatile: each reading of it is an argument. `event_name` is the name of an event of
-- the domain, `matches` is domain_punit_set_match.
use pinsight.Common.{
  ℕ, Bool, true, false, ◌&&◌, Option, none, some, List, get_elem?, modify, ◌==◌, if◌then◌else◌, ◌≡◌,
  refl,
}
use pinsight.Config.Mode.{TraceMode, tracing, same_mode, is_active}
use pinsight.Config.Domain.{DomainPunitSet}
use pinsight.Config.Rules.{ConfigTable}
use pinsight.Lexgion.{Lexgion, ThreadData, u32_max}
use pinsight.Lexgion.Stack.{lexgion_end_match, deref}
use pinsight.Lexgion.Table.{find_lexgion, lexgion_begin}
use pinsight.Lexgion.Table.Counts.{lexgion_begin-full}
use pinsight.Lexgion.Rate.{set_top_trace_bit_domain_event}
use pinsight.Control.{Process}
use pinsight.Control.Fire.{post_trace_update}

-- The wrapper goes on with its `lgp`, having emitted the begin event or not; or it has followed a
-- null pointer.
pub data Prologue : Type 0 where
  entered : Option ℕ → Bool → ThreadData → Prologue
  fault : Prologue

-- The name of a lexgion, once per call site and reload.
unfoldable pub resolve_name : (ℕ → Option (List ℕ)) → ConfigTable → Lexgion → Lexgion
resolve_name event_name table lg =
    if lg.name_resolved_gen == table.config_change_counter then lg else record lg {
      name = event_name lg.type;
      filename_hint = none;
      name_resolved_gen = table.config_change_counter;
      config_change_counter = u32_max;
    }

abbrev pub lgp_of : ThreadData → Option ℕ → Option ℕ
lgp_of td r = elim (deref td r) [ none ↦ none | some x ↦ x.lgp ]

abbrev pub update_at : Option ℕ → (Lexgion → Lexgion) → ThreadData → ThreadData
update_at none f td = td
update_at (some i) f td = record td { lexgions = modify td.lexgions i f }

abbrev pub bit_of : ThreadData → ℕ → Bool
bit_of td i = elim (get_elem? td.lexgions i) [ none ↦ false | some lg ↦ lg.trace_bit ]

-- The rate decision in TRACING mode; it follows `lgp` without a test.
unfoldable pub decide :
    (List DomainPunitSet → Bool) → ConfigTable → ℕ → ℕ → Option ℕ → ThreadData → Prologue
unfolding set_top_trace_bit_domain_event
decide matches table domain func none td = fault
decide matches table domain func (some i) td =
    let td' = update_at (some i) (set_top_trace_bit_domain_event matches table domain func) td in
    entered (some i) (bit_of td' i) td'

-- The prologue from the result of lexgion_begin on.
unfoldable pub begun :
    (ℕ → Option (List ℕ))
    → (List DomainPunitSet → Bool)
    → ConfigTable
    → ℕ
    → ℕ
    → TraceMode
    → ThreadData × Option ℕ
    → Prologue
unfolding resolve_name decide
begun event_name matches table domain func mode' (td, r) =
    let lgp = lgp_of td r in
    let named = update_at lgp (resolve_name event_name table) td in
    if same_mode mode' tracing
    then decide matches table domain func lgp named
    else entered lgp false named

-- PMPI_CALL_PROLOGUE, after the pause; `mpi` is the class MPI_LEXGION.
unfoldable pub call_prologue :
    (ℕ → Option (List ℕ))
    → (List DomainPunitSet → Bool)
    → ConfigTable
    → ℕ
    → ℕ
    → ℕ
    → ℕ
    → ℕ
    → ℕ
    → TraceMode
    → TraceMode
    → ThreadData
    → Prologue
unfolding lexgion_begin begun
call_prologue event_name matches table max_num_lexgions max_depth domain mpi func codeptr mode mode'
      td =
    if is_active mode
    then begun event_name matches table domain func mode'
        (lexgion_begin max_num_lexgions max_depth mpi func codeptr td)
    else entered none false td

abbrev pub with_end : ℕ → Lexgion → Lexgion
with_end codeptr lg = record lg { end_codeptr_ra = codeptr }

-- PMPI_CALL_EPILOGUE.
unfoldable pub call_epilogue :
    ℕ → TraceMode → Option ℕ → ThreadData → Process → ThreadData × Process
unfolding lexgion_end_match post_trace_update
call_epilogue codeptr mode none td p = (td, p)
call_epilogue codeptr mode (some i) td p =
    let td' = update_at (some i) (with_end codeptr) (lexgion_end_match codeptr td).0 in
    if same_mode mode tracing && bit_of td' i then post_trace_update i td' p else (td', p)

-- In TRACING mode, with the lexgion table full and the call site not in it, the prologue of an MPI
-- wrapper follows a null pointer. In MONITORING mode the same wrapper goes on without a lexgion,
-- and its epilogue changes nothing.
pub call_prologue-full :
    (event_name : ℕ → Option (List ℕ)) (matches : List DomainPunitSet → Bool)
    (max max_depth domain mpi func codeptr : ℕ) (mode : TraceMode) (td : ThreadData) (p : Process)
    → is_active mode ≡ true
    → td.num_lexgions ≡ max
    → find_lexgion mpi func codeptr td ≡ none
    → let call =
        call_prologue event_name matches p.table max max_depth domain mpi func codeptr mode in
      (call tracing td ≡ fault)
      × ((mode' : TraceMode)
          → same_mode mode' tracing ≡ false
          → call mode' td ≡ entered none false td)
      × (call_epilogue codeptr mode none td p ≡ (td, p))
unfolding call_prologue begun decide call_epilogue
call_prologue-full event_name matches max max_depth domain mpi func codeptr mode td p a full
      missing =
    let e = lexgion_begin-full max max_depth mpi func codeptr td full missing in
    (rw (a, call_prologue, e) refl, λ mode' m. rw (a, call_prologue, e, m) refl, refl)
