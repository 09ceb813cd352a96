-- ===== src/Parse/Punits.antt =====
-- src/trace_config_parse.c: parse_punit_set_string and find_exact_punit_config. The bounds that a
-- domain declares for its punits are not negative here.
pub mod Laws
pub mod Rounds
use pinsight.Common.{
  ℕ, zero, suc, ◌+◌, ◌-◌, Bool, true, false, not, ◌&&◌, ◌||◌, Option, none, some, List, [], ◌∷◌,
  length, get_elem?, modify, ltb, leb, ◌==◌, if◌then◌else◌, is_space, skip_spaces, ◌>>=◌,
}
use pinsight.BitSet.{BitSet, init, test, clear_bit}
use pinsight.BitSet.Ranges.{parse_ranges}
use pinsight.BitSet.Scan.{equal}
use pinsight.Config.Domain.{Punit, DomainInfo, PunitSet, DomainPunitSet, PunitTraceConfig}
use pinsight.Node.{take}
use pinsight.Parse.State.{find_domain_index, find_punit_kind_index, punits_at}
use pinsight.Parse.Text.{before, behind}

unfoldable pub skip_dots : List ℕ → List ℕ
skip_dots [] = []
skip_dots (c ∷ s) = let rest = skip_dots s in if (c == 46) || is_space c then rest else c ∷ s

-- The body of the loop over k: an id out of the range of its kind is taken out of the set.
unfoldable pub check_id : ℕ → ℕ → BitSet → ℕ → BitSet
unfolding test clear_bit
check_id low high bs k = if test bs k && (ltb k low || ltb high k) then clear_bit bs k else bs

unfoldable pub restrict : ℕ → ℕ → BitSet → ℕ → ℕ → BitSet
unfolding check_id
restrict low high bs k zero = bs
restrict low high bs k (suc left) = restrict low high (check_id low high bs k) (k + 1) left

abbrev pub max_bits : ℕ
max_bits = 1024

-- The set of one kind before its ranges are read; calloc has memory.
abbrev pub opened : PunitSet → BitSet
unfolding init
opened s = if s.is_set then s.punit_ids else init max_bits true

abbrev pub checked : Punit → BitSet × Bool → BitSet
unfolding restrict
checked p (bs, false) = bs
checked p (bs, true) = restrict p.low p.high bs 0 max_bits

-- The element of one kind, with the ranges of the text.
unfoldable pub read_ids : Punit → List ℕ → PunitSet → PunitSet
unfolding parse_ranges init restrict
read_ids p text s = record { is_set = true; punit_ids = checked p (parse_ranges (opened s) text) }

-- Whether the ranges of the text are well-formed.
unfoldable pub ids_valid : List ℕ → PunitSet → Bool
unfolding parse_ranges init
ids_valid text s = (parse_ranges (opened s) text).1

abbrev pub store_ids : ℕ → Punit → List ℕ → DomainPunitSet → DomainPunitSet
unfolding read_ids
store_ids k p text ds = record { is_set = true; punit = modify ds.punit k (read_ids p text) }

abbrev pub kind_at : List DomainPunitSet → ℕ → ℕ → Option PunitSet
kind_at sets d k = elim (get_elem? sets d) [ none ↦ none | some ds ↦ get_elem? ds.punit k ]

-- The ranges `text` of one kind, where its names are known; false is the return of -1.
unfoldable pub store_kind :
    List DomainInfo
    → Option ℕ
    → Option ℕ
    → List ℕ
    → List DomainPunitSet
    → List DomainPunitSet × Bool
unfolding read_ids ids_valid
store_kind infos (some d) (some k) text sets = elim (get_elem? (punits_at infos d) k) [
  | none ↦ (sets, true)
  | some p ↦ (
    modify sets d (store_ids k p text),
    elim (kind_at sets d k) [ none ↦ true | some s ↦ ids_valid text s ],
  )
]
store_kind infos _ _ text sets = (sets, true)

-- `Domain.kind(ids)`, with the text behind the parenthesis.
pub record KindSpec : Type 0 where
  pub domain : List ℕ
  pub kind : List ℕ
  pub ids : List ℕ
  pub rest : List ℕ

unfoldable pub kind_spec : List ℕ → Option KindSpec
unfolding before behind
kind_spec s = do
  t ← behind 46 s
  u ← behind 40 t
  rest ← behind 41 u
  some (record {
    domain = take 31 (before 46 s);
    kind = take 31 (before 40 t);
    ids = before 41 u;
    rest = rest;
  })

abbrev kind_index : List DomainInfo → Option ℕ → List ℕ → Option ℕ
kind_index infos none name = none
kind_index infos (some d) name = find_punit_kind_index infos d name

unfoldable pub store_spec :
    List DomainInfo → KindSpec → List DomainPunitSet → List DomainPunitSet × Bool
unfolding store_kind
store_spec infos s sets =
    let d = find_domain_index infos s.domain in
    store_kind infos d (kind_index infos d s.kind) s.ids sets

-- The sets, the buffer as the call leaves it, and whether it returns 0. A buffer whose ranges are
-- malformed stays cut at their closing parenthesis.
pub record PunitsRead : Type 0 where
  pub sets : List DomainPunitSet
  pub text : List ℕ
  pub valid : Bool

-- The character behind a specification.
pub data Behind : Type 0 where
  at_end garbage : Behind
  at_comma : List ℕ → Behind

abbrev behind_spec : List ℕ → Behind
behind_spec [] = at_end
behind_spec (c ∷ s) = if c == 44 then at_comma s else garbage

-- What one specification leaves: the result, or the text behind its comma.
pub data PunitStep : Type 0 where
  finished : PunitsRead → PunitStep
  next : List ℕ → List DomainPunitSet → PunitStep

abbrev pub step_behind : List ℕ → List DomainPunitSet → Behind → PunitStep
step_behind spec sets at_end = finished (record { sets = sets; text = spec; valid = true })
step_behind spec sets garbage = finished (record { sets = sets; text = spec; valid = false })
step_behind spec sets (at_comma rest) = next rest sets

abbrev pub step_stored : List ℕ → KindSpec → List DomainPunitSet × Bool → PunitStep
step_stored spec k (sets, false) =
    finished
      (record { sets = sets; text = take (length spec - (length k.rest + 1)) spec; valid = false })
step_stored spec k (sets, true) = step_behind spec sets (behind_spec (skip_spaces k.rest))

abbrev pub step_spec : List DomainInfo → List ℕ → List DomainPunitSet → Option KindSpec → PunitStep
unfolding store_spec
step_spec infos spec sets none = finished (record { sets = sets; text = spec; valid = false })
step_spec infos spec sets (some k) = step_stored spec k (store_spec infos k sets)

abbrev pub step_at : List DomainInfo → List ℕ → List DomainPunitSet → List ℕ → PunitStep
unfolding store_spec kind_spec
step_at infos spec sets [] = finished (record { sets = sets; text = spec; valid = true })
step_at infos spec sets (c ∷ t) = step_spec infos spec sets (kind_spec (c ∷ t))

-- The body of the loop; `spec` is all of the buffer.
unfoldable pub punit_step : List DomainInfo → List ℕ → List ℕ → List DomainPunitSet → PunitStep
unfolding skip_dots kind_spec store_spec
punit_step infos spec s sets = step_at infos spec sets (skip_dots s)

-- The loop, with a number of rounds; without one left it gives what it has.
unfoldable pub punit_rounds :
    ℕ → List DomainInfo → List ℕ → List ℕ → List DomainPunitSet → PunitsRead
unfolding punit_step
punit_rounds zero infos spec s sets = record { sets = sets; text = spec; valid = false }
punit_rounds (suc rounds) infos spec s sets = elim (punit_step infos spec s sets) [
  | finished r ↦ r
  | next rest sets' ↦ punit_rounds rounds infos spec rest sets'
]

-- A round takes at least one character.
unfoldable pub parse_punit_set_string : List DomainInfo → List ℕ → List DomainPunitSet → PunitsRead
unfolding punit_rounds
parse_punit_set_string infos spec sets = punit_rounds (length spec + 1) infos spec spec sets

same_flag : Bool → Bool → Bool
same_flag true b = b
same_flag false b = not b

-- The loop over the kinds.
unfoldable pub same_kinds : List PunitSet → List PunitSet → Bool
unfolding equal same_flag
same_kinds [] _ = true
same_kinds (_ ∷ _) [] = true
same_kinds (a ∷ more) (b ∷ others) =
    same_flag a.is_set b.is_set
    && (if a.is_set then equal a.punit_ids b.punit_ids else true)
    && same_kinds more others

-- Element d of the configuration against element d of the target; an element behind the end of
-- the target, which the source reads too, counts as not set.
unfoldable pub same_punits : ℕ → List DomainPunitSet → PunitTraceConfig → Bool
unfolding same_kinds
same_punits d target c = elim (get_elem? c.domain_punits d) [
  | none ↦ false
  | some a ↦ elim (get_elem? target d) [
    | none ↦ false
    | some b ↦ a.is_set && b.is_set && same_kinds a.punit b.punit
  ]
]

unfoldable pub exact_from : ℕ → List DomainPunitSet → List PunitTraceConfig → ℕ → Option ℕ
unfolding same_punits
exact_from d target [] i = none
exact_from d target (c ∷ cs) i =
    let rest = exact_from d target cs (i + 1) in if same_punits d target c then some i else rest

-- The index in the list of domain d; `target` is the array from the address that was passed.
unfoldable pub find_exact_punit_config : List PunitTraceConfig → ℕ → List DomainPunitSet → Option ℕ
unfolding exact_from
find_exact_punit_config configs d target = exact_from d target configs 0
