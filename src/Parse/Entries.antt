-- ===== src/Parse/Entries.antt =====
-- src/trace_config_parse.c: the entries of the lexgion configuration table that a section names,
-- found or created.
pub mod Laws
use pinsight.Common.{
  ℕ, zero, suc, Bool, true, false, not, ◌&&◌, Option, none, some, List, [], ◌∷◌, ◌++◌, length,
  modify, leb, ◌==◌, if◌then◌else◌, str_eq,
}
use pinsight.Common.Int.{ℤ, pos, negsuc}
use pinsight.Config.Rules.{LexgionTraceConfig, ConfigTable}
use pinsight.Lexgion.Resolve.{first_entry, is_empty}
use pinsight.Node.{take}

abbrev pub max_num_lexgions : ℕ
max_num_lexgions = 512

-- A pointer to an entry is its index, and NULL is `none`.
unfoldable pub alloc_lexgion_config : ConfigTable → ConfigTable × Option ℕ
alloc_lexgion_config table =
    if leb max_num_lexgions (length table.entries) then (table, none) else (
      record table {
        entries = table.entries ++ record table.lexgion_default { removed = false } ∷ [];
      },
      some (length table.entries),
    )

-- A write to an entry, where there is one.
abbrev pub write_entry :
    (LexgionTraceConfig → LexgionTraceConfig) → ConfigTable × Option ℕ → ConfigTable × Option ℕ
write_entry f (table, none) = (table, none)
write_entry f (table, some i) = (record table { entries = modify table.entries i f }, some i)

abbrev pub has_codeptr : ℕ → LexgionTraceConfig → Bool
has_codeptr codeptr c = c.codeptr == codeptr

abbrev pub with_codeptr : ℕ → LexgionTraceConfig → LexgionTraceConfig
with_codeptr codeptr c = record c { codeptr = codeptr }

unfoldable pub get_or_create_address_lexgion_config : ConfigTable → ℕ → ConfigTable × Option ℕ
unfolding first_entry alloc_lexgion_config
get_or_create_address_lexgion_config table codeptr =
    elim (first_entry (has_codeptr codeptr) table.entries) [
      | some i ↦ (table, some i)
      | none ↦ write_entry (with_codeptr codeptr) (alloc_lexgion_config table)
    ]

abbrev pub same_int : ℤ → ℤ → Bool
same_int (pos m) (pos n) = m == n
same_int (negsuc m) (negsuc n) = m == n
same_int _ _ = false

unfoldable pub has_name : ℤ → List ℕ → LexgionTraceConfig → Bool
has_name domain name c =
    (c.codeptr == 0)
    && not (is_empty c.name)
    && same_int c.domain_index domain
    && str_eq c.name name

abbrev pub with_hint : List ℕ → LexgionTraceConfig → LexgionTraceConfig
with_hint [] c = c
with_hint (d ∷ hint) c = record c { filename_hint = take 63 (d ∷ hint) }

abbrev pub hint_of : Option (List ℕ) → List ℕ
hint_of none = []
hint_of (some hint) = hint

unfoldable pub named_config : ℤ → List ℕ → Option (List ℕ) → LexgionTraceConfig → LexgionTraceConfig
named_config domain name hint c = record (with_hint (hint_of hint) c) {
  codeptr = 0;
  name = take 127 name;
  domain_index = domain;
}

abbrev pub restored : LexgionTraceConfig → LexgionTraceConfig
restored c = record c { removed = false }

unfoldable pub get_or_create_named_lexgion_config :
    ConfigTable → ℤ → List ℕ → Option (List ℕ) → ConfigTable × Option ℕ
unfolding first_entry alloc_lexgion_config named_config has_name
get_or_create_named_lexgion_config table domain name hint =
    if is_empty name
    then (table, none)
    else elim (first_entry (has_name domain name) table.entries) [
      | some i ↦ write_entry restored (table, some i)
      | none ↦ write_entry (named_config domain name hint) (alloc_lexgion_config table)
    ]
