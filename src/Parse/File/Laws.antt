-- ===== src/Parse/File/Laws.antt =====
-- What reading a file does, line after line.
use pinsight.Common.{ℕ, Option, none, some, List, [], ◌∷◌, ◌++◌, ◌==◌, ◌≡◌, refl, both_branches}
use pinsight.Parse.State.{Store, Parser, Libc, Outcome, parsed, malformed, crashed}
use pinsight.Parse.Text.{trim_whitespace}
use pinsight.Parse.File.{trimmed_line, process_line, process_lines, parse_config_file, fresh}
use pinsight.Parse.Sizes.{Evolves, Evolves-refl, Evolves-trans, OutcomeEvolves}
use pinsight.Parse.Sizes.Headers.{parse_section_header-OutcomeEvolves}
use pinsight.Parse.Sizes.Keys.{parse_key_value-Evolves}

trimmed_line-OutcomeEvolves :
    (libc : Libc) (p : Parser) (line : List ℕ) → OutcomeEvolves p.store (trimmed_line libc p line)
unfolding trimmed_line
trimmed_line-OutcomeEvolves libc p [] = Evolves-refl p.store
trimmed_line-OutcomeEvolves libc p (c ∷ s) =
    both_branches (OutcomeEvolves p.store) (c == 35) (Evolves-refl p.store) (
      both_branches (OutcomeEvolves p.store) (c == 91)
        (parse_section_header-OutcomeEvolves p (c ∷ s)) (parse_key_value-Evolves libc p (c ∷ s)))

-- The parser behind the lines, where there is one.
abbrev pub ParserEvolves : Store → Option Parser → Type 0
ParserEvolves s none = Unit
ParserEvolves s (some p) = Evolves s p.store

ParserEvolves-trans :
    (s t : Store) (o : Option Parser) → Evolves s t → ParserEvolves t o → ParserEvolves s o
ParserEvolves-trans s t none e f = tt
ParserEvolves-trans s t (some p) e f = Evolves-trans e f

continued :
    (libc : Libc) (p : Parser) (lines : List (List ℕ)) (o : Outcome)
    → OutcomeEvolves p.store o
    → ((q : Parser) → ParserEvolves q.store (process_lines libc q lines))
    → ParserEvolves p.store
        (elim o [ parsed q ↦ process_lines libc q lines | malformed ↦ some p | crashed ↦ none ])
continued libc p lines (parsed q) e h =
    ParserEvolves-trans p.store q.store (process_lines libc q lines) e (h q)
continued libc p lines malformed e h = Evolves-refl p.store
continued libc p lines crashed e h = tt

process_lines-ParserEvolves :
    (libc : Libc) (lines : List (List ℕ)) (p : Parser)
    → ParserEvolves p.store (process_lines libc p lines)
unfolding process_lines process_line
process_lines-ParserEvolves libc [] p = Evolves-refl p.store
process_lines-ParserEvolves libc (line ∷ lines) p =
    continued libc p lines (process_line libc p line)
      (trimmed_line-OutcomeEvolves libc p (trim_whitespace line))
      (λ q. process_lines-ParserEvolves libc lines q)

-- Whatever the file holds, its reading keeps the sizes of the arrays of the domains, never makes the
-- table of lexgions or of knobs shorter, and leaves these with at most 512 and 64 entries where
-- they had no more.
pub parse_config_file-ParserEvolves :
    (libc : Libc) (lines : Option (List (List ℕ))) (p : Parser)
    → ParserEvolves p.store (parse_config_file libc lines p)
unfolding parse_config_file fresh
parse_config_file-ParserEvolves libc none p = Evolves-refl p.store
parse_config_file-ParserEvolves libc (some lines) p =
    process_lines-ParserEvolves libc lines (fresh p)

-- The lines xs take the parser p to q, none of them malformed.
pub data Runs (libc : Libc) : Parser → List (List ℕ) → Parser → Type 0 where
  done : (p : Parser) → Runs libc p [] p
  next :
      (p q r : Parser) (line : List ℕ) (xs : List (List ℕ))
      → process_line libc p line ≡ parsed q
      → Runs libc q xs r
      → Runs libc p (line ∷ xs) r

-- The first malformed line ends the reading: what the lines before it did stays, the line itself
-- does nothing, and the lines behind it are not read.
pub process_lines-malformed :
    (libc : Libc) (p q : Parser) (xs ys : List (List ℕ)) (line : List ℕ)
    → Runs libc p xs q
    → process_line libc q line ≡ malformed
    → process_lines libc p (xs ++ line ∷ ys) ≡ some q
unfolding process_lines
process_lines-malformed libc _ _ _ ys line (done p) h = rw (h, process_lines) refl
process_lines-malformed libc _ _ _ ys line (next p r q x xs e runs) h =
    rw (e, process_lines) (process_lines-malformed libc r q xs ys line runs h)
