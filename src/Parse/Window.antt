-- ===== src/Parse/Window.antt =====
-- src/trace_config_parse.c: parse_trace_mode_value and parse_window_end_action.
use pinsight.Common.{
  ℕ, zero, suc, ◌==◌, Bool, true, false, ◌||◌, Option, none, some, List, [], ◌∷◌, set, length,
  if◌then◌else◌, codes, str_case_eq, starts_with_case,
}
use pinsight.Common.Int.{ℤ, pos, negsuc}
use pinsight.Config.Mode.{TraceMode, NodePolicyVal, off, standby, monitoring, tracing, policy_off}
use pinsight.Config.Domain.{DomainInfo}
use pinsight.Config.Window.{WindowEndAction}
use pinsight.Control.Apply.{get_nodepolicy_index}
use pinsight.Node.{take}
use pinsight.Node.Policy.{parse_nodepolicy}
use pinsight.Parse.State.{find_domain_index}
use pinsight.Parse.Text.{
  drop, skip_blank, cut_blanks, before, behind, tokens, Scanned, strtol, whole, to_uint, to_int,
}

unfoldable pub parse_trace_mode_value : List ℕ → TraceMode
parse_trace_mode_value val =
    if str_case_eq val (codes "OFF")
    then off
    else if str_case_eq val (codes "STANDBY")
    then standby
    else if str_case_eq val (codes "MONITORING") || str_case_eq val (codes "MONITOR")
    then monitoring
    else tracing

abbrev set_sampling : ℕ → Option ℤ → WindowEndAction → WindowEndAction
set_sampling d none out = out
set_sampling d (some (negsuc n)) out = out
set_sampling d (some (pos n)) out = record out {
  sampling_target = set out.sampling_target d (to_uint (pos n));
  sampling_set = set out.sampling_set d true;
}

abbrev set_activity : ℕ → Option ℕ → NodePolicyVal → WindowEndAction → WindowEndAction
set_activity d none v out = out
set_activity d (some k) v out = record out {
  np_target = set out.np_target d v;
  np_set = set out.np_set d true;
}

-- The value of `<domain>:<value>`, for a domain that is registered.
unfoldable pub set_target : List DomainInfo → ℕ → List ℕ → WindowEndAction → WindowEndAction
unfolding parse_trace_mode_value
set_target infos d ms out =
    if starts_with_case ms (codes "device_activity=")
    then set_activity d (get_nodepolicy_index infos (length infos) d (codes "device_activity"))
        (parse_nodepolicy (some (drop 16 ms)) policy_off) out
    else if starts_with_case ms (codes "sampling=")
    then set_sampling d (whole (strtol 10 (drop 9 ms))) out
    else record out { mode = set out.mode d (parse_trace_mode_value ms) }

-- The first n elements.
unfoldable pub set_first : ℕ → TraceMode → List TraceMode → List TraceMode
set_first zero m ms = ms
set_first (suc n) m [] = []
set_first (suc n) m (_ ∷ ms) = m ∷ set_first n m ms

-- One piece of the mode list, without the blanks before it.
unfoldable pub parse_token : List DomainInfo → List ℕ → WindowEndAction → WindowEndAction
unfolding parse_trace_mode_value set_target set_first
parse_token infos token out = elim (behind 58 token) [
  | some rest ↦ elim (find_domain_index infos (cut_blanks (before 58 token))) [
    | none ↦ out
    | some d ↦ set_target infos d (skip_blank rest) out
  ]
  | none ↦ record out {
    mode = set_first (length infos) (parse_trace_mode_value (cut_blanks token)) out.mode;
  }
]

unfoldable pub parse_tokens : List DomainInfo → List (List ℕ) → WindowEndAction → WindowEndAction
unfolding parse_token
parse_tokens infos [] out = out
parse_tokens infos (t ∷ ts) out = parse_tokens infos ts (parse_token infos (skip_blank t) out)

-- `mode_str`, where NULL is `none`.
abbrev parse_modes : List DomainInfo → Option (List ℕ) → WindowEndAction → WindowEndAction
unfolding parse_tokens
parse_modes infos none out = out
parse_modes infos (some s) out = parse_tokens infos (tokens 44 (take 1023 s)) out

-- The number at the start of a text and what follows it; 0 and the text itself without one.
abbrev scanned : List ℕ → Option Scanned → Scanned
scanned s none = record { number = pos 0; rest = s }
scanned s (some t) = t

abbrev with_pause : ℤ → WindowEndAction → WindowEndAction
with_pause timeout out = record out {
  introspect = true;
  introspect_pause_duration = to_int timeout;
}

-- The script with the modes behind it, from the text behind the timeout; false is the result -1.
abbrev parse_script : List DomainInfo → List ℕ → WindowEndAction → WindowEndAction × Bool
parse_script infos [] out = (out, false)
parse_script infos (c ∷ p) out = elim (c == 58) [
  | false ↦ (out, false)
  | true ↦ (
    parse_modes infos (behind 58 p) (record out { introspect_script = take 255 (before 58 p) }),
    true,
  )
]

unfoldable pub parse_introspect :
    List DomainInfo → List ℕ → WindowEndAction → WindowEndAction × Bool
unfolding parse_tokens
parse_introspect infos p out =
    let t = scanned p (strtol 10 p) in parse_script infos t.rest (with_pause t.number out)

unfoldable pub parse_window_end_action :
    List DomainInfo → List ℕ → WindowEndAction → WindowEndAction × Bool
unfolding parse_introspect parse_tokens
parse_window_end_action infos val out =
    if starts_with_case val (codes "INTROSPECT:")
    then parse_introspect infos (drop 11 val) out
    else (parse_modes infos (some val) out, true)
