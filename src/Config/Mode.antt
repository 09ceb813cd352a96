-- ===== src/Config/Mode.antt =====
-- src/trace_config.h: trace modes, node policies and the other enumerations.
use pinsight.Common.{ℕ, Bool, true, false, leb, ◌==◌, List, codes}

-- The ladder OFF < STANDBY < MONITORING < TRACING; `mode_none` is PINSIGHT_TRACE_MODE_NONE.
pub data TraceMode : Type 0 where
  mode_none off standby monitoring tracing : TraceMode

-- The value of the enumerator.
abbrev pub rank : TraceMode → ℕ
rank mode_none = 0
rank off = 1
rank standby = 2
rank monitoring = 3
rank tracing = 4

abbrev pub same_mode : TraceMode → TraceMode → Bool
same_mode a b = rank a == rank b

-- DOMAIN_TRACE_ACTIVE and DOMAIN_TRACE_ALIVE.
abbrev pub is_active : TraceMode → Bool
is_active m = leb (rank monitoring) (rank m)

abbrev pub is_alive : TraceMode → Bool
is_alive m = leb (rank standby) (rank m)

unfoldable pub trace_mode_str : TraceMode → List ℕ
trace_mode_str off = codes "OFF"
trace_mode_str standby = codes "STANDBY"
trace_mode_str monitoring = codes "MONITORING"
trace_mode_str tracing = codes "TRACING"
trace_mode_str mode_none = codes "NONE"

pub data NodePolicy : Type 0 where
  policy_off policy_on anyone_per_node leader_per_node rotate_per_node : NodePolicy

abbrev pub same_policy : NodePolicy → NodePolicy → Bool
same_policy policy_off policy_off = true
same_policy policy_on policy_on = true
same_policy anyone_per_node anyone_per_node = true
same_policy leader_per_node leader_per_node = true
same_policy rotate_per_node rotate_per_node = true
same_policy _ _ = false

pub record NodePolicyVal : Type 0 where
  pub policy : NodePolicy
  pub param : ℕ

pub data SamplingOutput : Type 0 where
  output_record output_profile output_both : SamplingOutput

pub data WindowEndTrigger : Type 0 where
  trigger_first trigger_all trigger_anchor : WindowEndTrigger
