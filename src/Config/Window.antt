-- ===== src/Config/Window.antt =====
-- src/trace_config.h: the action that ends a tracing window.
use pinsight.Common.{ℕ, Bool, List}
use pinsight.Common.Int.{ℤ}
use pinsight.Config.Mode.{TraceMode, NodePolicyVal, WindowEndTrigger}

-- Per domain: the target mode, and the optional targets of the node policy `device_activity` and
-- of the sampling interval. `fired` is the latch of the cycle and `generation` an unsigned int.
pub record WindowEndAction : Type 0 where
  pub mode : List TraceMode
  pub introspect : Bool
  pub introspect_pause_duration : ℤ
  pub introspect_script : List ℕ
  pub fired : Bool
  pub generation : ℕ
  pub trigger : WindowEndTrigger
  pub window_timeout_sec : ℤ
  pub np_target : List NodePolicyVal
  pub np_set : List Bool
  pub sampling_target : List ℕ
  pub sampling_set : List Bool
