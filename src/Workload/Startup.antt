-- ===== src/Workload/Startup.antt =====
-- `startupPeriod` and `startupFailureThreshold`: the startup probe's budget.
pub mod Budget
use llm_inference_platform.Prelude.Int.{ℤ, pos, quot, ◌+ℤ◌, wrap32}
use llm_inference_platform.Prelude.{ℕ}
use llm_inference_platform.V1alpha1.{InferenceService}

abbrev pub startup_period : ℕ
startup_period = 10

-- `WeightLoadSeconds/startupPeriod + 1` on `int32`.
unfoldable pub startup_failure_threshold : InferenceService → ℤ
startup_failure_threshold svc = wrap32 (quot svc.spec.weight_load_seconds startup_period +ℤ pos 1)
