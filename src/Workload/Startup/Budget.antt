-- ===== src/Workload/Startup/Budget.antt =====
-- The startup probe waits out the weight load (docs/adr/0002-startup-probe-for-weight-loading.md).
use llm_inference_platform.Prelude.{ℕ, ◌/◌, ◌+◌, ◌*◌, ◌^◌, ◌<◌, ◌≤◌, ◌≡◌, arith}
use llm_inference_platform.Prelude.Int.{pos}
use llm_inference_platform.V1alpha1.{InferenceService}
use llm_inference_platform.Workload.Startup.{startup_period, startup_failure_threshold}

abbrev pub IsBudget : InferenceService → ℕ → ℕ → Type 0
IsBudget svc n t =
    (startup_failure_threshold svc ≡ pos t)
    × (t < 2 ^ 31)
    × (n < t * startup_period)
    × (t * startup_period ≤ n + 10)

-- For a weight-load time from 0 up to the largest `int32`, the threshold does not overflow, and the
-- seconds that the startup probe allows are more than the weight-load time, by ten at most.
pub startup_failure_threshold-IsBudget :
    (svc : InferenceService) (n : ℕ)
    → svc.spec.weight_load_seconds ≡ pos n
    → n < 2 ^ 31
    → (t : ℕ) × IsBudget svc n t
unfolding startup_failure_threshold
startup_failure_threshold-IsBudget svc n e h =
    (n / 10 + 1, (ground arith, omega arith, omega arith, omega arith))
