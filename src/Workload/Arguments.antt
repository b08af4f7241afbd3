-- ===== src/Workload/Arguments.antt =====
-- The numbers on the vLLM command line and in the scaling triggers, as their readers take them.
use llm_inference_platform.Prelude.{ℕ, String, ◌≡◌, ◌∙◌, refl, ap, Option, none, some, List}
use llm_inference_platform.Prelude.Int.{pos}
use llm_inference_platform.Prelude.Fmt.{sprint, sprint_hundredths}
use llm_inference_platform.Prelude.Fmt.Reading.{
  read_nat, read_hundredths, read_nat-sprint_nat, read_hundredths-sprint_hundredths,
}
use llm_inference_platform.V1alpha1.{InferenceService}
use llm_inference_platform.Workload.Containers.{vllm_container}
use llm_inference_platform.Workload.Ports.{flag_value, flags}

-- The value behind a flag, as a reader takes it.
abbrev pub read_flag : (String → Option ℕ) → String → List String → Option ℕ
read_flag read flag args = elim (flag_value flag args) [ none ↦ none | some t ↦ read t ]

sprint-read : (n : ℕ) → read_nat (sprint (pos n)) ≡ some n
unfolding sprint
sprint-read n = read_nat-sprint_nat n

-- For a context length and a percent that are not negative, the vLLM server reads back from its command
-- line the context length of the spec and, of two digits behind the point, the percent of the device
-- memory that it may use; its name is the service's, and its port a number.
pub vllm_container-reads :
    (svc : InferenceService) (length percent : ℕ)
    → svc.spec.max_model_len ≡ pos length
    → svc.spec.gpu_memory_utilization ≡ pos percent
    → let args = flags (vllm_container svc).args in
      (read_flag read_nat "--max-model-len" args ≡ some length)
      × (read_flag read_hundredths "--gpu-memory-utilization" args ≡ some percent)
      × (read_flag read_nat "--port" args ≡ some 8000)
      × (flag_value "--served-model-name" args ≡ some svc.name)
unfolding vllm_container
vllm_container-reads svc length percent l p = (
  ap (λ z. read_nat (sprint z)) l ∙ sprint-read length,
  ap (λ z. read_hundredths (sprint_hundredths z)) p ∙ read_hundredths-sprint_hundredths percent,
  sprint-read 8000,
  refl,
)
