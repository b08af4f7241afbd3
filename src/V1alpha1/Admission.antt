-- ===== src/V1alpha1/Admission.antt =====
-- The validation markers of `InferenceServiceSpec`: the rules that the API server evaluates on every
-- write. A string that is left out is the empty string in the Go value.
use llm_inference_platform.Prelude.{
  String, ◌≡◌, ◌⊎◌, Bool, not, ◌||◌, Option, none, some, List, [], ◌∷◌, ◌==◌, if◌then◌else◌,
}
use llm_inference_platform.Prelude.Int.{ltb_ℤ}
use llm_inference_platform.Prelude.Lists.{first}
use llm_inference_platform.V1alpha1.{
  InferenceServiceSpec, classification_restricted, backend_vllm, backend_ollama,
}

pub record ValidationRule : Type 0 where
  pub holds : InferenceServiceSpec → Bool
  pub message : String

-- `has(self.deviceClass) && size(self.deviceClass) > 0`
abbrev pub has_device_class : InferenceServiceSpec → Bool
has_device_class s = not (s.device_class == "")

abbrev has_min_device_memory : InferenceServiceSpec → Bool
has_min_device_memory s = elim s.min_device_memory [ none ↦ Bool.false | some _ ↦ Bool.true ]

-- The rules on placement, in the order of the markers.
abbrev pub placement_rules : List ValidationRule
placement_rules =
    record {
      holds = λ s. not (s.classification == classification_restricted) || has_device_class s;
      message = "Restricted classification requires an explicit deviceClass";
    }
    ∷ record {
      holds = λ s.
          not (s.backend == backend_ollama) || not (s.classification == classification_restricted);
      message = "Ollama backend is not approved for Restricted data";
    }
    ∷ record {
      holds = λ s. not (s.backend == backend_vllm) || has_device_class s;
      message =
          "vLLM backend requires a deviceClass: the vLLM image is built for CUDA and does not serve on CPU";
    }
    ∷ []

-- The rules that follow them.
abbrev pub further_rules : List ValidationRule
further_rules =
    record {
      holds = λ s. not (has_min_device_memory s) || has_device_class s;
      message = "minDeviceMemory only applies with a deviceClass";
    }
    ∷ record {
      holds = λ s. not (ltb_ℤ s.autoscaling.max_replicas s.autoscaling.min_replicas);
      message = "maxReplicas must be >= minReplicas";
    }
    ∷ []

-- The message of the first rule that a spec breaks.
unfoldable pub first_violation : List ValidationRule → InferenceServiceSpec → Option String
unfolding first
first_violation rules s = first (λ r. if r.holds s then none else some r.message) rules

-- `Enum=vLLM;Ollama` on the backend.
abbrev pub IsBackend : InferenceServiceSpec → Type 0
IsBackend s = (s.backend ≡ backend_vllm) ⊎ (s.backend ≡ backend_ollama)
