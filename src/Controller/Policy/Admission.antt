-- ===== src/Controller/Policy/Admission.antt =====
-- The operator's own policy check against the rules that the API server evaluates.
use llm_inference_platform.Prelude.{
  String, ◌≡◌, ◌≢◌, ◌↔◌, ◌⊎◌, eq_iff, arith, none, some, Option, inl, inr,
}
use llm_inference_platform.V1alpha1.{
  InferenceService, InferenceServiceSpec, classification_restricted, backend_ollama,
}
use llm_inference_platform.V1alpha1.Admission.{placement_rules, first_violation, IsBackend}
use llm_inference_platform.Controller.Policy.{
  policy_violation, needs_device_class, not_approved, needs_cuda,
}

abbrev pub message_or_empty : Option String → String
message_or_empty none = ""
message_or_empty (some m) = m

-- Restricted data has a device class and is not on Ollama; all but Ollama has a device class.
abbrev pub IsPlaced : InferenceServiceSpec → Type 0
IsPlaced s =
    ((s.classification ≢ classification_restricted)
      ⊎ ((s.device_class ≢ "") × (s.backend ≢ backend_ollama)))
    × ((s.backend ≡ backend_ollama) ⊎ (s.device_class ≢ ""))

-- For a backend of the enumeration, the operator gives the message of the first rule on placement
-- that the spec breaks, and the empty text if it breaks none.
pub policy_violation-first_violation :
    (svc : InferenceService)
    → IsBackend svc.spec
    → policy_violation svc ≡ message_or_empty (first_violation placement_rules svc.spec)
unfolding policy_violation first_violation
policy_violation-first_violation svc (inl e) = rw e (ground arith)
policy_violation-first_violation svc (inr e) = rw e (ground arith)

-- Whatever text the backend is, the operator finds no violation exactly if Restricted data is given a
-- device class and not to Ollama, and every backend but Ollama is given a device class.
pub policy_violation-IsPlaced :
    (svc : InferenceService) → (policy_violation svc ≡ "") ↔ IsPlaced svc.spec
unfolding policy_violation
policy_violation-IsPlaced svc = ground (
  arith,
  eq_iff svc.spec.backend backend_ollama,
  eq_iff svc.spec.classification classification_restricted,
  eq_iff svc.spec.device_class "",
  eq_iff needs_device_class "",
  eq_iff not_approved "",
  eq_iff needs_cuda "",
)
