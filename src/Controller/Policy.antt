-- ===== src/Controller/Policy.antt =====
-- `policyViolation`. The empty text says that the spec passes.
pub mod Admission
use llm_inference_platform.Prelude.{String, ◌==◌, not, ◌&&◌, if◌then◌else◌}
use llm_inference_platform.V1alpha1.{InferenceService, classification_restricted, backend_ollama}

-- The three texts of the `switch`.
abbrev pub needs_device_class : String
needs_device_class = "Restricted classification requires an explicit deviceClass"

abbrev pub not_approved : String
not_approved = "Ollama backend is not approved for Restricted data"

abbrev pub needs_cuda : String
needs_cuda =
    "vLLM backend requires a deviceClass: the vLLM image is built for CUDA and does not serve on CPU"

unfoldable pub policy_violation : InferenceService → String
policy_violation svc =
    let s = svc.spec in
    if s.classification == classification_restricted && s.device_class == ""
    then needs_device_class
    else if s.backend == backend_ollama && s.classification == classification_restricted
    then not_approved
    else if not (s.backend == backend_ollama) && s.device_class == ""
    then needs_cuda
    else ""
