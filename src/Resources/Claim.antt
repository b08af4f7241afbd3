-- ===== src/Resources/Claim.antt =====
-- `claimTemplateName` and `desiredClaimTemplate`.
use llm_inference_platform.Prelude.{String, ◌<>◌, Option, none, some, List, [], ◌∷◌}
use llm_inference_platform.Prelude.Int.{pos}
use llm_inference_platform.Prelude.Fmt.{quote}
use llm_inference_platform.Kube.Meta.{Quantity}
use llm_inference_platform.Kube.Configuration.{ClaimTemplateConfiguration, ExactDeviceRequest}
use llm_inference_platform.V1alpha1.{InferenceService}
use llm_inference_platform.Resources.Labels.{configured_metadata}

abbrev pub nvidia_driver_domain : String
nvidia_driver_domain = "gpu.nvidia.com"

unfoldable pub claim_template_name : InferenceService → String
claim_template_name svc = svc.name <> "-gpu"

-- The CEL expression of the memory floor.
unfoldable pub memory_selector : Quantity → String
unfolding quote
memory_selector m =
    "device.capacity["
    <> quote nvidia_driver_domain
    <> "].memory.compareTo(quantity("
    <> quote m.to_string
    <> ")) >= 0"

abbrev memory_selectors : Option Quantity → List String
memory_selectors none = []
memory_selectors (some m) = memory_selector m ∷ []

unfoldable pub exact_device_request : InferenceService → ExactDeviceRequest
exact_device_request svc = record {
  device_class_name = svc.spec.device_class;
  allocation_mode = "ExactCount";
  count = pos 1;
  selectors = memory_selectors svc.spec.min_device_memory;
}

unfoldable pub desired_claim_template : InferenceService → ClaimTemplateConfiguration
unfolding claim_template_name exact_device_request
desired_claim_template svc = record {
  metadata = configured_metadata (claim_template_name svc) svc;
  requests = record { name = "gpu"; exactly = exact_device_request svc } ∷ [];
}
