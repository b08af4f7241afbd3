-- ===== src/Resources.antt =====
-- internal/controller/resources.go: the labels, the owner reference, and the objects besides the
-- Deployment that the operator applies.
pub mod Labels
pub mod Claim
pub mod Scaling
pub mod Pool
use llm_inference_platform.Prelude.{String, true, Option, some, List, [], ◌∷◌}
use llm_inference_platform.Prelude.Int.{ℤ, pos}
use llm_inference_platform.Kube.Configuration.{ServiceConfiguration}
use llm_inference_platform.V1alpha1.{InferenceService}
use llm_inference_platform.Resources.Labels.{selector_labels, configured_metadata}
use llm_inference_platform.Resources.Labels.{serving_port}

unfoldable pub desired_service : InferenceService → ServiceConfiguration
desired_service svc = record {
  metadata = configured_metadata svc.name svc;
  selector = selector_labels svc;
  ports =
      record { name = "http"; protocol = "TCP"; port = serving_port; target_port = serving_port }
      ∷ [];
}
