-- ===== src/Workload.antt =====
-- internal/controller/deployment.go: the serving Deployment.
pub mod Containers
pub mod Wiring
pub mod Ports
pub mod Arguments
pub mod Startup
pub mod Shared
use llm_inference_platform.Prelude.{
  String, ◌==◌, if◌then◌else◌, not, Option, none, some, List, [], ◌∷◌, ◌++◌,
}
use llm_inference_platform.Prelude.Fmt.{sprint}
use llm_inference_platform.Prelude.Maps.{Map}
use llm_inference_platform.Kube.Configuration.{
  DeploymentConfiguration, Container, Volume, empty_dir, PodSpec, PodResourceClaim, PodTemplate,
}
use llm_inference_platform.V1alpha1.{InferenceService, backend_ollama}
use llm_inference_platform.Resources.Labels.{
  serving_port, selector_labels, pod_labels, configured_metadata,
}
use llm_inference_platform.Resources.Claim.{claim_template_name}
use llm_inference_platform.Workload.Containers.{
  vllm_container, ollama_container, model_cache_volume, shared_memory_volume,
}

-- The `switch` on the backend; any other value is served by vLLM.
unfoldable pub backend_container : InferenceService → Container
unfolding vllm_container ollama_container
backend_container svc =
    if svc.spec.backend == backend_ollama then ollama_container svc else vllm_container svc

-- `container.Resources.WithClaims`. `Resources` is a pointer that the copy of the container in the
-- pod shares, so that the claim reaches the pod though it is added after the copy is made; Shared has
-- the pod with the pointer.
abbrev pub with_claim : Container → String → Container
with_claim c claim = record c {
  resources = record c.resources { claims = c.resources.claims ++ (claim ∷ []) };
}

unfoldable pub pod_spec : InferenceService → PodSpec
unfolding backend_container model_cache_volume shared_memory_volume claim_template_name
pod_spec svc =
    let wants_device = not (svc.spec.device_class == "") in
    let container : Container = backend_container svc in
    record {
      containers = (if wants_device then with_claim container "gpu" else container) ∷ [];
      volumes =
          model_cache_volume svc
          ∷ (if svc.spec.backend == backend_ollama then [] else shared_memory_volume ∷ []);
      resource_claims =
          if wants_device
          then record { name = "gpu"; resource_claim_template_name = claim_template_name svc } ∷ []
          else [];
    }

abbrev pub scrape_annotations : Map String
scrape_annotations =
    ("prometheus.io/scrape", "true")
    ∷ ("prometheus.io/port", sprint serving_port)
    ∷ ("prometheus.io/path", "/metrics")
    ∷ []

unfoldable pub desired_deployment : InferenceService → DeploymentConfiguration
unfolding pod_spec
desired_deployment svc = record {
  metadata = configured_metadata svc.name svc;
  replicas = none;
  selector = some (selector_labels svc);
  template =
      some
        (record { labels = pod_labels svc; annotations = scrape_annotations; spec = pod_spec svc });
}
