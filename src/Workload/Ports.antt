-- ===== src/Workload/Ports.antt =====
-- One port and one name run through all the objects of a service.
use llm_inference_platform.Prelude.{
  String, ◌<>◌, ◌≡◌, ◌≢◌, ◌⊎◌, ◌==◌, eq_iff, refl, Option, none, some, List, [], ◌∷◌, arith,
  if◌then◌else◌,
}
use llm_inference_platform.Prelude.Int.{ℤ}
use llm_inference_platform.Prelude.Fmt.{sprint}
use llm_inference_platform.Prelude.Maps.{Map, lookup}
use llm_inference_platform.Kube.Configuration.{
  Container, ProbeHandler, http_get, exec, EnvVar, DeploymentConfiguration, PodTemplate,
}
use llm_inference_platform.Kube.Dynamic.{number, array, item, nil, object, field, end, get}
use llm_inference_platform.V1alpha1.{InferenceService, backend_ollama}
use llm_inference_platform.Resources.{desired_service}
use llm_inference_platform.Resources.Labels.{pod_labels, selector_labels, to_any, serving_port}
use llm_inference_platform.Resources.Labels.Selection.{Selects}
use llm_inference_platform.Resources.Pool.{desired_inference_pool}
use llm_inference_platform.Resources.Scaling.Windows.{at}
use llm_inference_platform.Workload.{desired_deployment, backend_container}

-- The value behind a flag, and that of an environment variable.
abbrev pub flag_value : String → List String → Option String
flag_value flag [] = none
flag_value flag (_ ∷ []) = none
flag_value flag (f ∷ v ∷ rest) = if f == flag then some v else flag_value flag rest

abbrev env_value : String → List EnvVar → Option String
env_value name [] = none
env_value name (e ∷ env) = if e.name == name then some e.value else env_value name env

abbrev pub flags : List String → List String
flags [] = []
flags (_ ∷ rest) = rest

abbrev pub ListensOn : ℤ → InferenceService → Container → Type 0
ListensOn port svc c =
    ((svc.spec.backend ≡ backend_ollama)
      × (env_value "OLLAMA_HOST" c.env ≡ some ("0.0.0.0:" <> sprint port)))
    ⊎ ((svc.spec.backend ≢ backend_ollama)
        × (flag_value "--port" (flags c.args) ≡ some (sprint port)))

abbrev Probes : ℤ → ProbeHandler → Type 0
Probes port (http_get _ p) = p ≡ port
Probes port (exec _) = Unit

abbrev pub HasTemplate : DeploymentConfiguration → (PodTemplate → Type 0) → Type 0
HasTemplate d P = elim d.template [ none ↦ ⊥ | some t ↦ P t ]

abbrev pub PortAgrees : InferenceService → ℤ → Type 0
PortAgrees svc port =
    ListensOn port svc (backend_container svc)
    × ((backend_container svc).ports ≡ record { name = "http"; container_port = port } ∷ [])
    × Probes port (backend_container svc).startup_probe.handler
    × Probes port (backend_container svc).readiness_probe.handler
    × Probes port (backend_container svc).liveness_probe.handler
    × ((desired_service svc).ports
        ≡ record { name = "http"; protocol = "TCP"; port = port; target_port = port } ∷ [])
    × (at (desired_inference_pool svc).content ("spec" ∷ "targetPorts" ∷ [])
        ≡ some (array (item (object (field "number" (number port) end)) nil)))
    × HasTemplate (desired_deployment svc)
        (λ t. lookup "prometheus.io/port" t.annotations ≡ some (sprint port))

-- Of every service: the server of the container listens on the one port that the container names, that
-- its HTTP probes ask, that the Service offers under the same number and forwards to, that the
-- InferencePool forwards to, and that the scrape annotation gives.
pub serving_port-agrees : (svc : InferenceService) → (port : ℤ) × PortAgrees svc port
unfolding backend_container desired_service desired_inference_pool desired_deployment get lookup
serving_port-agrees svc = (
  serving_port,
  (
    ground (arith, eq_iff svc.spec.backend backend_ollama),
    ground arith,
    ground arith,
    ground arith,
    ground arith,
    ground arith,
    refl,
    refl,
  ),
)

abbrev pub SelectorAgrees : InferenceService → Map String → Type 0
SelectorAgrees svc selector =
    ((desired_deployment svc).selector ≡ some selector)
    × ((desired_service svc).selector ≡ selector)
    × (at (desired_inference_pool svc).content ("spec" ∷ "selector" ∷ "matchLabels" ∷ [])
        ≡ some (object (to_any selector)))
    × HasTemplate (desired_deployment svc) (λ t. Selects selector t.labels)

-- Of every service: the selectors of its Deployment, of its Service and of its InferencePool are one,
-- and it selects the labels of the pod template.
pub selectors-agree :
    (svc : InferenceService) → (selector : Map String) × SelectorAgrees svc selector
unfolding desired_service desired_inference_pool desired_deployment get selector_labels pod_labels
    lookup
selectors-agree svc = (selector_labels svc, (refl, refl, refl, ground arith))
