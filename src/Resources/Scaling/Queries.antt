-- ===== src/Resources/Scaling/Queries.antt =====
-- The queries read the metrics of the service's own pods.
use llm_inference_platform.Prelude.{
  String, ◌<>◌, ◌≡◌, ◌≢◌, eq_iff, refl, Option, none, some, [], ◌∷◌, arith,
}
use llm_inference_platform.Prelude.Fmt.{sprint, sprint_hundredths, quote}
use llm_inference_platform.Kube.Dynamic.{Value, nil, item, array, text, get}
use llm_inference_platform.V1alpha1.{InferenceService, backend_ollama}
use llm_inference_platform.Resources.Scaling.{desired_scaled_object}
use llm_inference_platform.Resources.Scaling.Windows.{at, follow}
use llm_inference_platform.Workload.{backend_container}
use llm_inference_platform.Workload.Ports.{flag_value, flags}

-- A trigger's query, threshold and metric type.
abbrev pub query_of : Value → Option Value
query_of v = follow (some v) ("metadata" ∷ "query" ∷ [])

abbrev pub threshold_of : Value → Option Value
threshold_of v = follow (some v) ("metadata" ∷ "threshold" ∷ [])

abbrev server_of : Value → Option Value
server_of v = follow (some v) ("metadata" ∷ "serverAddress" ∷ [])

abbrev metric_type_of : Value → Option Value
metric_type_of v = follow (some v) ("metricType" ∷ [])

abbrev pub IsTrigger : Value → String → String → String → Option Value → Type 0
IsTrigger v address query threshold metric_type =
    (server_of v ≡ some (text address))
    × (query_of v ≡ some (text query))
    × (threshold_of v ≡ some (text threshold))
    × (metric_type_of v ≡ metric_type)

abbrev pub labels_of : InferenceService → String → String
labels_of svc name = "namespace=" <> quote svc.namespace <> ",model_name=" <> quote name

-- The three triggers of a service that is served under a name.
abbrev pub AreTriggers : InferenceService → String → String → Value → Value → Value → Type 0
AreTriggers svc address name queue cache latency =
    IsTrigger queue address ("sum(vllm:num_requests_waiting{" <> labels_of svc name <> "})")
      (sprint svc.spec.autoscaling.queue_depth_target) none
    × IsTrigger cache address ("sum(vllm:kv_cache_usage_perc{" <> labels_of svc name <> "})")
        (sprint_hundredths svc.spec.autoscaling.kv_cache_usage_percent) none
    × IsTrigger latency address
        ("histogram_quantile(0.95, sum(rate(vllm:time_to_first_token_seconds_bucket{"
          <> labels_of svc name
          <> "}[2m])) by (le)) * 1000")
        (sprint svc.spec.autoscaling.ttft_p95_milliseconds) (some (text "Value"))

abbrev pub IsQueried : InferenceService → String → String → Type 0
IsQueried svc address name =
    (queue : Value) × (cache : Value) × (latency : Value) × (flag_value "--served-model-name"
        (flags (backend_container svc).args)
      ≡ some name)
    × (at (desired_scaled_object svc address).content ("spec" ∷ "triggers" ∷ [])
        ≡ some (array (item queue (item cache (item latency nil)))))
    × AreTriggers svc address name queue cache latency

-- For a service that is not on Ollama: the name that the server is told to serve under is the one that
-- each of the three queries filters on, beside the namespace; the thresholds are the service's
-- targets, the cache's as a fraction; and the latency alone is not averaged over replicas.
pub triggers-served_name :
    (svc : InferenceService) (prometheus_address : String)
    → svc.spec.backend ≢ backend_ollama
    → (name : String) × IsQueried svc prometheus_address name
unfolding backend_container desired_scaled_object get
triggers-served_name svc prometheus_address h = (
  svc.name,
  (
    _,
    _,
    _,
    ground (arith, eq_iff svc.spec.backend backend_ollama),
    refl,
    ((refl, refl, refl, refl), (refl, refl, refl, refl), (refl, refl, refl, refl)),
  ),
)
