-- ===== src/Resources/Scaling.antt =====
-- `desiredScaledObject`: the KEDA object, its queries, thresholds and scale-down window.
pub mod Windows
pub mod Queries
use llm_inference_platform.Prelude.{String, ◌<>◌, ◌==◌, if◌then◌else◌}
use llm_inference_platform.Prelude.Int.{ℤ, pos, max_ℤ}
use llm_inference_platform.Prelude.Fmt.{quote, sprint, sprint_hundredths}
use llm_inference_platform.Kube.Dynamic.{
  GroupVersionKind, Unstructured, Value, text, number, object, array, Items, nil, item, end, field,
}
use llm_inference_platform.V1alpha1.{InferenceService, AutoscalingSpec}
use llm_inference_platform.Resources.Labels.{dynamic_metadata}

abbrev pub scaled_object_gvk : GroupVersionKind
scaled_object_gvk = record { group = "keda.sh"; version = "v1alpha1"; kind = "ScaledObject" }

-- `sel`, the labels that every query filters on.
unfoldable pub metric_selector : InferenceService → String
unfolding quote
metric_selector svc = "namespace=" <> quote svc.namespace <> ",model_name=" <> quote svc.name

unfoldable pub settle : InferenceService → ℤ
settle svc = max_ℤ (pos 300) svc.spec.weight_load_seconds

-- The closure `prom`.
unfoldable pub prom : String → String → String → String → Value
prom prometheus_address query threshold metric_type = object (
    field "type" (text "prometheus") (
      field "metadata"
        (object (
          field "serverAddress" (text prometheus_address)
            (field "query" (text query) (field "threshold" (text threshold) end))))
        (if metric_type == "" then end else field "metricType" (text metric_type) end)))

unfoldable pub waiting_query : InferenceService → String
unfolding metric_selector
waiting_query svc = "sum(vllm:num_requests_waiting{" <> metric_selector svc <> "})"

unfoldable pub cache_query : InferenceService → String
unfolding metric_selector
cache_query svc = "sum(vllm:kv_cache_usage_perc{" <> metric_selector svc <> "})"

unfoldable pub latency_query : InferenceService → String
unfolding metric_selector
latency_query svc =
    "histogram_quantile(0.95, sum(rate(vllm:time_to_first_token_seconds_bucket{"
    <> metric_selector svc
    <> "}[2m])) by (le)) * 1000"

unfoldable pub triggers : InferenceService → String → Items
unfolding prom waiting_query cache_query latency_query sprint sprint_hundredths
triggers svc prometheus_address =
    let a : AutoscalingSpec = svc.spec.autoscaling in
    item (prom prometheus_address (waiting_query svc) (sprint a.queue_depth_target) "") (
      item
        (prom prometheus_address (cache_query svc) (sprint_hundredths a.kv_cache_usage_percent) "")
        (item (prom prometheus_address (latency_query svc) (sprint a.ttft_p95_milliseconds) "Value")
          nil))

-- One replica per `period` seconds.
abbrev pod_policy : ℤ → Value
pod_policy period = array (
    item
      (object (
        field "type" (text "Pods")
          (field "value" (number (pos 1)) (field "periodSeconds" (number period) end))))
      nil)

abbrev direction : ℤ → ℤ → Value
direction window period =
    object (
      field "stabilizationWindowSeconds" (number window) (field "policies" (pod_policy period) end))

-- `advanced`: scaling up reacts at once, scaling down waits.
unfoldable pub advanced : InferenceService → Value
unfolding settle
advanced svc = object (
    field "horizontalPodAutoscalerConfig"
      (object (
        field "behavior"
          (object (
            field "scaleUp" (direction (pos 0) (pos 60))
              (field "scaleDown" (direction (settle svc) (settle svc)) end)))
          end))
      end)

unfoldable pub desired_scaled_object : InferenceService → String → Unstructured
unfolding triggers advanced
desired_scaled_object svc prometheus_address = record {
  kind = scaled_object_gvk;
  content = field "metadata" (dynamic_metadata svc) (
      field "spec"
        (object (
          field "scaleTargetRef" (object (field "name" (text svc.name) end)) (
            field "minReplicaCount" (number svc.spec.autoscaling.min_replicas) (
              field "maxReplicaCount" (number svc.spec.autoscaling.max_replicas) (
                field "advanced" (advanced svc)
                  (field "triggers" (array (triggers svc prometheus_address)) end))))))
        end);
}
