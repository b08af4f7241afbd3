-- ===== src/Resources/Pool.antt =====
-- `desiredInferencePool`.
use llm_inference_platform.Kube.Dynamic.{
  GroupVersionKind, Unstructured, number, object, array, nil, item, end, field,
}
use llm_inference_platform.V1alpha1.{InferenceService}
use llm_inference_platform.Resources.Labels.{
  serving_port, selector_labels, to_any, dynamic_metadata,
}

abbrev pub inference_pool_gvk : GroupVersionKind
inference_pool_gvk = record {
  group = "inference.networking.k8s.io";
  version = "v1";
  kind = "InferencePool";
}

unfoldable pub desired_inference_pool : InferenceService → Unstructured
desired_inference_pool svc = record {
  kind = inference_pool_gvk;
  content = field "metadata" (dynamic_metadata svc) (
      field "spec"
        (object (
          field "selector"
            (object (field "matchLabels" (object (to_any (selector_labels svc))) end))
            (field "targetPorts"
              (array (item (object (field "number" (number serving_port) end)) nil)) end)))
        end);
}
