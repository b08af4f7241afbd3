-- ===== src/Resources/Labels.antt =====
-- `selectorLabels`, `podLabels`, `ownerRef` and `ownerRefMap`.
pub mod Selection
use llm_inference_platform.Prelude.{String, true, some, [], ◌∷◌}
use llm_inference_platform.Prelude.Int.{ℤ, pos}
use llm_inference_platform.Prelude.Maps.{Map, insert}
use llm_inference_platform.Kube.Meta.{OwnerReference}
use llm_inference_platform.Kube.Configuration.{ObjectMetaConfiguration}
use llm_inference_platform.Kube.Dynamic.{
  Value, text, truth, object, array, nil, item, Fields, end, field,
}
use llm_inference_platform.V1alpha1.{InferenceService, group_version}

-- `servingPort` of deployment.go.
abbrev pub serving_port : ℤ
serving_port = pos 8000

unfoldable pub selector_labels : InferenceService → Map String
selector_labels svc =
    ("app.kubernetes.io/name", "inference-service") ∷ ("app.kubernetes.io/instance", svc.name) ∷ []

unfoldable pub pod_labels : InferenceService → Map String
unfolding selector_labels insert
pod_labels svc =
    insert "serving.platform.io/dataclass" svc.spec.classification
      (insert "serving.platform.io/backend" svc.spec.backend (selector_labels svc))

unfoldable pub owner_ref : InferenceService → OwnerReference
owner_ref svc = record {
  api_version = group_version;
  kind = "InferenceService";
  name = svc.name;
  uid = svc.uid;
  controller = some true;
  block_owner_deletion = some true;
}

unfoldable pub owner_ref_map : InferenceService → Fields
owner_ref_map svc = field "apiVersion" (text group_version) (
    field "kind" (text "InferenceService") (
      field "name" (text svc.name) (
        field "uid" (text svc.uid)
          (field "controller" (truth true) (field "blockOwnerDeletion" (truth true) end)))))

unfoldable pub to_any : Map String → Fields
to_any [] = end
to_any ((k, v) ∷ m) = field k (text v) (to_any m)

-- What every typed configuration starts with.
abbrev pub configured_metadata : String → InferenceService → ObjectMetaConfiguration
configured_metadata name svc = record {
  name = name;
  namespace = svc.namespace;
  labels = pod_labels svc;
  owner_references = owner_ref svc ∷ [];
}

-- The `metadata` of both unstructured objects.
abbrev pub dynamic_metadata : InferenceService → Value
dynamic_metadata svc = object (
    field "name" (text svc.name) (
      field "namespace" (text svc.namespace) (
        field "labels" (object (to_any (pod_labels svc)))
          (field "ownerReferences" (array (item (object (owner_ref_map svc)) nil)) end))))
