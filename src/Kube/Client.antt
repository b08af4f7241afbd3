-- ===== src/Kube/Client.antt =====
-- The client library as a parameter. A call takes the world that it finds, the cluster and all who
-- write to it, and gives the world that it leaves: nothing is assumed of what happens between calls.
use llm_inference_platform.Prelude.{String, Bool, List, Option}
use llm_inference_platform.Prelude.Maps.{Map}
use llm_inference_platform.Prelude.Result.{Result}
use llm_inference_platform.Kube.Meta.{ObjectMeta, NamespacedName, Condition}
use llm_inference_platform.Kube.Core.{Deployment, Pod}
use llm_inference_platform.Kube.Dynamic.{GroupVersionKind, Items, Fields, Unstructured}
use llm_inference_platform.Kube.Configuration.{ApplyConfiguration}
use llm_inference_platform.V1alpha1.{InferenceService, InferenceServiceStatus}

-- The Go type of an object that is read or deleted.
pub data ObjectKind : Type 0 where
  deployments : ObjectKind
  resource_claim_templates : ObjectKind
  dynamic : GroupVersionKind → ObjectKind

pub record Client : Type 1 where
  pub World : Type 0
  pub Error : Type 0
  -- `apierrors.IsNotFound`, `meta.IsNoMatchError`, `client.IgnoreNotFound`; `none` is nil.
  pub is_not_found : Error → Bool
  pub is_no_match : Error → Bool
  pub ignore_not_found : Error → Option Error
  -- `metav1.IsControlledBy`, of the object and its owner.
  pub is_controlled_by : ObjectMeta → ObjectMeta → Bool
  -- `meta.SetStatusCondition`, which reads the clock.
  pub set_status_condition : World → List Condition → Condition → List Condition
  -- `equality.Semantic.DeepEqual` at the status.
  pub deep_equal : InferenceServiceStatus → InferenceServiceStatus → Bool
  -- The first result of `unstructured.NestedSlice`.
  pub nested_slice : Fields → List String → Items
  -- `Get` at each type that it is called at.
  pub get_inference_service : NamespacedName → World → Result Error InferenceService × World
  pub get_deployment : NamespacedName → World → Result Error Deployment × World
  pub get_unstructured :
      GroupVersionKind → NamespacedName → World → Result Error Unstructured × World
  pub get_metadata : ObjectKind → NamespacedName → World → Result Error ObjectMeta × World
  -- `List` of pods in a namespace by labels.
  pub list_pods : String → Map String → World → Result Error (List Pod) × World
  -- `Apply` under an owner, forced or not.
  pub apply : ApplyConfiguration → String → Bool → World → Option Error × World
  -- `Delete`, with a propagation policy or none.
  pub delete : ObjectKind → ObjectMeta → Option String → World → Option Error × World
  -- `Status().Update`
  pub update_status : InferenceService → World → Option Error × World
