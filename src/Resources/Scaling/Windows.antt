-- ===== src/Resources/Scaling/Windows.antt =====
-- The windows of the ScaledObject.
use llm_inference_platform.Prelude.{
  String, ◌≡◌, ◌⊎◌, refl, Option, none, some, List, [], ◌∷◌, arith,
}
use llm_inference_platform.Prelude.Int.{ℤ, pos, ◌≤ℤ◌}
use llm_inference_platform.Kube.Dynamic.{Value, nil, item, Fields, object, array, number, text, get}
use llm_inference_platform.V1alpha1.{InferenceService}
use llm_inference_platform.Resources.Scaling.{settle, desired_scaled_object}

-- A value by its path of keys.
abbrev pub follow : Option Value → List String → Option Value
follow v [] = v
follow (some (object m)) (k ∷ ks) = follow (get k m) ks
follow _ (k ∷ ks) = none

abbrev pub at : Fields → List String → Option Value
at m ks = follow (some (object m)) ks

abbrev behavior : List String → List String
behavior ks = "spec" ∷ "advanced" ∷ "horizontalPodAutoscalerConfig" ∷ "behavior" ∷ ks

-- One replica of a direction per so many seconds.
abbrev pub one_pod_per : ℤ → Value
one_pod_per seconds = array (
    item
      (object (
        Fields.field "type" (text "Pods") (
          Fields.field "value" (number (pos 1))
            (Fields.field "periodSeconds" (number seconds) Fields.end))))
      nil)

-- A scale-down window of `n` seconds, and the rest of the bounds.
abbrev pub HasWindows : InferenceService → Fields → ℤ → Type 0
HasWindows svc o n =
    (at o (behavior ("scaleDown" ∷ "stabilizationWindowSeconds" ∷ [])) ≡ some (number n))
    × (at o (behavior ("scaleDown" ∷ "policies" ∷ [])) ≡ some (one_pod_per n))
    × (at o (behavior ("scaleUp" ∷ "stabilizationWindowSeconds" ∷ [])) ≡ some (number (pos 0)))
    × (pos 300 ≤ℤ n)
    × (svc.spec.weight_load_seconds ≤ℤ n)
    × ((n ≡ pos 300) ⊎ (n ≡ svc.spec.weight_load_seconds))
    × (at o ("spec" ∷ "minReplicaCount" ∷ []) ≡ some (number svc.spec.autoscaling.min_replicas))
    × (at o ("spec" ∷ "maxReplicaCount" ∷ []) ≡ some (number svc.spec.autoscaling.max_replicas))
    × (at o ("spec" ∷ "scaleTargetRef" ∷ "name" ∷ []) ≡ some (text svc.name))

-- The ScaledObject holds the service's own bounds on the count and targets the Deployment of its
-- name. It scales up at once, and down by at most one replica in a window that is 300 seconds or the
-- weight-load time, and no shorter than either.
pub desired_scaled_object-windows :
    (svc : InferenceService) (prometheus_address : String)
    → (n : ℤ) × HasWindows svc (desired_scaled_object svc prometheus_address).content n
unfolding desired_scaled_object get
desired_scaled_object-windows svc prometheus_address = (
  settle svc,
  (
    refl,
    refl,
    refl,
    unfold settle in ground arith,
    unfold settle in ground arith,
    unfold settle in ground arith,
    refl,
    refl,
    refl,
  ),
)
