-- ===== src/Controller/Permissions/Granted.antt =====
-- The markers allow every call of a reconcile.
use llm_inference_platform.Prelude.{
  String, ◌≡◌, refl, ◌⊎◌, inl, inr, List, [], ◌∷◌, arith, Bool-cases,
}
use llm_inference_platform.Kube.Meta.{ObjectMeta, NamespacedName}
use llm_inference_platform.Kube.Dynamic.{GroupVersionKind, Unstructured}
use llm_inference_platform.Kube.Configuration.{deployment, service, claim_template, unstructured}
use llm_inference_platform.Kube.Client.{Client, deployments, resource_claim_templates, dynamic}
use llm_inference_platform.V1alpha1.{InferenceService}
use llm_inference_platform.Resources.Scaling.{scaled_object_gvk, desired_scaled_object}
use llm_inference_platform.Resources.Pool.{inference_pool_gvk, desired_inference_pool}
use llm_inference_platform.Controller.Run.{
  Event, Run, got_deployment, got_unstructured, got_metadata, listed_pods, applied, deleted,
  updated_status,
}
use llm_inference_platform.Controller.Trace.{Chain, Chain-map}
use llm_inference_platform.Controller.Reconcile.{
  Outcome, reconcile, conclude, observed, start, answered, reconcile_key,
}
use llm_inference_platform.Controller.Writes.{events_of}
use llm_inference_platform.Prelude.Result.{Result, ok, err}
use llm_inference_platform.Controller.Protocol.{Permitted, MayDelete}
use llm_inference_platform.Controller.Protocol.Steps.{reconcile-Good}
use llm_inference_platform.Controller.Permissions.{
  markers, MayUse, Granted, all_allowed, reading, applying,
}

MayDelete-gvk :
    {C : Client} (svc : InferenceService) (gvk : GroupVersionKind) (object : ObjectMeta)
    (past : List (Event C))
    → MayDelete svc (dynamic gvk) object past
    → gvk ≡ scaled_object_gvk
MayDelete-gvk svc gvk object [] h = ground arith
MayDelete-gvk svc gvk object (e ∷ past) h = ground arith

dynamic_kind :
    (svc : InferenceService) (prometheus_address : String) (x : Unstructured)
    → (x ≡ desired_scaled_object svc prometheus_address) ⊎ (x ≡ desired_inference_pool svc)
    → (x.kind ≡ scaled_object_gvk) ⊎ (x.kind ≡ inference_pool_gvk)
unfolding desired_scaled_object desired_inference_pool
dynamic_kind svc prometheus_address x h = ground arith

module _ (plural : GroupVersionKind → String)
    (scaled_objects : plural scaled_object_gvk ≡ "scaledobjects")
    (inference_pools : plural inference_pool_gvk ≡ "inferencepools") where
  scaled_object-allowed :
      (gvk : GroupVersionKind) (verbs : List String)
      → gvk ≡ scaled_object_gvk
      → MayUse markers plural "keda.sh" "scaledobjects" verbs
      → MayUse markers plural gvk.group (plural gvk) verbs
  scaled_object-allowed gvk verbs h a = rw (h, scaled_objects) a

  inference_pool-allowed :
      (gvk : GroupVersionKind) (verbs : List String)
      → gvk ≡ inference_pool_gvk
      → MayUse markers plural "inference.networking.k8s.io" "inferencepools" verbs
      → MayUse markers plural gvk.group (plural gvk) verbs
  inference_pool-allowed gvk verbs h a = rw (h, inference_pools) a

  module _ {C : Client} (svc : InferenceService) (prometheus_address : String) where
    Permitted-Granted :
        (e : Event C) (past : List (Event C))
        → Permitted svc prometheus_address e past
        → Granted markers plural e
    unfolding all_allowed
    Permitted-Granted (got_deployment key r) past h = refl
    Permitted-Granted (got_unstructured gvk key r) past h =
        scaled_object-allowed gvk reading h.0 refl
    Permitted-Granted (got_metadata deployments key r) past h = elim h [ ]
    Permitted-Granted (got_metadata resource_claim_templates key r) past h = refl
    Permitted-Granted (got_metadata (dynamic gvk) key r) past h =
        scaled_object-allowed gvk reading h.0 refl
    Permitted-Granted (listed_pods namespace labels r) past h = refl
    Permitted-Granted (updated_status written r) past h = elim h [ ]
    Permitted-Granted (applied (deployment d) owner force r) past h = (refl, refl)
    Permitted-Granted (applied (service d) owner force r) past h = (refl, refl)
    Permitted-Granted (applied (claim_template d) owner force r) past h = (refl, refl)
    Permitted-Granted (applied (unstructured x) owner force r) past h = (
      elim (dynamic_kind svc prometheus_address x h.0) [
        | inl scaled ↦ scaled_object-allowed x.kind applying scaled refl
        | inr pool ↦ inference_pool-allowed x.kind applying pool refl
      ],
      refl,
    )
    Permitted-Granted (deleted deployments object policy r) past h = refl
    Permitted-Granted (deleted resource_claim_templates object policy r) past h = refl
    Permitted-Granted (deleted (dynamic gvk) object policy r) past h =
        scaled_object-allowed gvk ("delete" ∷ []) (MayDelete-gvk svc gvk object past h) refl

  kept_by_conclude :
      (C : Client) (svc : InferenceService) (r : Outcome C × Run C)
      → Chain (λ e past. Granted markers plural e) r.1.events
      → Chain (λ e past. Granted markers plural e) (conclude C svc r).1.events
  unfolding conclude all_allowed
  kept_by_conclude C svc r h =
      elim (Bool-cases (C.deep_equal svc.status (observed C svc r.1.status))) [
        | inl same ↦ rw same h
        | inr other ↦ rw other (refl, h)
      ]

  answered-Granted :
      (C : Client) (prometheus_address : String) (r : Result C.Error InferenceService × C.World)
      → Chain (λ e past. Granted markers plural e) (events_of (answered C prometheus_address r).1)
  unfolding answered
  answered-Granted C prometheus_address (err e, w) = tt
  answered-Granted C prometheus_address (ok svc, w) =
      kept_by_conclude C svc (reconcile C svc prometheus_address (start C svc w)) (
        Chain-map _ _ (Permitted-Granted svc prometheus_address) _
          (reconcile-Good C svc prometheus_address (start C svc w) (tt, refl)))

  -- Whatever the API server answers, the markers allow every call of `Reconcile`, if the ScaledObjects
  -- and the InferencePools are served under their usual names: the read of the InferenceService that it
  -- begins with, which is no event of the run, and then all that the run records, the status update
  -- included.
  pub reconcile_key-Granted :
      (C : Client) (prometheus_address : String) (key : NamespacedName) (w : C.World)
      → MayUse markers plural "serving.platform.io" "inferenceservices" reading
        × Chain
            (λ e past. Granted markers plural e)
            (events_of (reconcile_key C prometheus_address key w).1)
  unfolding reconcile_key all_allowed
  reconcile_key-Granted C prometheus_address key w =
      (refl, answered-Granted C prometheus_address (C.get_inference_service key w))
