-- ===== src/Controller/Protocol/Scope.antt =====
-- Where the applied objects stand and to whom they belong.
use llm_inference_platform.Prelude.{
  String, ◌<>◌, ◌≡◌, ◌⊎◌, Bool, true, false, Option, none, some, List, [], ◌∷◌, refl, arith,
}
use llm_inference_platform.Kube.Configuration.{
  ApplyConfiguration, DeploymentConfiguration, ObjectMetaConfiguration, deployment, service,
  unstructured, claim_template,
}
use llm_inference_platform.Kube.Dynamic.{Value, Fields, text, truth, object, array, item, nil, get}
use llm_inference_platform.Kube.Client.{Client}
use llm_inference_platform.V1alpha1.{InferenceService}
use llm_inference_platform.Resources.{desired_service}
use llm_inference_platform.Resources.Labels.{owner_ref, owner_ref_map}
use llm_inference_platform.Resources.Claim.{desired_claim_template, claim_template_name}
use llm_inference_platform.Resources.Scaling.{desired_scaled_object}
use llm_inference_platform.Resources.Pool.{desired_inference_pool}
use llm_inference_platform.Workload.{desired_deployment}
use llm_inference_platform.Controller.Run.{Event, applied}
use llm_inference_platform.Controller.Trace.{Chain, Chain-map}
use llm_inference_platform.Controller.Deploy.{field_owner, initial_replicas_owner, initial_replicas}
use llm_inference_platform.Controller.Reconcile.{reconcile, start}
use llm_inference_platform.Controller.Protocol.{Permitted}
use llm_inference_platform.Controller.Protocol.Replicas.{HoldsOnly}
use llm_inference_platform.Controller.Protocol.Steps.{reconcile-Good}

-- `m[k]` one level down.
abbrev within : Option Value → String → Option Value
within (some (object m)) k = get k m
within _ k = none

-- The one element of a list.
abbrev only_item : Option Value → Option Value
only_item (some (array (item v nil))) = some v
only_item _ = none

module _ (svc : InferenceService) where
  -- The one owner is the service, by its name and its uid, as the controller.
  abbrev IsOwned : ObjectMetaConfiguration → String → Type 0
  IsOwned m name =
      (m.name ≡ name)
      × (m.namespace ≡ svc.namespace)
      × (m.owner_references
          ≡ record {
            api_version = "serving.platform.io/v1alpha1";
            kind = "InferenceService";
            name = svc.name;
            uid = svc.uid;
            controller = some true;
            block_owner_deletion = some true;
          }
            ∷ [])

  -- The same as a `map[string]any`.
  abbrev IsOwner : Option Value → Type 0
  IsOwner owner =
      (within owner "apiVersion" ≡ some (text "serving.platform.io/v1alpha1"))
      × (within owner "kind" ≡ some (text "InferenceService"))
      × (within owner "name" ≡ some (text svc.name))
      × (within owner "uid" ≡ some (text svc.uid))
      × (within owner "controller" ≡ some (truth true))
      × (within owner "blockOwnerDeletion" ≡ some (truth true))

  abbrev IsOwnedDynamic : Fields → Type 0
  IsOwnedDynamic content =
      (within (get "metadata" content) "name" ≡ some (text svc.name))
      × (within (get "metadata" content) "namespace" ≡ some (text svc.namespace))
      × IsOwner (only_item (within (get "metadata" content) "ownerReferences"))

  abbrev AsOperator : String → Bool → Type 0
  AsOperator owner force = (owner ≡ field_owner) × (force ≡ true)

  -- The write of the initial count, which claims no object.
  abbrev AsInitial : DeploymentConfiguration → String → Bool → Type 0
  AsInitial d owner force =
      HoldsOnly svc svc.spec.autoscaling.min_replicas d
      × (owner ≡ initial_replicas_owner)
      × (force ≡ false)

  abbrev ScopedApply : ApplyConfiguration → String → Bool → Type 0
  ScopedApply (deployment d) owner force =
      (IsOwned d.metadata svc.name × AsOperator owner force) ⊎ AsInitial d owner force
  ScopedApply (service x) owner force = IsOwned x.metadata svc.name × AsOperator owner force
  ScopedApply (claim_template x) owner force =
      IsOwned x.metadata (svc.name <> "-gpu") × AsOperator owner force
  ScopedApply (unstructured x) owner force = IsOwnedDynamic x.content × AsOperator owner force

module _ {C : Client} (svc : InferenceService) where
  abbrev pub ScopeRule : Event C → List (Event C) → Type 0
  ScopeRule (applied configuration owner force _) past = ScopedApply svc configuration owner force
  ScopeRule _ past = Unit

  Permitted-ScopeRule :
      (prometheus_address : String) (e : Event C) (past : List (Event C))
      → Permitted svc prometheus_address e past
      → ScopeRule e past
  unfolding desired_deployment initial_replicas desired_service desired_claim_template
      desired_scaled_object desired_inference_pool get owner_ref owner_ref_map claim_template_name
  Permitted-ScopeRule prometheus_address (applied (deployment d) owner force r) past h =
      ground arith
  Permitted-ScopeRule prometheus_address (applied configuration owner force r) past h = ground arith
  Permitted-ScopeRule prometheus_address e past h = ground arith

-- Whatever the API server answers, every object that a reconcile applies stands in the service's
-- namespace under the service's name (the claim template with `-gpu` behind it), has the service, by
-- name and uid and as the controller, as its one owner, and goes out forced under the operator's field
-- manager; the one exception is the write of `minReplicas` alone, which has no owner, is not forced and
-- goes out under the second field manager.
pub reconcile-scope :
    (C : Client) (svc : InferenceService) (prometheus_address : String) (w : C.World)
    → Chain (ScopeRule svc) (reconcile C svc prometheus_address (start C svc w)).1.events
reconcile-scope C svc prometheus_address w =
    Chain-map _ _ (Permitted-ScopeRule svc prometheus_address) _
      (reconcile-Good C svc prometheus_address (start C svc w) (tt, refl))
