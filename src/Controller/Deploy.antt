-- ===== src/Controller/Deploy.antt =====
-- `reconcileDeployment` and `createDeployment`.
pub mod Selector
use llm_inference_platform.Prelude.{String, Bool, true, false, not, if◌then◌else◌, none, some, []}
use llm_inference_platform.Prelude.Maps.{equal}
use llm_inference_platform.Prelude.Result.{Result, ok, err}
use llm_inference_platform.Kube.Meta.{NamespacedName, condition_false}
use llm_inference_platform.Kube.Core.{Deployment}
use llm_inference_platform.Kube.Configuration.{DeploymentConfiguration, deployment}
use llm_inference_platform.Kube.Client.{Client, deployments}
use llm_inference_platform.V1alpha1.{InferenceService}
use llm_inference_platform.Resources.Labels.{selector_labels}
use llm_inference_platform.Workload.{desired_deployment}
use llm_inference_platform.Controller.Run.{
  M, plain, pure, ◌>>=◌, ◌>>◌, apply_or, get_deployment, delete_object, set_condition,
}

abbrev pub field_owner : String
field_owner = "inference-operator"

abbrev pub initial_replicas_owner : String
initial_replicas_owner = "inference-operator-initial-replicas"

abbrev pub cond_ready : String
cond_ready = "Ready"

abbrev pub service_key : InferenceService → NamespacedName
service_key svc = record { name = svc.name; namespace = svc.namespace }

-- The Deployment that holds the replica count alone.
unfoldable pub initial_replicas : InferenceService → DeploymentConfiguration
initial_replicas svc = record {
  metadata = record {
    name = svc.name;
    namespace = svc.namespace;
    labels = [];
    owner_references = [];
  };
  replicas = some svc.spec.autoscaling.min_replicas;
  selector = none;
  template = none;
}

-- `current.Spec.Selector == nil || !maps.Equal(current.Spec.Selector.MatchLabels, want)`
unfoldable pub selector_outdated : InferenceService → Deployment → Bool
unfolding equal selector_labels
selector_outdated svc current = elim current.selector [
  | none ↦ true
  | some labels ↦ not (equal labels (selector_labels svc))
]

-- What `reconcileDeployment` returns beside an error.
pub data Deployed : Type 0 where
  requeue : Deployed
  current : Deployment → Deployed

module _ (C : Client) (svc : InferenceService) where
  unfoldable pub create_deployment : M C (Unit {0})
  unfolding apply_or
  create_deployment = do
    apply_or C "create deployment" (deployment (desired_deployment svc)) field_owner true
    apply_or C "set initial replicas" (deployment (initial_replicas svc)) initial_replicas_owner
        false

  returned : Result C.Error Deployment → M C Deployed
  returned (err e) s = (err (plain e), s)
  returned (ok d) s = (ok (current d), s)

  -- The apply and the second `Get`, which both ways to come here end with.
  apply_and_read : M C Deployed
  unfolding apply_or get_deployment returned
  apply_and_read = do
    apply_or C "apply deployment" (deployment (desired_deployment svc)) field_owner true
    found ← get_deployment C (service_key svc)
    returned found

  recreate : Deployment → M C Deployed
  unfolding set_condition delete_object
  recreate d = do
    set_condition C svc cond_ready condition_false "RecreatingDeployment"
        "deployment selector changed; the deployment is being recreated"
    delete_object C deployments d.metadata (some "Background")
    pure requeue

  -- The `switch` on the first `Get`.
  deploy_found : Result C.Error Deployment → M C Deployed
  unfolding create_deployment apply_and_read recreate
  deploy_found (err e) s =
      if C.is_not_found e then (create_deployment >> apply_and_read) s else (err (plain e), s)
  deploy_found (ok d) s =
      if d.metadata.deleting
      then (ok requeue, s)
      else if selector_outdated svc d
      then recreate d s
      else apply_and_read s

  unfoldable pub reconcile_deployment : M C Deployed
  unfolding deploy_found get_deployment
  reconcile_deployment = do found ← get_deployment C (service_key svc); deploy_found found
