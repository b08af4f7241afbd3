-- ===== src/Controller/Survival.antt =====
-- The replica count that another manager set survives a reconcile, where the API server keeps to the
-- rules of server-side apply (docs/adr/0004-operator-never-writes-replicas.md).
use llm_inference_platform.Prelude.{
  String, Bool, ◌≡◌, ◌⊎◌, inl, inr, ◌==◌, false, Option, none, some, arith, Bool-cases,
}
use llm_inference_platform.Prelude.Int.{ℤ}
use llm_inference_platform.Prelude.Lists.{Any}
use llm_inference_platform.Prelude.Maps.{Map}
use llm_inference_platform.Kube.Meta.{NamespacedName, ObjectMeta, condition_true}
use llm_inference_platform.Kube.Core.{Deployment}
use llm_inference_platform.Kube.Dynamic.{GroupVersionKind, Unstructured}
use llm_inference_platform.Kube.Configuration.{
  ServiceConfiguration, ClaimTemplateConfiguration, DeploymentConfiguration, deployment, service,
  claim_template, unstructured,
}
use llm_inference_platform.Kube.Client.{
  Client, ObjectKind, deployments, resource_claim_templates, dynamic,
}
use llm_inference_platform.V1alpha1.{InferenceService}
use llm_inference_platform.Workload.{desired_deployment}
use llm_inference_platform.Controller.Policy.{policy_violation}
use llm_inference_platform.Controller.Run.{Event, Run, applied, deleted, set_condition}
use llm_inference_platform.Controller.Trace.{Triple, Finishes, Triple-bind, Finishes-step}
use llm_inference_platform.Controller.Deploy.{
  initial_replicas_owner, Deployed, requeue, current, reconcile_deployment, initial_replicas,
}
use llm_inference_platform.Controller.Autoscaling.{reconcile_autoscaling}
use llm_inference_platform.Controller.Routing.{reconcile_routing}
use llm_inference_platform.Controller.Reconcile.{
  report, apply_service, reconcile_claim, deployed, admitted, rejected, reconcile, start,
  cond_admitted,
}

-- `count w` is the replica count of a Deployment in the world, none where there is no Deployment (a new
-- one gets a default), and `owns w` says whether the operator's field manager owns it there. Calls that
-- name no count leave both alone: reads and deletes of other kinds, applies of other kinds, and, where
-- the Deployment is there, an apply by a manager that does not own the count and lists none.
pub record ServerSideApply (C : Client) : Type 0 where
  pub count : C.World → Option ℤ
  pub owns : C.World → Bool
  pub get-deployment :
      (key : NamespacedName) (w : C.World)
      → (count (C.get_deployment key w).1 ≡ count w) × (owns (C.get_deployment key w).1 ≡ owns w)
  pub get-unstructured :
      (kind : GroupVersionKind) (key : NamespacedName) (w : C.World)
      → (count (C.get_unstructured kind key w).1 ≡ count w)
        × (owns (C.get_unstructured kind key w).1 ≡ owns w)
  pub get-metadata :
      (kind : ObjectKind) (key : NamespacedName) (w : C.World)
      → (count (C.get_metadata kind key w).1 ≡ count w)
        × (owns (C.get_metadata kind key w).1 ≡ owns w)
  pub list-pods :
      (namespace : String) (labels : Map String) (w : C.World)
      → (count (C.list_pods namespace labels w).1 ≡ count w)
        × (owns (C.list_pods namespace labels w).1 ≡ owns w)
  pub delete-claim :
      (object : ObjectMeta) (policy : Option String) (w : C.World)
      → (count (C.delete resource_claim_templates object policy w).1 ≡ count w)
        × (owns (C.delete resource_claim_templates object policy w).1 ≡ owns w)
  pub delete-dynamic :
      (gvk : GroupVersionKind) (object : ObjectMeta) (policy : Option String) (w : C.World)
      → (count (C.delete (dynamic gvk) object policy w).1 ≡ count w)
        × (owns (C.delete (dynamic gvk) object policy w).1 ≡ owns w)
  pub apply-service :
      (x : ServiceConfiguration) (owner : String) (force : Bool) (w : C.World)
      → (count (C.apply (service x) owner force w).1 ≡ count w)
        × (owns (C.apply (service x) owner force w).1 ≡ owns w)
  pub apply-claim :
      (x : ClaimTemplateConfiguration) (owner : String) (force : Bool) (w : C.World)
      → (count (C.apply (claim_template x) owner force w).1 ≡ count w)
        × (owns (C.apply (claim_template x) owner force w).1 ≡ owns w)
  pub apply-unstructured :
      (x : Unstructured) (owner : String) (force : Bool) (w : C.World)
      → (count (C.apply (unstructured x) owner force w).1 ≡ count w)
        × (owns (C.apply (unstructured x) owner force w).1 ≡ owns w)
  pub apply-deployment :
      (d : DeploymentConfiguration) (force : Bool) (w : C.World) (n : ℤ)
      → d.replicas ≡ none
      → owns w ≡ false
      → count w ≡ some n
      → (count (C.apply (deployment d) "inference-operator" force w).1 ≡ some n)
        × (owns (C.apply (deployment d) "inference-operator" force w).1 ≡ false)

abbrev ListsCount : Option ℤ → Type 0
ListsCount none = ⊥
ListsCount (some _) = Unit {0}

module _ {C : Client} where
  -- A write of a count under the second field manager, or a delete of the Deployment.
  abbrev pub Disturbs : Event C → Type 0
  Disturbs (applied (deployment d) owner _ _) =
      ListsCount d.replicas × (owner ≡ initial_replicas_owner)
  Disturbs (deleted deployments _ _ _) = Unit {0}
  Disturbs _ = ⊥

module _ (C : Client) (S : ServerSideApply C) (svc : InferenceService) (prometheus_address : String)
    (n : ℤ) where
  abbrev Keeps : Run C → Type 0
  Keeps s = ((S.count s.world ≡ some n) × (S.owns s.world ≡ false)) ⊎ Any Disturbs s.events

  admit_step :
      Triple Keeps
        (set_condition C svc cond_admitted condition_true "PolicySatisfied"
          "spec passes placement policy")
        (λ _. Keeps)
        Keeps
  unfolding set_condition
  admit_step = record { at = λ s h. h }

  claim_step : Triple Keeps (reconcile_claim C svc) (λ _. Keeps) Keeps
  unfolding reconcile_claim
  claim_step = record { at = λ s h. grind (arith, S.get-metadata, S.delete-claim, S.apply-claim) }

  deployment_step : Triple Keeps (reconcile_deployment C svc) (λ _. Keeps) Keeps
  unfolding reconcile_deployment desired_deployment initial_replicas
  deployment_step = record { at = λ s h. grind (arith, S.get-deployment, S.apply-deployment) }

  service_step : Triple Keeps (apply_service C svc) (λ _. Keeps) Keeps
  unfolding apply_service
  service_step = record { at = λ s h. grind (arith, S.apply-service) }

  autoscaling_step :
      Triple Keeps (reconcile_autoscaling C svc prometheus_address) (λ _. Keeps) Keeps
  unfolding reconcile_autoscaling
  autoscaling_step = record {
    at = λ s h.
        grind (arith, S.get-metadata, S.get-unstructured, S.delete-dynamic, S.apply-unstructured);
  }

  routing_step : Triple Keeps (reconcile_routing C svc) (λ _. Keeps) Keeps
  unfolding reconcile_routing
  routing_step = record { at = λ s h. grind (arith, S.apply-unstructured) }

  report_step : (d : Deployment) → Finishes Keeps (report C svc d) (λ _. Keeps)
  unfolding report
  report_step d = record { at = λ s h. grind (arith, S.list-pods) }

  deployed_step : (d : Deployed) → Finishes Keeps (deployed C svc prometheus_address d) (λ _. Keeps)
  unfolding deployed
  deployed_step requeue = record { at = λ s h. h }
  deployed_step (current d) =
      Finishes-step (λ _. Keeps) Keeps _ 0 _
        (Triple-bind (λ _. Keeps) _ _ service_step
          (λ _. Triple-bind (λ _. Keeps) _ _ autoscaling_step (λ _. routing_step)))
        (λ e s h. h) (λ _. report_step d)

  admitted_step : Finishes Keeps (admitted C svc prometheus_address) (λ _. Keeps)
  unfolding admitted
  admitted_step =
      Finishes-step (λ _. Keeps) Keeps _ 0 _
        (Triple-bind (λ _. Keeps) _ _ admit_step (λ _. claim_step)) (λ e s h. h)
        (λ _. Finishes-step (λ _. Keeps) Keeps _ 5 _ deployment_step (λ e s h. h) deployed_step)

  rejected_step : (msg : String) → Finishes Keeps (rejected C svc msg) (λ _. Keeps)
  unfolding rejected
  rejected_step msg = record { at = λ s h. h }

-- Where the API server keeps to the rules of server-side apply, and there is a Deployment whose replica
-- count the operator's field manager does not own: a reconcile leaves the count as it was and the
-- operator without it, unless one of its calls deleted the Deployment or wrote a count under the second field manager.
pub reconcile-count :
    (C : Client) (S : ServerSideApply C) (svc : InferenceService) (prometheus_address : String)
    (w : C.World) (n : ℤ)
    → S.count w ≡ some n
    → S.owns w ≡ false
    → let s : Run C = (reconcile C svc prometheus_address (start C svc w)).1 in
      ((S.count s.world ≡ some n) × (S.owns s.world ≡ false)) ⊎ Any Disturbs s.events
unfolding reconcile
reconcile-count C S svc prometheus_address w n c h =
    elim (Bool-cases (policy_violation svc == "")) [
      | inl passes ↦
          rw passes ((admitted_step C S svc prometheus_address n).at (start C svc w) (inl (c, h)))
      | inr fails ↦ rw fails (
          (rejected_step C S svc prometheus_address n (policy_violation svc)).at (start C svc w)
            (inl (c, h)))
    ]
