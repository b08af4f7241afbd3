-- ===== src/Controller/Protocol/Steps.antt =====
-- Each part of `reconcile` keeps to the protocol.
use llm_inference_platform.Prelude.{String, ◌≡◌, ◌⊎◌, ◌==◌, eq_iff, arith, Bool-cases, inl, inr}
use llm_inference_platform.Prelude.Lists.{Any}
use llm_inference_platform.Kube.Core.{Deployment}
use llm_inference_platform.Kube.Client.{Client}
use llm_inference_platform.V1alpha1.{InferenceService, backend_ollama}
use llm_inference_platform.Workload.{desired_deployment}
use llm_inference_platform.Controller.Run.{Run, set_condition}
use llm_inference_platform.Controller.Trace.{Chain, Triple, Finishes, Triple-bind, Finishes-step}
use llm_inference_platform.Controller.Deploy.{
  Deployed, requeue, current, reconcile_deployment, initial_replicas,
}
use llm_inference_platform.Controller.Autoscaling.{reconcile_autoscaling}
use llm_inference_platform.Controller.Routing.{reconcile_routing}
use llm_inference_platform.Controller.Reconcile.{
  reconcile, reconcile_claim, apply_service, report, deployed, admitted, rejected, cond_admitted,
}
use llm_inference_platform.Controller.Policy.{policy_violation}
use llm_inference_platform.Kube.Meta.{condition_true}
use llm_inference_platform.Controller.Protocol.{
  Permitted, replica_writes, ClaimApplied, ServiceApplied, JustRead,
}

module _ (C : Client) (svc : InferenceService) (prometheus_address : String) where
  abbrev pub Good : Run C → Type 0
  Good s = Chain (Permitted svc prometheus_address) s.events

  abbrev pub Early : Run C → Type 0
  Early s = Good s × (replica_writes s.events ≡ 0)

  abbrev pub Claimed : Run C → Type 0
  Claimed s =
      Good s
      × (replica_writes s.events ≡ 0)
      × ((svc.spec.device_class ≡ "") ⊎ Any ClaimApplied s.events)

  abbrev pub ReadBack : Deployed → Run C → Type 0
  ReadBack requeue s = Good s
  ReadBack (current d) s = Good s × JustRead s.events

  abbrev pub Served : Run C → Type 0
  Served s = Good s × Any ServiceApplied s.events

  deployment_step : Triple Claimed (reconcile_deployment C svc) ReadBack Good
  unfolding reconcile_deployment desired_deployment initial_replicas
  deployment_step = record { at = λ s h. ground arith }

  routing_step : Triple Served (reconcile_routing C svc) (λ _. Served) Good
  unfolding reconcile_routing
  routing_step = record { at = λ s h. ground arith }

  autoscaling_step :
      Triple Served (reconcile_autoscaling C svc prometheus_address) (λ _. Served) Good
  unfolding reconcile_autoscaling
  autoscaling_step = record { at = λ s h. ground (arith, eq_iff svc.spec.backend backend_ollama) }

  claim_step : Triple Early (reconcile_claim C svc) (λ _. Claimed) Good
  unfolding reconcile_claim
  claim_step = record { at = λ s h. ground (arith, eq_iff svc.spec.device_class "") }

  service_step :
      (d : Deployment) → Triple (ReadBack (current d)) (apply_service C svc) (λ _. Served) Good
  unfolding apply_service
  service_step d = record { at = λ s h. ground arith }

  report_step : (d : Deployment) → Finishes Served (report C svc d) (λ _. Good)
  unfolding report
  report_step d = record { at = λ s h. ground arith }

  deployed_step :
      (d : Deployed) → Finishes (ReadBack d) (deployed C svc prometheus_address d) (λ _. Good)
  unfolding deployed
  deployed_step requeue = record { at = λ s h. h }
  deployed_step (current d) =
      Finishes-step (λ _. Served) Good _ 0 _
        (Triple-bind (λ _. Served) _ _ (service_step d)
          (λ _. Triple-bind (λ _. Served) _ _ autoscaling_step (λ _. routing_step)))
        (λ e s h. h) (λ _. report_step d)

  admit_step :
      Triple Early
        (set_condition C svc cond_admitted condition_true "PolicySatisfied"
          "spec passes placement policy")
        (λ _. Early)
        Good
  unfolding set_condition
  admit_step = record { at = λ s h. h }

  admitted_step : Finishes Early (admitted C svc prometheus_address) (λ _. Good)
  unfolding admitted
  admitted_step =
      Finishes-step (λ _. Claimed) Good _ 0 _
        (Triple-bind (λ _. Early) _ _ admit_step (λ _. claim_step)) (λ e s h. h)
        (λ _. Finishes-step ReadBack Good _ 5 _ deployment_step (λ e s h. h) deployed_step)

  rejected_step : (msg : String) → Finishes Early (rejected C svc msg) (λ _. Good)
  unfolding rejected
  rejected_step msg = record { at = λ s h. h.0 }

  pub reconcile-Good : (s : Run C) → Early s → Good (reconcile C svc prometheus_address s).1
  unfolding reconcile
  reconcile-Good s h = elim (Bool-cases (policy_violation svc == "")) [
    | inl passes ↦ rw passes (admitted_step.at s h)
    | inr fails ↦ rw fails ((rejected_step (policy_violation svc)).at s h)
  ]
