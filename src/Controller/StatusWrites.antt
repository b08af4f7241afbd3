-- ===== src/Controller/StatusWrites.antt =====
-- How a reconcile changes the status: by `SetStatusCondition` and by assignments to its fields, one
-- after the other.
pub mod InPlace
use llm_inference_platform.Prelude.{String, ◌≡◌, ◌==◌, inl, inr, refl, arith, Bool-cases}
use llm_inference_platform.Prelude.Int.{ℤ}
use llm_inference_platform.Kube.Meta.{Condition, condition_true}
use llm_inference_platform.Kube.Core.{Deployment}
use llm_inference_platform.Kube.Client.{Client}
use llm_inference_platform.V1alpha1.{InferenceService, InferenceServiceStatus}
use llm_inference_platform.Controller.Policy.{policy_violation}
use llm_inference_platform.Controller.Run.{Run, set_condition}
use llm_inference_platform.Controller.Trace.{Triple, Finishes, Triple-bind, Finishes-step}
use llm_inference_platform.Controller.Deploy.{Deployed, requeue, current, reconcile_deployment}
use llm_inference_platform.Controller.Autoscaling.{reconcile_autoscaling}
use llm_inference_platform.Controller.Routing.{reconcile_routing}
use llm_inference_platform.Controller.Reconcile.{
  Outcome, report, apply_service, reconcile_claim, deployed, admitted, rejected, reconcile, start,
  cond_admitted,
}

-- An assignment to a field of the status, or a call of `SetStatusCondition`.
pub data StatusWrite (C : Client) : Type 0 where
  write_condition : C.World → Condition → StatusWrite C
  write_phase : String → StatusWrite C
  write_ready_replicas : ℤ → StatusWrite C
  write_endpoint : String → StatusWrite C
  write_observed_generation : ℤ → StatusWrite C

module _ {C : Client} where
  abbrev pub written_status : StatusWrite C → InferenceServiceStatus → InferenceServiceStatus
  written_status (write_condition w c) s = record s {
    conditions = C.set_status_condition w s.conditions c;
  }
  written_status (write_phase p) s = record s { phase = p }
  written_status (write_ready_replicas n) s = record s { ready_replicas = n }
  written_status (write_endpoint e) s = record s { endpoint = e }
  written_status (write_observed_generation g) s = record s { observed_generation = g }

-- One status is reached from another by writes.
pub data Reaches (C : Client) (from : InferenceServiceStatus)
    : InferenceServiceStatus → Type 0 where
  unwritten : Reaches C from from
  write :
      {s : InferenceServiceStatus} (w : StatusWrite C)
      → Reaches C from s
      → Reaches C from (written_status w s)

module _ (C : Client) (svc : InferenceService) (prometheus_address : String) where
  abbrev Reached : Run C → Type 0
  Reached s = Reaches C svc.status s.status

  abbrev Reports : Outcome C → Run C → Type 0
  Reports o s = Reaches C svc.status s.status

  conditioned :
      (s : InferenceServiceStatus) (w : C.World) (c : Condition)
      → Reaches C svc.status s
      → Reaches C svc.status (record s { conditions = C.set_status_condition w s.conditions c })
  conditioned s w c h = write (write_condition w c) h

  served :
      (s : InferenceServiceStatus) (n : ℤ) (e : String)
      → Reaches C svc.status s
      → Reaches C svc.status (record s { ready_replicas = n; endpoint = e })
  served s n e h = write (write_endpoint e) (write (write_ready_replicas n) h)

  reported :
      (s : InferenceServiceStatus) (n : ℤ) (e phase : String) (w : C.World) (c : Condition)
      → Reaches C svc.status s
      → Reaches C svc.status (record s {
        ready_replicas = n;
        endpoint = e;
        phase = phase;
        conditions = C.set_status_condition w s.conditions c;
      })
  reported s n e phase w c h =
      write (write_condition w c) (write (write_phase phase) (served s n e h))

  admit_step :
      Triple Reached
        (set_condition C svc cond_admitted condition_true "PolicySatisfied"
          "spec passes placement policy")
        (λ _. Reached)
        Reached
  unfolding set_condition
  admit_step = record { at = λ s h. conditioned s.status s.world _ h }

  claim_step : Triple Reached (reconcile_claim C svc) (λ _. Reached) Reached
  unfolding reconcile_claim
  claim_step = record { at = λ s h. ground arith }

  deployment_step : Triple Reached (reconcile_deployment C svc) (λ _. Reached) Reached
  unfolding reconcile_deployment
  deployment_step = record { at = λ s h. grind (arith, conditioned) }

  service_step : Triple Reached (apply_service C svc) (λ _. Reached) Reached
  unfolding apply_service
  service_step = record { at = λ s h. ground arith }

  autoscaling_step :
      Triple Reached (reconcile_autoscaling C svc prometheus_address) (λ _. Reached) Reached
  unfolding reconcile_autoscaling
  autoscaling_step = record { at = λ s h. grind (arith, conditioned) }

  routing_step : Triple Reached (reconcile_routing C svc) (λ _. Reached) Reached
  unfolding reconcile_routing
  routing_step = record { at = λ s h. grind (arith, conditioned) }

  report_step : (d : Deployment) → Finishes Reached (report C svc d) Reports
  unfolding report
  report_step d = record { at = λ s h. grind (arith, served, reported) }

  rejected_step : Finishes Reached (rejected C svc (policy_violation svc)) Reports
  unfolding rejected
  rejected_step = record {
    at = λ s h. write (write_phase "Rejected") (conditioned s.status s.world _ h);
  }

  deployed_step : (d : Deployed) → Finishes Reached (deployed C svc prometheus_address d) Reports
  unfolding deployed
  deployed_step requeue = record { at = λ s h. h }
  deployed_step (current d) =
      Finishes-step (λ _. Reached) Reached _ 0 _
        (Triple-bind (λ _. Reached) _ _ service_step
          (λ _. Triple-bind (λ _. Reached) _ _ autoscaling_step (λ _. routing_step)))
        (λ e s h. h) (λ _. report_step d)

  admitted_step : Finishes Reached (admitted C svc prometheus_address) Reports
  unfolding admitted
  admitted_step =
      Finishes-step (λ _. Reached) Reached _ 0 _
        (Triple-bind (λ _. Reached) _ _ admit_step (λ _. claim_step)) (λ e s h. h)
        (λ _. Finishes-step (λ _. Reached) Reached _ 5 _ deployment_step (λ e s h. h) deployed_step)

-- A reconcile changes the status that it was given by such writes alone.
pub reconcile-Reaches :
    (C : Client) (svc : InferenceService) (prometheus_address : String) (w : C.World)
    → Reaches C svc.status (reconcile C svc prometheus_address (start C svc w)).1.status
unfolding reconcile
reconcile-Reaches C svc prometheus_address w = elim (Bool-cases (policy_violation svc == "")) [
  | inl passes ↦ rw passes ((admitted_step C svc prometheus_address).at (start C svc w) unwritten)
  | inr fails ↦ rw fails ((rejected_step C svc prometheus_address).at (start C svc w) unwritten)
]
