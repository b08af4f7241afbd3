-- ===== src/Controller/FailsFast.antt =====
-- Which answers a reconcile goes on after, and which error it returns.
use llm_inference_platform.Prelude.{
  String, ◌≡◌, ◌==◌, inl, inr, true, Option, none, some, List, [], ◌∷◌, ◌||◌, arith, Bool-cases,
}
use llm_inference_platform.Prelude.Lists.{All}
use llm_inference_platform.Prelude.Result.{err}
use llm_inference_platform.Kube.Meta.{condition_true}
use llm_inference_platform.Kube.Core.{Deployment}
use llm_inference_platform.Kube.Configuration.{unstructured}
use llm_inference_platform.Kube.Client.{Client}
use llm_inference_platform.V1alpha1.{InferenceService}
use llm_inference_platform.Controller.Policy.{policy_violation}
use llm_inference_platform.Controller.Run.{
  Event, Run, Failure, plain, wrapped, got_deployment, got_unstructured, got_metadata, listed_pods,
  applied, deleted, updated_status, set_condition,
}
use llm_inference_platform.Controller.Trace.{Contract, Finishes, Contract-bind, Finishes-contract}
use llm_inference_platform.Controller.Deploy.{Deployed, requeue, current, reconcile_deployment}
use llm_inference_platform.Controller.Autoscaling.{reconcile_autoscaling}
use llm_inference_platform.Controller.Routing.{reconcile_routing}
use llm_inference_platform.Controller.Reconcile.{
  Outcome, report, apply_service, reconcile_claim, deployed, admitted, rejected, reconcile, start,
  cond_admitted,
}

module _ {C : Client} where
  -- The error of the client inside an error of a handler.
  abbrev pub cause : Failure C → C.Error
  cause (plain e) = e
  cause (wrapped text e) = e

  -- A call that succeeded, or failed in a way that the handlers expect: no Deployment yet, no kind or
  -- object to remove, an add-on of an unknown kind, an object that is gone already.
  abbrev pub Handled : Event C → Type 0
  Handled (got_deployment key (err e)) = C.is_not_found e ≡ true
  Handled (got_unstructured kind key (err e)) = ⊥
  Handled (got_metadata kind key (err e)) = (C.is_not_found e || C.is_no_match e) ≡ true
  Handled (listed_pods namespace labels (err e)) = ⊥
  Handled (applied (unstructured u) owner force (some e)) = C.is_no_match e ≡ true
  Handled (applied x owner force (some e)) = ⊥
  Handled (deleted kind object policy (some e)) = C.ignore_not_found e ≡ none
  Handled (updated_status svc answer) = ⊥
  Handled event = Unit

  -- A call that failed with this error.
  abbrev pub FailedWith : C.Error → Event C → Type 0
  FailedWith e (got_deployment key (err x)) = x ≡ e
  FailedWith e (got_unstructured kind key (err x)) = x ≡ e
  FailedWith e (got_metadata kind key (err x)) = x ≡ e
  FailedWith e (listed_pods namespace labels (err x)) = x ≡ e
  FailedWith e (applied x owner force (some y)) = y ≡ e
  FailedWith e (deleted kind object policy (some x)) = C.ignore_not_found x ≡ some e
  FailedWith e event = ⊥

  -- The last call failed with the error, and the calls before it are handled.
  abbrev pub StoppedBy : C.Error → List (Event C) → Type 0
  StoppedBy e [] = ⊥
  StoppedBy e (event ∷ past) = FailedWith e event × All Handled past

  abbrev pub FailsFast : Option (Failure C) → List (Event C) → Type 0
  FailsFast none events = All Handled events
  FailsFast (some e) events = StoppedBy (cause e) events

module _ (C : Client) (svc : InferenceService) (prometheus_address : String) where
  abbrev Fine : Run C → Type 0
  Fine s = All Handled s.events

  abbrev Stopped : Failure C → Run C → Type 0
  Stopped e s = StoppedBy (cause e) s.events

  abbrev Ended : Outcome C → Run C → Type 0
  Ended o s = FailsFast o.error s.events

  admit_step :
      Contract Fine
        (set_condition C svc cond_admitted condition_true "PolicySatisfied"
          "spec passes placement policy")
        (λ _. Fine)
        Stopped
  unfolding set_condition
  admit_step = record { at = λ s h. h }

  claim_step : Contract Fine (reconcile_claim C svc) (λ _. Fine) Stopped
  unfolding reconcile_claim
  claim_step = record { at = λ s h. ground arith }

  deployment_step : Contract Fine (reconcile_deployment C svc) (λ _. Fine) Stopped
  unfolding reconcile_deployment
  deployment_step = record { at = λ s h. ground arith }

  service_step : Contract Fine (apply_service C svc) (λ _. Fine) Stopped
  unfolding apply_service
  service_step = record { at = λ s h. ground arith }

  autoscaling_step :
      Contract Fine (reconcile_autoscaling C svc prometheus_address) (λ _. Fine) Stopped
  unfolding reconcile_autoscaling
  autoscaling_step = record { at = λ s h. ground arith }

  routing_step : Contract Fine (reconcile_routing C svc) (λ _. Fine) Stopped
  unfolding reconcile_routing
  routing_step = record { at = λ s h. ground arith }

  report_step : (d : Deployment) → Finishes Fine (report C svc d) Ended
  unfolding report
  report_step d = record { at = λ s h. ground arith }

  deployed_step : (d : Deployed) → Finishes Fine (deployed C svc prometheus_address d) Ended
  unfolding deployed
  deployed_step requeue = record { at = λ s h. h }
  deployed_step (current d) =
      Finishes-contract (λ _. Fine) Stopped _ 0 _
        (Contract-bind (λ _. Fine) Stopped _ _ service_step
          (λ _. Contract-bind (λ _. Fine) Stopped _ _ autoscaling_step (λ _. routing_step)))
        (λ e s h. h) (λ _. report_step d)

  admitted_step : Finishes Fine (admitted C svc prometheus_address) Ended
  unfolding admitted
  admitted_step =
      Finishes-contract (λ _. Fine) Stopped _ 0 _
        (Contract-bind (λ _. Fine) Stopped _ _ admit_step (λ _. claim_step)) (λ e s h. h)
        (λ _.
          Finishes-contract (λ _. Fine) Stopped _ 5 _ deployment_step (λ e s h. h) deployed_step)

  rejected_step : Finishes Fine (rejected C svc (policy_violation svc)) Ended
  unfolding rejected
  rejected_step = record { at = λ s h. h }

-- Whatever the API server answers, a reconcile stops at the first failed call that it does not expect:
-- an error that it returns is, under its text, the one that the last call answered, where that of a
-- delete is what `IgnoreNotFound` leaves of it. Every call before, and every call of a reconcile
-- without an error, succeeded or failed in an expected way: a Deployment that is not found, an object
-- to remove that is not found, gone or of an unknown kind, and an add-on of an unknown kind.
pub reconcile-FailsFast :
    (C : Client) (svc : InferenceService) (prometheus_address : String) (w : C.World)
    → let (o, s) = reconcile C svc prometheus_address (start C svc w) in FailsFast o.error s.events
unfolding reconcile
reconcile-FailsFast C svc prometheus_address w = elim (Bool-cases (policy_violation svc == "")) [
  | inl passes ↦ rw passes ((admitted_step C svc prometheus_address).at (start C svc w) tt)
  | inr fails ↦ rw fails ((rejected_step C svc prometheus_address).at (start C svc w) tt)
]
