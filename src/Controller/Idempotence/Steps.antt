-- ===== src/Controller/Idempotence/Steps.antt =====
-- Each part of a reconcile settles.
use llm_inference_platform.Prelude.{
  String, ◌≡◌, ◌==◌, eq_iff, refl, Bool, true, false, ◌||◌, arith, Bool-cases, inl, inr,
}
use llm_inference_platform.Prelude.Result.{Result, ok}
use llm_inference_platform.Kube.Meta.{condition_true}
use llm_inference_platform.Kube.Core.{Deployment}
use llm_inference_platform.Kube.Client.{Client}
use llm_inference_platform.Kube.Conditions.{SetsConditions}
use llm_inference_platform.V1alpha1.{InferenceService}
use llm_inference_platform.Controller.Policy.{policy_violation}
use llm_inference_platform.Controller.Run.{Failure, set_condition}
use llm_inference_platform.Controller.Deploy.{Deployed, requeue, current, reconcile_deployment}
use llm_inference_platform.Controller.Autoscaling.{reconcile_autoscaling}
use llm_inference_platform.Controller.Routing.{reconcile_routing}
use llm_inference_platform.Controller.Stateless
use llm_inference_platform.Controller.Idempotence.{
  KeepsConditions, Settles, SettlesLast, Settles-bind, SettlesLast-step,
}
use llm_inference_platform.Controller.Reconcile.{
  report, apply_service, reconcile_claim, deployed, admitted, rejected, reconcile, cond_admitted,
}

module _ (C : Client) (L : SetsConditions C) (I : KeepsConditions C) (svc : InferenceService)
    (prometheus_address : String) where
  admit_step :
      Settles {C = C}
        (λ _ kind. kind == "Admitted")
        (set_condition C svc cond_admitted condition_true "PolicySatisfied"
          "spec passes placement policy")
  unfolding set_condition
  admit_step = record {
    keeps = λ s kind h. grind (arith, L.view-set, eq_iff kind "Admitted", eq_iff "Admitted" kind);
    settles = λ s status h. grind (arith, L.view-set, I.set-same, h "Admitted");
  }

  claim_step : Settles {C = C} (λ _ kind. false) (reconcile_claim C svc)
  unfolding reconcile_claim
  claim_step = record { keeps = λ s kind h. grind arith; settles = λ s status h. grind arith }

  abbrev recreates : Result (Failure C) Deployed → String → Bool
  recreates (ok (current d)) kind = false
  recreates _ kind = kind == "Ready"

  deployment_step : Settles recreates (reconcile_deployment C svc)
  unfolding reconcile_deployment
  deployment_step = record {
    keeps = λ s kind h. grind (arith, L.view-set, eq_iff kind "Ready", eq_iff "Ready" kind);
    settles = λ s status h. grind (arith, L.view-set, I.set-same, h "Ready");
  }

  service_step : Settles {C = C} (λ _ kind. false) (apply_service C svc)
  unfolding apply_service
  service_step = record { keeps = λ s kind h. grind arith; settles = λ s status h. grind arith }

  autoscaling_step :
      Settles {C = C}
        (λ _ kind. kind == "Autoscaling")
        (reconcile_autoscaling C svc prometheus_address)
  unfolding reconcile_autoscaling
  autoscaling_step = record {
    keeps =
        λ s kind h. grind (arith, L.view-set, eq_iff kind "Autoscaling", eq_iff "Autoscaling" kind);
    settles = λ s status h. grind (arith, L.view-set, I.set-same, h "Autoscaling");
  }

  routing_step : Settles {C = C} (λ _ kind. kind == "Routing") (reconcile_routing C svc)
  unfolding reconcile_routing
  routing_step = record {
    keeps = λ s kind h. grind (arith, L.view-set, eq_iff kind "Routing", eq_iff "Routing" kind);
    settles = λ s status h. grind (arith, L.view-set, I.set-same, h "Routing");
  }

  report_step : (d : Deployment) → SettlesLast {C = C} (λ kind. kind == "Ready") (report C svc d)
  unfolding report
  report_step d = record {
    keeps = λ s kind h. grind (arith, L.view-set, eq_iff kind "Ready", eq_iff "Ready" kind);
    settles = λ s generation. grind (arith, L.view-set, I.set-same);
  }

  rejected_step :
      SettlesLast {C = C} (λ kind. kind == "Admitted") (rejected C svc (policy_violation svc))
  unfolding rejected
  rejected_step = record {
    keeps = λ s kind h. grind (arith, L.view-set, eq_iff kind "Admitted", eq_iff "Admitted" kind);
    settles = λ s generation. grind (arith, L.view-set, I.set-same);
  }

  abbrev add_ons : String → Bool
  add_ons kind = false || ((kind == "Autoscaling") || (kind == "Routing"))

  abbrev after_deployment : String → Bool
  after_deployment kind = (kind == "Ready") || add_ons kind

  abbrev every : String → Bool
  every kind = (kind == "Admitted") || after_deployment kind

  apart : (a b kind : String) → (a == b) ≡ false → (kind == a) ≡ true → (kind == b) ≡ false
  apart a b kind d h = ground (arith, eq_iff a b, eq_iff kind a, eq_iff kind b)

  -- What follows the Deployment writes nothing where it is deleted.
  abbrev writes : Deployed → String → Bool
  writes requeue kind = false
  writes (current d) kind = after_deployment kind

  recreates-writes :
      (d : Deployed) (kind : String) → recreates (ok d) kind ≡ true → writes d kind ≡ false
  recreates-writes requeue kind h = refl
  recreates-writes (current d) kind h = ground arith

  deployed_step :
      (d : Deployed) → SettlesLast {C = C} (writes d) (deployed C svc prometheus_address d)
  unfolding deployed
  deployed_step requeue = record { keeps = λ s kind h. refl; settles = λ s generation. refl }
  deployed_step (current d) =
      let routing = Stateless.routing_step C svc svc.status prometheus_address in
      let autoscaling = Stateless.autoscaling_step C svc svc.status prometheus_address in
      let service = Stateless.service_step C svc svc.status prometheus_address in
      SettlesLast-step {C = C} (λ _. add_ons) (λ _ kind. kind == "Ready") after_deployment _ 0 _
        (λ a kind h.
          ground (arith, apart "Autoscaling" "Ready" kind refl, apart "Routing" "Ready" kind refl))
        (λ r kind h. ground arith) (λ a kind h. ground arith)
        (Settles-bind (λ kind. false) (λ kind. (kind == "Autoscaling") || (kind == "Routing")) _ _
          (λ kind h. ground arith) service_step
          (λ _.
            Settles-bind (λ kind. kind == "Autoscaling") (λ kind. kind == "Routing") _ _
              (λ kind h. apart "Autoscaling" "Routing" kind refl h) autoscaling_step
              (λ _. routing_step) autoscaling)
          service)
        (λ _. report_step d)
        (Stateless.Oblivious-bind _ _ service
          (λ _. Stateless.Oblivious-bind _ _ autoscaling (λ _. routing)))

  admitted_step : SettlesLast {C = C} every (admitted C svc prometheus_address)
  unfolding admitted
  admitted_step =
      let admit = Stateless.admit_step C svc svc.status prometheus_address in
      let claim = Stateless.claim_step C svc svc.status prometheus_address in
      SettlesLast-step {C = C} (λ _ kind. (kind == "Admitted") || false) (λ _. after_deployment)
        every _ 0 _
        (λ a kind h. ground (
          arith,
          apart "Admitted" "Ready" kind refl,
          apart "Admitted" "Autoscaling" kind refl,
          apart "Admitted" "Routing" kind refl,
        ))
        (λ r kind h. ground arith) (λ a kind h. ground arith)
        (Settles-bind (λ kind. kind == "Admitted") (λ kind. false) _ _ (λ kind h. refl) admit_step
          (λ _. claim_step) admit)
        (λ _.
          SettlesLast-step {C = C} recreates writes after_deployment _ 5 _ recreates-writes
            (λ r kind h. ground arith) (λ a kind h. ground arith) deployment_step deployed_step
            (Stateless.deployment_step C svc svc.status prometheus_address))
        (Stateless.Oblivious-bind _ _ admit (λ _. claim))

  pub reconcile_step : SettlesLast {C = C} every (reconcile C svc prometheus_address)
  unfolding reconcile
  reconcile_step = record {
    keeps = λ s kind h. elim (Bool-cases (policy_violation svc == "")) [
      | inl passes ↦ rw passes (admitted_step.keeps s kind h)
      | inr fails ↦ rw fails (rejected_step.keeps s kind (ground arith))
    ];
    settles = λ s generation. elim (Bool-cases (policy_violation svc == "")) [
      | inl passes ↦ rw passes (admitted_step.settles s generation)
      | inr fails ↦ rw fails (rejected_step.settles s generation)
    ];
  }
