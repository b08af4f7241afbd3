-- ===== src/Controller/AddOns.antt =====
-- A cluster without KEDA and without the Inference Extension
-- (docs/adr/0007-optional-add-ons.md).
pub mod Explained
use llm_inference_platform.Prelude.{String, Bool, ◌≡◌, ◌≢◌, eq_iff, true, none, some, List, arith}
use llm_inference_platform.Prelude.Result.{ok}
use llm_inference_platform.Prelude.Maps.{Map}
use llm_inference_platform.Kube.Meta.{Condition, condition_false}
use llm_inference_platform.Kube.Core.{Deployment, Pod}
use llm_inference_platform.Kube.Dynamic.{Unstructured}
use llm_inference_platform.Kube.Configuration.{ServiceConfiguration, service, unstructured}
use llm_inference_platform.Kube.Client.{Client}
use llm_inference_platform.Kube.Conditions.{SetsConditions, view}
use llm_inference_platform.V1alpha1.{InferenceService, backend_ollama}
use llm_inference_platform.Controller.Run.{Run}
use llm_inference_platform.Controller.Trace.{Triple, Finishes, Triple-bind, Finishes-step}
use llm_inference_platform.Controller.Deploy.{current}
use llm_inference_platform.Controller.Autoscaling.{reconcile_autoscaling}
use llm_inference_platform.Controller.Routing.{reconcile_routing}
use llm_inference_platform.Controller.Conditions.{written}
use llm_inference_platform.Controller.Reconcile.{Outcome, report, apply_service, deployed}

-- The API server knows neither kind, applies every Service and lists pods.
pub record LacksAddOns (C : Client) : Type 0 where
  pub no_match : Unstructured → String → Bool → C.World → C.Error
  pub apply-unstructured :
      (u : Unstructured) (owner : String) (force : Bool) (w : C.World)
      → (C.apply (unstructured u) owner force w).0 ≡ some (no_match u owner force w)
  pub is_no_match-no_match :
      (u : Unstructured) (owner : String) (force : Bool) (w : C.World)
      → C.is_no_match (no_match u owner force w) ≡ true
  pub apply-service :
      (x : ServiceConfiguration) (owner : String) (force : Bool) (w : C.World)
      → (C.apply (service x) owner force w).0 ≡ none
  pub pods : String → Map String → C.World → List Pod
  pub list-pods :
      (namespace : String) (labels : Map String) (w : C.World)
      → (C.list_pods namespace labels w).0 ≡ ok (pods namespace labels w)

module _ (svc : InferenceService) where
  abbrev pub keda_missing : Condition
  keda_missing =
      written svc "Autoscaling" condition_false "KEDANotInstalled"
        "the keda.sh ScaledObject CRD is not installed; replicas stay at minReplicas"

  abbrev pub pool_missing : Condition
  pool_missing =
      written svc "Routing" condition_false "InferencePoolNotInstalled"
        "the InferencePool CRD is not installed; the Service is the only entry point"

module _ (C : Client) (L : SetsConditions C) (H : LacksAddOns C) (svc : InferenceService)
    (prometheus_address : String) where
  abbrev Anything : Run C → Type 0
  Anything s = Unit {0}

  abbrev Never : Run C → Type 0
  Never s = ⊥

  abbrev Unscaled : Run C → Type 0
  Unscaled s = view s.status.conditions "Autoscaling" ≡ some (keda_missing svc)

  abbrev Unrouted : Run C → Type 0
  Unrouted s =
      (view s.status.conditions "Autoscaling" ≡ some (keda_missing svc))
      × (view s.status.conditions "Routing" ≡ some (pool_missing svc))

  abbrev Succeeds : Outcome C → Run C → Type 0
  Succeeds o s =
      (o.error ≡ none)
      × (view s.status.conditions "Autoscaling" ≡ some (keda_missing svc))
      × (view s.status.conditions "Routing" ≡ some (pool_missing svc))

  service_step : Triple Anything (apply_service C svc) (λ _. Anything) Never
  unfolding apply_service
  service_step = record { at = λ s h. grind (arith, H.apply-service) }

  autoscaling_step :
      svc.spec.backend ≢ backend_ollama
      → Triple Anything (reconcile_autoscaling C svc prometheus_address) (λ _. Unscaled) Never
  unfolding reconcile_autoscaling
  autoscaling_step b = record {
    at = λ s h. grind (
      arith,
      eq_iff svc.spec.backend backend_ollama,
      H.apply-unstructured,
      H.is_no_match-no_match,
      L.view-set,
    );
  }

  routing_step : Triple Unscaled (reconcile_routing C svc) (λ _. Unrouted) Never
  unfolding reconcile_routing
  routing_step = record {
    at = λ s h. grind (arith, H.apply-unstructured, H.is_no_match-no_match, L.view-set);
  }

  report_step : (d : Deployment) → Finishes Unrouted (report C svc d) Succeeds
  unfolding report
  report_step d = record { at = λ s h. grind (arith, H.list-pods, L.view-set) }

  -- On a cluster that knows neither kind of the add-ons, but applies every Service and lists pods
  -- without an error, and for a service that is not on Ollama: the part of a reconcile behind the
  -- Deployment ends without an error, and the conditions Autoscaling and Routing are False and say which
  -- add-on is not installed.
  pub deployed-LacksAddOns :
      svc.spec.backend ≢ backend_ollama
      → (d : Deployment) (s : Run C)
      → let (o, s') = deployed C svc prometheus_address (current d) s in
        (o.error ≡ none)
        × (view s'.status.conditions "Autoscaling" ≡ some (keda_missing svc))
        × (view s'.status.conditions "Routing" ≡ some (pool_missing svc))
  unfolding deployed
  deployed-LacksAddOns b d s =
      let r =
        Finishes-step {P = Anything} (λ _. Unrouted) Never {F = Succeeds} _ 0 _
          (Triple-bind (λ _. Anything) _ _ service_step
            (λ _. Triple-bind (λ _. Unscaled) _ _ (autoscaling_step b) (λ _. routing_step)))
          (λ e s h. absurd h) (λ _. report_step d) in
      r.at s tt
