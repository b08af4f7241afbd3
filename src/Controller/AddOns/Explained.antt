-- ===== src/Controller/AddOns/Explained.antt =====
-- What a reconcile says of the add-ons, against the answers that it had.
use llm_inference_platform.Prelude.{
  ℕ, String, ◌<>◌, ◌∷◌, ◌≡◌, ◌≢◌, ◌⊎◌, inl, inr, ◌==◌, eq_iff, true, Option, none, some, List,
  arith, Bool-cases, ◌≤◌,
}
use llm_inference_platform.Prelude.Lists.{Any}
use llm_inference_platform.Prelude.Result.{ok}
use llm_inference_platform.Kube.Meta.{Condition, condition_true, condition_false, condition_unknown}
use llm_inference_platform.Kube.Core.{Deployment}
use llm_inference_platform.Kube.Configuration.{unstructured}
use llm_inference_platform.Kube.Client.{Client}
use llm_inference_platform.Kube.Conditions.{SetsConditions, view}
use llm_inference_platform.V1alpha1.{InferenceService, backend_ollama}
use llm_inference_platform.Resources.Pool.{desired_inference_pool}
use llm_inference_platform.Resources.Scaling.{scaled_object_gvk, desired_scaled_object}
use llm_inference_platform.Controller.Policy.{policy_violation}
use llm_inference_platform.Controller.Run.{
  Event, Run, Failure, applied, got_unstructured, set_condition,
}
use llm_inference_platform.Controller.Trace.{Triple, Finishes, Triple-bind, Finishes-step}
use llm_inference_platform.Controller.Deploy.{
  Deployed, requeue, current, reconcile_deployment, service_key,
}
use llm_inference_platform.Controller.Autoscaling.{
  Verdict, scaled_object_ready, reconcile_autoscaling,
}
use llm_inference_platform.Controller.Routing.{reconcile_routing}
use llm_inference_platform.Controller.Conditions.{written}
use llm_inference_platform.Controller.AddOns.{keda_missing, pool_missing}
use llm_inference_platform.Controller.Reconcile.{
  Outcome, report, apply_service, reconcile_claim, deployed, admitted, rejected, reconcile, start,
  cond_admitted,
}

module _ (svc : InferenceService) where
  abbrev pub not_scaled : Condition
  not_scaled =
      written svc "Autoscaling" condition_false "BackendNotSupported"
        "Ollama exports no queue metrics; replicas stay at minReplicas"

  -- The condition that passes KEDA's verdict on.
  abbrev pub scaler : Verdict → Condition
  scaler v = elim v.status [
    | condition_true ↦
        written svc "Autoscaling" condition_true "ScalerReady"
          "KEDA scales on queue depth, KV cache usage and p95 TTFT"
    | condition_false ↦
        written svc "Autoscaling" condition_false "ScalerNotReady"
          ("KEDA reports " <> v.reason <> ": " <> v.message)
    | condition_unknown ↦
        written svc "Autoscaling" condition_unknown "WaitingForKEDA"
          "ScaledObject applied; KEDA has not reported on it yet"
  ]

  abbrev pub pooled : Condition
  pooled =
      written svc "Routing" condition_true "InferencePoolApplied"
        "pods are registered in an InferencePool"

  module _ {C : Client} (prometheus_address : String) where
    -- The ScaledObject was refused as of an unknown kind, or read with this verdict.
    abbrev pub SaysScaling : Option Condition → Event C → Type 0
    SaysScaling scaling (applied x owner force (some e)) =
        (x ≡ unstructured (desired_scaled_object svc prometheus_address))
        × (C.is_no_match e ≡ true)
        × (scaling ≡ some (keda_missing svc))
    SaysScaling scaling (got_unstructured kind key (ok so)) =
        (kind ≡ scaled_object_gvk)
        × (key ≡ service_key svc)
        × (scaling ≡ some (scaler (scaled_object_ready C so)))
    SaysScaling scaling _ = ⊥

    unfoldable pub Scaling : Option Condition → List (Event C) → Type 0
    Scaling scaling events =
        ((svc.spec.backend ≡ backend_ollama) × (scaling ≡ some not_scaled))
        ⊎ ((svc.spec.backend ≢ backend_ollama) × Any (SaysScaling scaling) events)

    Scaling-later :
        (scaling : Option Condition) (e : Event C) (events : List (Event C))
        → Scaling scaling events
        → Scaling scaling (e ∷ events)
    unfolding Scaling
    Scaling-later scaling e events h = ground arith

    -- The InferencePool was accepted, or refused as of an unknown kind.
    abbrev pub SaysRouting : Option Condition → Event C → Type 0
    SaysRouting routing (applied x owner force none) =
        (x ≡ unstructured (desired_inference_pool svc)) × (routing ≡ some pooled)
    SaysRouting routing (applied x owner force (some e)) =
        (x ≡ unstructured (desired_inference_pool svc))
        × (C.is_no_match e ≡ true)
        × (routing ≡ some (pool_missing svc))
    SaysRouting routing _ = ⊥

    unfoldable pub Routing : Option Condition → List (Event C) → Type 0
    Routing routing events = Any (SaysRouting routing) events

    Routing-later :
        (routing : Option Condition) (e : Event C) (events : List (Event C))
        → Routing routing events
        → Routing routing (e ∷ events)
    unfolding Routing
    Routing-later routing e events h = inr h

    -- After an error or an early requeue, and for a spec that breaks the policy, nothing is said.
    abbrev pub AddOnsExplained : ℕ → Option (Failure C) → Run C → Type 0
    AddOnsExplained after (some e) s = Unit {0}
    AddOnsExplained after none s =
        (after ≤ 5)
        ⊎ (Scaling (view s.status.conditions "Autoscaling") s.events
            × Routing (view s.status.conditions "Routing") s.events)

module _ (C : Client) (L : SetsConditions C) (svc : InferenceService)
    (prometheus_address : String) where
  abbrev Anything : Run C → Type 0
  Anything s = Unit {0}

  abbrev Scaled : Run C → Type 0
  Scaled s = Scaling svc prometheus_address (view s.status.conditions "Autoscaling") s.events

  abbrev Routed : Run C → Type 0
  Routed s =
      Scaling svc prometheus_address (view s.status.conditions "Autoscaling") s.events
      × Routing svc prometheus_address (view s.status.conditions "Routing") s.events

  abbrev Explains : Outcome C → Run C → Type 0
  Explains o s = AddOnsExplained svc prometheus_address o.requeue_after o.error s

  autoscaling_step :
      Triple Anything (reconcile_autoscaling C svc prometheus_address) (λ _. Scaled) Anything
  unfolding reconcile_autoscaling Scaling
  autoscaling_step = record {
    at = λ s h. grind (arith, L.view-set, eq_iff svc.spec.backend backend_ollama);
  }

  routing_step : Triple Scaled (reconcile_routing C svc) (λ _. Routed) Anything
  unfolding reconcile_routing Routing
  routing_step = record {
    at = λ s h. grind (arith, L.view-set, Scaling-later svc {C = C} prometheus_address);
  }

  report_step : (d : Deployment) → Finishes Routed (report C svc d) Explains
  unfolding report
  report_step d = record {
    at = λ s h. grind (
      arith,
      L.view-set,
      Scaling-later svc {C = C} prometheus_address,
      Routing-later svc {C = C} prometheus_address,
    );
  }

  admit_step :
      Triple Anything
        (set_condition C svc cond_admitted condition_true "PolicySatisfied"
          "spec passes placement policy")
        (λ _. Anything)
        Anything
  unfolding set_condition
  admit_step = record { at = λ s h. tt }

  claim_step : Triple Anything (reconcile_claim C svc) (λ _. Anything) Anything
  unfolding reconcile_claim
  claim_step = record { at = λ s h. ground arith }

  deployment_step : Triple Anything (reconcile_deployment C svc) (λ _. Anything) Anything
  unfolding reconcile_deployment
  deployment_step = record { at = λ s h. ground arith }

  service_step : Triple Anything (apply_service C svc) (λ _. Anything) Anything
  unfolding apply_service
  service_step = record { at = λ s h. ground arith }

  deployed_step : (d : Deployed) → Finishes Anything (deployed C svc prometheus_address d) Explains
  unfolding deployed
  deployed_step requeue = record { at = λ s h. inl (omega arith) }
  deployed_step (current d) =
      Finishes-step (λ _. Routed) Anything _ 0 _
        (Triple-bind (λ _. Anything) _ _ service_step
          (λ _. Triple-bind (λ _. Scaled) _ _ autoscaling_step (λ _. routing_step)))
        (λ e s h. h) (λ _. report_step d)

  admitted_step : Finishes Anything (admitted C svc prometheus_address) Explains
  unfolding admitted
  admitted_step =
      Finishes-step (λ _. Anything) Anything _ 0 _
        (Triple-bind (λ _. Anything) _ _ admit_step (λ _. claim_step)) (λ e s h. h)
        (λ _.
          Finishes-step (λ _. Anything) Anything _ 5 _ deployment_step (λ e s h. h) deployed_step)

  rejected_step : Finishes Anything (rejected C svc (policy_violation svc)) Explains
  unfolding rejected
  rejected_step = record { at = λ s h. inl (omega arith) }

-- Where `meta.SetStatusCondition` writes the condition of its type and no other: a reconcile without
-- an error that asks for no look within five seconds leaves the conditions Autoscaling and Routing
-- as its calls were answered. Autoscaling says that Ollama is not scaled exactly for Ollama; for any
-- other backend it says that KEDA is not installed, of an apply of the service's ScaledObject that
-- was refused for its kind, or passes on the verdict of the ScaledObject that was read. Routing says
-- that the service's InferencePool was applied, or refused for its kind.
pub reconcile-AddOnsExplained :
    (C : Client) (L : SetsConditions C) (svc : InferenceService) (prometheus_address : String)
    (w : C.World)
    → let (o, s) = reconcile C svc prometheus_address (start C svc w) in
      AddOnsExplained svc prometheus_address o.requeue_after o.error s
unfolding reconcile
reconcile-AddOnsExplained C L svc prometheus_address w =
    elim (Bool-cases (policy_violation svc == "")) [
      | inl passes ↦ rw passes ((admitted_step C L svc prometheus_address).at (start C svc w) tt)
      | inr fails ↦ rw fails ((rejected_step C L svc prometheus_address).at (start C svc w) tt)
    ]
