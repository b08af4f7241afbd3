-- ===== src/Controller/Conditions.antt =====
-- The conditions that a reconcile leaves, where `meta.SetStatusCondition` does what it documents.
use llm_inference_platform.Prelude.{
  ℕ, String, ◌≡◌, ◌==◌, eq_iff, true, false, refl, Option, none, some, List, [], ◌∷◌, arith,
  Bool-cases, inl, inr, ◌⊎◌, if◌then◌else◌, ◌≤◌,
}
use llm_inference_platform.Prelude.Int.{pos, ltb_ℤ}
use llm_inference_platform.Kube.Meta.{Condition, ConditionStatus, condition_true, condition_false}
use llm_inference_platform.Kube.Core.{Deployment}
use llm_inference_platform.Kube.Client.{Client, deployments}
use llm_inference_platform.Kube.Conditions.{SetsConditions, view}
use llm_inference_platform.V1alpha1.{InferenceService}
use llm_inference_platform.Controller.Policy.{policy_violation}
use llm_inference_platform.Controller.Trouble.{Trouble, pods_trouble}
use llm_inference_platform.Prelude.Result.{ok}
use llm_inference_platform.Controller.Run.{Run, Event, deleted, listed_pods, Failure, set_condition}
use llm_inference_platform.Controller.Trace.{Triple, Finishes, Triple-bind, Finishes-step}
use llm_inference_platform.Controller.Deploy.{
  Deployed, requeue, current, reconcile_deployment, cond_ready,
}
use llm_inference_platform.Controller.Autoscaling.{reconcile_autoscaling}
use llm_inference_platform.Controller.Routing.{reconcile_routing}
use llm_inference_platform.Controller.Reporting.{LastRead}
use llm_inference_platform.Controller.Reconcile.{
  Outcome, report, apply_service, reconcile_claim, deployed, admitted, rejected, reconcile, start,
  cond_admitted,
}

-- A condition as the operator writes it.
abbrev pub written : InferenceService → String → ConditionStatus → String → String → Condition
written svc kind status reason message = record {
  kind = kind;
  status = status;
  observed_generation = svc.generation;
  last_transition_time = pos 0;
  reason = reason;
  message = message;
}

-- The condition `Admitted` of a spec.
abbrev pub admission : InferenceService → Condition
admission svc =
    if policy_violation svc == ""
    then written svc cond_admitted condition_true "PolicySatisfied" "spec passes placement policy"
    else written svc cond_admitted condition_false "PolicyViolation" (policy_violation svc)

-- The condition `Ready` of a service with ready replicas, and of one whose pods have this trouble.
abbrev pub serving : InferenceService → Condition
serving svc = written svc cond_ready condition_true "MinimumReplicasAvailable" "serving traffic"

abbrev pub held_up : InferenceService → Option Trouble → Condition
held_up svc none = written svc cond_ready condition_false "WeightsLoading" "no ready replicas yet"
held_up svc (some t) = written svc cond_ready condition_false t.reason t.message

-- The condition `Ready` while the Deployment is made anew.
abbrev pub recreating : InferenceService → Condition
recreating svc =
    written svc cond_ready condition_false "RecreatingDeployment"
      "deployment selector changed; the deployment is being recreated"

module _ {C : Client} (svc : InferenceService) where
  abbrev pub PodsExplain : Option Condition → List (Event C) → Type 0
  PodsExplain ready (listed_pods _ _ (ok pods) ∷ _) = ready ≡ some (held_up svc (pods_trouble pods))
  PodsExplain ready _ = ⊥

  -- Where the reconcile ends early: as it was read, unless the last call deleted the Deployment.
  abbrev pub EarlyReady : Option Condition → List (Event C) → Type 0
  EarlyReady ready (deleted deployments _ _ _ ∷ _) = ready ≡ some (recreating svc)
  EarlyReady ready _ = ready ≡ view svc.status.conditions "Ready"

  abbrev pub ReadyCondition : ℕ → Option Condition → Run C → Type 0
  ReadyCondition after ready s =
      ((after ≤ 5) × EarlyReady ready s.events)
      ⊎ ((after ≡ 30)
          × (ltb_ℤ (pos 0) s.status.ready_replicas ≡ false)
          × LastRead s.status.ready_replicas s.events
          × PodsExplain ready s.events)
      ⊎ ((after ≡ 300)
          × (ltb_ℤ (pos 0) s.status.ready_replicas ≡ true)
          × LastRead s.status.ready_replicas s.events
          × (ready ≡ some (serving svc)))

  abbrev pub Explained : ℕ → Option (Failure C) → Run C → Type 0
  Explained after (some e) s =
      (view s.status.conditions "Admitted" ≡ some (admission svc))
      × EarlyReady (view s.status.conditions "Ready") s.events
  Explained after none s =
      (view s.status.conditions "Admitted" ≡ some (admission svc))
      × ReadyCondition after (view s.status.conditions "Ready") s

module _ (C : Client) (L : SetsConditions C) (svc : InferenceService)
    (prometheus_address : String) where
  abbrev accepted : Condition
  accepted =
      written svc cond_admitted condition_true "PolicySatisfied" "spec passes placement policy"

  abbrev IsAccepted : Run C → Type 0
  IsAccepted s = (policy_violation svc ≡ "") × (view s.status.conditions "Admitted" ≡ some accepted)

  -- `Ready` is as it was read.
  abbrev Unchanged : Run C → Type 0
  Unchanged s = view s.status.conditions "Ready" ≡ view svc.status.conditions "Ready"

  abbrev Passed : Run C → Type 0
  Passed s = (policy_violation svc ≡ "") × Unchanged s

  abbrev Kept : Run C → Type 0
  Kept s = IsAccepted s × Unchanged s

  abbrev Early : Run C → Type 0
  Early s = IsAccepted s × EarlyReady svc (view s.status.conditions "Ready") s.events

  abbrev Seen : Deployment → Run C → Type 0
  Seen d s = IsAccepted s × Unchanged s × LastRead d.ready_replicas s.events

  abbrev SeenIn : Deployed → Run C → Type 0
  SeenIn requeue s = Early s
  SeenIn (current d) s = Seen d s

  abbrev Explains : Outcome C → Run C → Type 0
  Explains o s = Explained svc o.requeue_after o.error s

  admit_step :
      Triple Passed
        (set_condition C svc cond_admitted condition_true "PolicySatisfied"
          "spec passes placement policy")
        (λ _. Kept)
        Early
  unfolding set_condition
  admit_step = record { at = λ s h. grind (arith, L.view-set) }

  claim_step : Triple Kept (reconcile_claim C svc) (λ _. Kept) Early
  unfolding reconcile_claim
  claim_step = record { at = λ s h. ground arith }

  deployment_step : Triple Kept (reconcile_deployment C svc) SeenIn Early
  unfolding reconcile_deployment
  deployment_step = record { at = λ s h. grind (arith, L.view-set) }

  service_step : (d : Deployment) → Triple (Seen d) (apply_service C svc) (λ _. Seen d) Early
  unfolding apply_service
  service_step d = record { at = λ s h. ground arith }

  autoscaling_step :
      (d : Deployment)
      → Triple (Seen d) (reconcile_autoscaling C svc prometheus_address) (λ _. Seen d) Early
  unfolding reconcile_autoscaling
  autoscaling_step d = record { at = λ s h. grind (arith, L.view-set) }

  routing_step : (d : Deployment) → Triple (Seen d) (reconcile_routing C svc) (λ _. Seen d) Early
  unfolding reconcile_routing
  routing_step d = record { at = λ s h. grind (arith, L.view-set) }

  failed : (e : Failure C) (s : Run C) (n : ℕ) → Early s → Explained svc n (some e) s
  failed e s n h = rw h.0.0 (h.0.1, h.1)

  report_step : (d : Deployment) → Finishes (Seen d) (report C svc d) Explains
  unfolding report
  report_step d = record { at = λ s h. grind (arith, L.view-set, eq_iff (policy_violation svc) "") }

  deployed_step :
      (d : Deployed) → Finishes (SeenIn d) (deployed C svc prometheus_address d) Explains
  unfolding deployed
  deployed_step requeue = record { at = λ s h. rw h.0.0 (h.0.1, inl (omega arith, h.1)) }
  deployed_step (current d) =
      Finishes-step (λ _. Seen d) Early _ 0 _
        (Triple-bind (λ _. Seen d) _ _ (service_step d)
          (λ _. Triple-bind (λ _. Seen d) _ _ (autoscaling_step d) (λ _. routing_step d)))
        (λ e s h. failed e s 0 h) (λ _. report_step d)

  admitted_step : Finishes Passed (admitted C svc prometheus_address) Explains
  unfolding admitted
  admitted_step =
      Finishes-step (λ _. Kept) Early _ 0 _
        (Triple-bind (λ _. Kept) _ _ admit_step (λ _. claim_step)) (λ e s h. failed e s 0 h)
        (λ _.
          Finishes-step SeenIn Early _ 5 _ deployment_step (λ e s h. failed e s 5 h) deployed_step)

  rejected_step :
      Finishes
        (λ s. ((policy_violation svc == "") ≡ false) × Unchanged s × (s.events ≡ []))
        (rejected C svc (policy_violation svc))
        Explains
  unfolding rejected
  rejected_step = record { at = λ s h. grind (arith, L.view-set) }

-- Where `meta.SetStatusCondition` writes the condition of its type and no other: after any reconcile
-- the condition Admitted says whether the spec passes the policy, with the violation's message if
-- not. A reconcile with an error, or with a look after 5 seconds or none, leaves Ready as it was read,
-- unless its last call deleted the Deployment: then Ready is False and says that it is recreated. Any
-- other leaves Ready in one of two ways: True with a look after 300 seconds, where the last read of the
-- Deployment, after its apply, found ready replicas; or, where it found none, False with a look after 30
-- seconds, with the reason and the message of what keeps the pods listed last from starting. What it
-- writes carries the observed generation.
pub reconcile-Explained :
    (C : Client) (L : SetsConditions C) (svc : InferenceService) (prometheus_address : String)
    (w : C.World)
    → let (o, s) = reconcile C svc prometheus_address (start C svc w) in
      Explained svc o.requeue_after o.error s
unfolding reconcile
reconcile-Explained C L svc prometheus_address w = elim (Bool-cases (policy_violation svc == "")) [
  | inl passes ↦ rw passes (
      (admitted_step C L svc prometheus_address).at (start C svc w)
        ((eq_iff (policy_violation svc) "").0 passes, refl))
  | inr fails ↦
      rw fails ((rejected_step C L svc prometheus_address).at (start C svc w) (fails, refl, refl))
]
