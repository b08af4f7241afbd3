-- ===== src/Controller/Reconcile.antt =====
-- `reconcile`, `podTrouble` and `Reconcile`.
use llm_inference_platform.Prelude.{
  ℕ, String, ◌<>◌, ◌==◌, true, not, if◌then◌else◌, Option, none, some, List, [], ◌∷◌,
}
use llm_inference_platform.Prelude.Int.{pos, ltb_ℤ}
use llm_inference_platform.Prelude.Fmt.{sprint}
use llm_inference_platform.Prelude.Result.{Result, ok, err}
use llm_inference_platform.Kube.Meta.{NamespacedName, condition_true, condition_false}
use llm_inference_platform.Kube.Core.{Deployment, Pod}
use llm_inference_platform.Kube.Configuration.{service, claim_template}
use llm_inference_platform.Kube.Client.{Client, resource_claim_templates}
use llm_inference_platform.V1alpha1.{InferenceService, InferenceServiceStatus}
use llm_inference_platform.Resources.{desired_service}
use llm_inference_platform.Resources.Labels.{selector_labels, serving_port}
use llm_inference_platform.Resources.Claim.{claim_template_name, desired_claim_template}
use llm_inference_platform.Controller.Policy.{policy_violation}
use llm_inference_platform.Controller.Trouble.{Trouble, pods_trouble}
use llm_inference_platform.Controller.Run.{
  Run, updated_status, Failure, plain, wrapped, M, ◌>>=◌, ◌>>◌, apply_or, list_pods, set_condition,
}
use llm_inference_platform.Controller.Ownership.{delete_if_owned}
use llm_inference_platform.Controller.Deploy.{
  field_owner, cond_ready, Deployed, requeue, current, reconcile_deployment,
}
use llm_inference_platform.Controller.Autoscaling.{reconcile_autoscaling}
use llm_inference_platform.Controller.Routing.{reconcile_routing}

abbrev pub cond_admitted : String
cond_admitted = "Admitted"

-- `driftRequeue` and `notReadyRequeue`, in seconds.
abbrev pub drift_requeue : ℕ
drift_requeue = 300

abbrev pub not_ready_requeue : ℕ
not_ready_requeue = 30

-- `ctrl.Result` and the error beside it. `requeue_after` is in seconds, 0 in an empty result.
pub record Outcome (C : Client) : Type 0 where
  pub requeue_after : ℕ
  pub error : Option (Failure C)

module _ {C : Client} where
  abbrev pub proceed :
      {A : Type 0}
      → Result (Failure C) A
      → ℕ
      → (A → Run C → Outcome C × Run C)
      → Run C
      → Outcome C × Run C
  proceed (ok a) after f s = f a s
  proceed (err e) after f s = (record { requeue_after = after; error = some e }, s)

  -- `if err != nil { return ctrl.Result{RequeueAfter: after}, err }`, and otherwise what follows.
  abbrev pub step :
      {A : Type 0} → M C A → ℕ → (A → Run C → Outcome C × Run C) → Run C → Outcome C × Run C
  step m after f s = let (r, s') = m s in proceed r after f s'

  abbrev pub set_phase : String → Run C → Run C
  set_phase phase s = record s { status = record s.status { phase = phase } }

  abbrev pub outcome : ℕ → Run C → Outcome C × Run C
  outcome after s = (record { requeue_after = after; error = none }, s)

module _ (C : Client) (svc : InferenceService) where
  unfoldable pub endpoint : String
  unfolding sprint
  endpoint =
      "http://"
      <> svc.name
      <> "."
      <> svc.namespace
      <> ".svc.cluster.local:"
      <> sprint serving_port
      <> "/v1"

  unfoldable pub listed : Result C.Error (List Pod) → M C (Option Trouble)
  unfolding pods_trouble
  listed (err e) s = (err (wrapped "list pods" e), s)
  listed (ok pods) s = (ok (pods_trouble pods), s)

  -- `podTrouble`; `none` stands for the three empty strings.
  unfoldable pub pod_trouble : M C (Option Trouble)
  unfolding listed list_pods
  pod_trouble = do pods ← list_pods C svc.namespace (selector_labels svc); listed pods

  -- What `reconcile` reports once it knows what keeps the pods from being ready.
  unfoldable pub not_ready : Option Trouble → Run C → Outcome C × Run C
  unfolding set_condition
  not_ready (some t) s =
      step (set_condition C svc cond_ready condition_false t.reason t.message) 0
        (λ _. outcome not_ready_requeue) (set_phase t.phase s)
  not_ready none s =
      step (set_condition C svc cond_ready condition_false "WeightsLoading" "no ready replicas yet")
        0 (λ _. outcome not_ready_requeue) (set_phase "Loading" s)

  -- The end of `reconcile`, from the Deployment that it read.
  unfoldable pub report : Deployment → Run C → Outcome C × Run C
  unfolding not_ready pod_trouble set_condition endpoint
  report dep s =
      let s' : Run C = record s {
        status = record s.status { ready_replicas = dep.ready_replicas; endpoint = endpoint };
      } in
      if ltb_ℤ (pos 0) dep.ready_replicas
      then step
          (set_condition C svc cond_ready condition_true "MinimumReplicasAvailable"
            "serving traffic")
          0 (λ _. outcome drift_requeue) (set_phase "Ready" s')
      else step pod_trouble 0 not_ready s'

  -- The claim template of the device class, or the removal of one that is no longer wanted.
  unfoldable pub reconcile_claim : M C (Unit {0})
  unfolding apply_or delete_if_owned
  reconcile_claim =
      if not (svc.spec.device_class == "")
      then apply_or C "apply resource claim template" (claim_template (desired_claim_template svc))
          field_owner true
      else delete_if_owned C svc resource_claim_templates (claim_template_name svc)

  unfoldable pub apply_service : M C (Unit {0})
  unfolding apply_or
  apply_service = apply_or C "apply service" (service (desired_service svc)) field_owner true

  -- What follows the Deployment.
  unfoldable pub deployed : String → Deployed → Run C → Outcome C × Run C
  unfolding apply_service reconcile_autoscaling reconcile_routing report
  deployed prometheus_address requeue s = outcome 5 s
  deployed prometheus_address (current dep) s =
      step
        (apply_service
          >> (reconcile_autoscaling C svc prometheus_address >> reconcile_routing C svc))
        0 (λ _. report dep) s

  unfoldable pub rejected : String → Run C → Outcome C × Run C
  unfolding set_condition
  rejected msg s =
      step (set_condition C svc cond_admitted condition_false "PolicyViolation" msg) 0
        (λ _ s'. outcome 0 (set_phase "Rejected" s')) s

  unfoldable pub admitted : String → Run C → Outcome C × Run C
  unfolding set_condition reconcile_claim reconcile_deployment deployed
  admitted prometheus_address s =
      step
        (set_condition C svc cond_admitted condition_true "PolicySatisfied"
            "spec passes placement policy"
          >> reconcile_claim)
        0 (λ _. step (reconcile_deployment C svc) 5 (deployed prometheus_address)) s

  unfoldable pub reconcile : String → Run C → Outcome C × Run C
  unfolding rejected admitted policy_violation
  reconcile prometheus_address s =
      if policy_violation svc == ""
      then admitted prometheus_address s
      else rejected (policy_violation svc) s

module _ (C : Client) where
  -- The status that `Reconcile` compares and writes.
  abbrev pub observed : InferenceService → InferenceServiceStatus → InferenceServiceStatus
  observed svc status = record status { observed_generation = svc.generation }

  -- The error that is returned: the status update's only if there is no other.
  unfoldable pub merged : Outcome C → Option C.Error → Outcome C
  merged out none = out
  merged out (some e) = elim out.error [
    | some _ ↦ out
    | none ↦ record { requeue_after = 0; error = some (plain e) }
  ]

  unfoldable pub conclude : InferenceService → Outcome C × Run C → Outcome C × Run C
  unfolding merged
  conclude svc (out, s) =
      let status = observed svc s.status in
      if C.deep_equal svc.status status
      then (out, record s { status = status })
      else let written : InferenceService = record svc { status = status } in
        let (e, w) = C.update_status written s.world in
        (
          merged out e,
          record s { world = w; status = status; events = updated_status written e ∷ s.events },
        )

  -- The run that starts from a service as it was read.
  abbrev pub start : InferenceService → C.World → Run C
  start svc w = record { world = w; status = svc.status; events = [] }

  -- What follows the `Get`; `none` where the service could not be read, so that nothing was done.
  unfoldable pub answered :
      String → Result C.Error InferenceService × C.World → Outcome C × Option (Run C)
  unfolding conclude
  answered prometheus_address (err e, w) = (
    record {
      requeue_after = 0;
      error = elim (C.ignore_not_found e) [ none ↦ none | some x ↦ some (plain x) ];
    },
    none,
  )
  answered prometheus_address (ok svc, w) =
      let (out, s) = conclude svc (reconcile C svc prometheus_address (start svc w)) in
      (out, some s)

  -- `Reconcile`
  unfoldable pub reconcile_key : String → NamespacedName → C.World → Outcome C × Option (Run C)
  unfolding answered
  reconcile_key prometheus_address key w =
      answered prometheus_address (C.get_inference_service key w)
