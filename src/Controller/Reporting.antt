-- ===== src/Controller/Reporting.antt =====
-- What a reconcile reports: the phase, the replicas and the requeue, against what it observed
-- (docs/adr/0009-status-reports-the-cluster.md).
use llm_inference_platform.Prelude.{
  ℕ, String, ◌≡◌, ◌≢◌, ◌⊎◌, true, false, Option, none, some, List, [], ◌∷◌,
}
use llm_inference_platform.Prelude.Int.{ℤ, pos, ltb_ℤ}
use llm_inference_platform.Prelude.Result.{ok, err}
use llm_inference_platform.Kube.Core.{Deployment}
use llm_inference_platform.Kube.Client.{Client, deployments}
use llm_inference_platform.Kube.Configuration.{deployment}
use llm_inference_platform.V1alpha1.{InferenceService, InferenceServiceStatus}
use llm_inference_platform.Resources.Labels.{selector_labels}
use llm_inference_platform.Controller.Policy.{policy_violation}
use llm_inference_platform.Controller.Trouble.{Trouble, pods_trouble}
use llm_inference_platform.Controller.Run.{
  Event, Run, Failure, got_deployment, listed_pods, applied, deleted,
}
use llm_inference_platform.Controller.Deploy.{
  Deployed, requeue, current, field_owner, selector_outdated,
}
use llm_inference_platform.Controller.Reconcile.{Outcome}

abbrev pub trouble_phase : Option Trouble → String
trouble_phase none = "Loading"
trouble_phase (some t) = t.phase

module _ (svc : InferenceService) where
  abbrev pub Rejected : ℕ → InferenceServiceStatus → Type 0
  Rejected after status = (policy_violation svc ≢ "") × (after ≡ 0) × (status.phase ≡ "Rejected")

  -- The phase and the replicas are those of the status that was read.
  abbrev pub Unreported : InferenceServiceStatus → Type 0
  Unreported status =
      (status.phase ≡ svc.status.phase) × (status.ready_replicas ≡ svc.status.ready_replicas)

-- The delete found the object, or it was gone already.
abbrev Gone : (C : Client) → Option C.Error → Type 0
Gone C none = Unit
Gone C (some e) = C.ignore_not_found e ≡ none

module _ {C : Client} where
  -- The last call found the Deployment on its way out, or deleted it for its selector, right after it
  -- was read.
  abbrev pub Leaving : InferenceService → List (Event C) → Type 0
  Leaving svc (got_deployment _ (ok d) ∷ _) = d.metadata.deleting ≡ true
  Leaving svc (deleted deployments object _ answer ∷ got_deployment _ (ok d) ∷ _) =
      (object ≡ d.metadata) × (selector_outdated svc d ≡ true) × Gone C answer
  Leaving svc _ = ⊥

  abbrev pub Waiting : InferenceService → ℕ → InferenceServiceStatus → List (Event C) → Type 0
  Waiting svc after status events =
      (policy_violation svc ≡ "") × (after ≡ 5) × Unreported svc status × Leaving svc events

  abbrev AfterApply : List (Event C) → Type 0
  AfterApply (applied (deployment d) owner force none ∷ _) = (owner ≡ field_owner) × (force ≡ true)
  AfterApply _ = ⊥

  -- The last read of a Deployment came right after its apply, and found this many ready replicas.
  abbrev pub LastRead : ℤ → List (Event C) → Type 0
  LastRead n [] = ⊥
  LastRead n (got_deployment _ (ok d) ∷ past) = (d.ready_replicas ≡ n) × AfterApply past
  LastRead n (got_deployment _ (err e) ∷ past) = ⊥
  LastRead n (_ ∷ past) = LastRead n past

  module _ (svc : InferenceService) where
    -- The last call listed the service's pods, and the phase is what they say.
    abbrev pub PodsSay : String → List (Event C) → Type 0
    PodsSay phase (listed_pods namespace labels (ok pods) ∷ _) =
        (namespace ≡ svc.namespace)
        × (labels ≡ selector_labels svc)
        × (phase ≡ trouble_phase (pods_trouble pods))
    PodsSay phase _ = ⊥

    abbrev pub Ready : ℕ → InferenceServiceStatus → List (Event C) → Type 0
    Ready after status events =
        (policy_violation svc ≡ "")
        × (after ≡ 300)
        × (status.phase ≡ "Ready")
        × (ltb_ℤ (pos 0) status.ready_replicas ≡ true)
        × LastRead status.ready_replicas events

    abbrev pub NotReady : ℕ → InferenceServiceStatus → List (Event C) → Type 0
    NotReady after status events =
        (policy_violation svc ≡ "")
        × (after ≡ 30)
        × PodsSay status.phase events
        × (ltb_ℤ (pos 0) status.ready_replicas ≡ false)
        × LastRead status.ready_replicas events

    -- An error comes with a requeue of 5 seconds or none; a success is one of four.
    abbrev pub Reported : ℕ → Option (Failure C) → Run C → Type 0
    Reported after (some e) s = (policy_violation svc ≡ "") × ((after ≡ 0) ⊎ (after ≡ 5))
    Reported after none s =
        Rejected svc after s.status
        ⊎ Waiting svc after s.status s.events
        ⊎ Ready after s.status s.events
        ⊎ NotReady after s.status s.events

module _ (C : Client) (svc : InferenceService) (prometheus_address : String) where
  abbrev Passed : Run C → Type 0
  Passed s = policy_violation svc ≡ ""

  -- Nothing of the status but its conditions was written yet.
  abbrev Before : Run C → Type 0
  Before s = (policy_violation svc ≡ "") × Unreported svc s.status

  abbrev Seen : Deployment → Run C → Type 0
  Seen d s = (policy_violation svc ≡ "") × LastRead d.ready_replicas s.events

  abbrev SeenIn : Deployed → Run C → Type 0
  SeenIn requeue s = Before s × Leaving svc s.events
  SeenIn (current d) s = Seen d s

  abbrev Reports : Outcome C → Run C → Type 0
  Reports o s = Reported svc o.requeue_after o.error s
