-- ===== src/Tests/Deployments.antt =====
-- The running Deployment, which is kept, and one that is made anew.
use llm_inference_platform.Prelude.{◌≡◌, ◌↔◌, refl, true, false, Option, none, some, [], ◌∷◌, arith}
use llm_inference_platform.Prelude.Maps.{lookup}
use llm_inference_platform.Prelude.Result.{ok}
use llm_inference_platform.Kube.Core.{Deployment}
use llm_inference_platform.Kube.Client.{deployments}
use llm_inference_platform.Kube.Conditions.{view}
use llm_inference_platform.Kube.Configuration.{claim_template}
use llm_inference_platform.Resources.Claim.{desired_claim_template}
use llm_inference_platform.Controller.Run.{applied, deleted, got_deployment}
use llm_inference_platform.Controller.Conditions.{recreating}
use llm_inference_platform.Controller.Deploy.{selector_outdated, reconcile_deployment, service_key}
use llm_inference_platform.Controller.Deploy.Selector.{
  after_delete, reconcile_deployment-Recreated, IsMap, Selected, selector_outdated-Selected,
}
use llm_inference_platform.Controller.Reconcile.{reconcile, start}
use llm_inference_platform.Controller.Trace.{Chain}
use llm_inference_platform.Controller.Protocol.Deletes.{DeleteRule, reconcile-deletes}
use llm_inference_platform.Tests.Cluster.{Cluster, ClusterError, cluster, cluster-SetsConditions}
use llm_inference_platform.Tests.Data.{address, qwen, scaled, running}

running-IsMap : IsMap running.selector
unfolding lookup
running-IsMap = ground arith

selector_outdated-Selected_example :
    (selector_outdated qwen running ≡ false) ↔ Selected qwen running.selector
selector_outdated-Selected_example = selector_outdated-Selected qwen running running-IsMap

-- The Deployment of an older operator, with a label less in its selector.
abbrev older : Deployment
older = record running { selector = some (("app.kubernetes.io/instance", "qwen-small") ∷ []) }

abbrev outdated : Cluster
outdated = record scaled { deployed = some older }

-- The reconcile that deletes it.
reconcile-deletes_example :
    Chain (DeleteRule qwen) (reconcile cluster qwen address (start cluster qwen outdated)).1.events
reconcile-deletes_example = reconcile-deletes cluster qwen address outdated

outdated_run :
    let (o, s) = reconcile cluster qwen address (start cluster qwen outdated) in
    (o ≡ record { requeue_after = 5; error = none })
    × (s.events ≡ (
        deleted deployments older.metadata (some "Background") none
        ∷ got_deployment (service_key qwen) (ok older)
        ∷ applied (claim_template (desired_claim_template qwen)) "inference-operator" true none
        ∷ []))
unfolding reconcile selector_outdated
outdated_run = (refl, refl)

older-IsMap : IsMap older.selector
unfolding lookup
older-IsMap = ground arith

older-Selected : ¬ (Selected qwen older.selector)
unfolding selector_outdated
older-Selected same =
    let kept = (selector_outdated-Selected qwen older older-IsMap).1 same in ground arith

reconcile_deployment-Recreated_example :
    let s = start cluster qwen outdated in
    let (r, s') = reconcile_deployment cluster qwen s in
    (answer : Option ClusterError) × (s'.events ≡ (
      deleted deployments older.metadata (some "Background") answer
      ∷ got_deployment (service_key qwen) (ok older)
      ∷ s.events))
    × (r ≡ after_delete cluster qwen older answer)
    × (view s'.status.conditions "Ready" ≡ some (recreating qwen))
reconcile_deployment-Recreated_example =
    reconcile_deployment-Recreated cluster qwen older cluster-SetsConditions
      (start cluster qwen outdated) refl refl older-IsMap older-Selected
