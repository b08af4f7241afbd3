-- ===== src/Tests/Histories.antt =====
-- The autoscaler scales the running service to five, and a reconcile follows; and runs from two
-- statuses.
use llm_inference_platform.Prelude.{List, [], ◌∷◌, ◌≡◌, false, refl, some, arith}
use llm_inference_platform.Prelude.Int.{pos}
use llm_inference_platform.Prelude.Lists.{All}
use llm_inference_platform.Controller.Run.{Run}
use llm_inference_platform.Controller.Deploy.{selector_outdated}
use llm_inference_platform.Controller.Reconcile.{reconcile, start, conclude}
use llm_inference_platform.Controller.History.{
  Finds, SparesDeployment, History, begun, changed, reconciled, History-count,
}
use llm_inference_platform.Controller.Idempotence.{KeepsConditions}
use llm_inference_platform.Controller.Idempotence.Repeated.{reconciled_service, conclude-repeated}
use llm_inference_platform.Kube.Meta.{Condition, find_condition}
use llm_inference_platform.Kube.Conditions.{view, timeless}
use llm_inference_platform.Controller.Stateless.{SameEnds, reconcile-Oblivious}
use llm_inference_platform.V1alpha1.{InferenceServiceStatus}
use llm_inference_platform.Workload.{desired_deployment}
use llm_inference_platform.Tests.Cluster.{
  set_condition, cluster-SetsConditions, cluster-DecidesEqual, Cluster, cluster,
  cluster-ServerSideApply,
}
use llm_inference_platform.Tests.Data.{qwen, key, address, scaled}

abbrev cluster-SparesDeployment : SparesDeployment cluster cluster-ServerSideApply
cluster-SparesDeployment = record {
  get-service = λ key w. (refl, refl);
  update-status = λ svc w. (refl, refl);
}

abbrev five : Cluster
five = record scaled { replicas = some (pos 5) }

five-Finds : All (Finds qwen) (reconcile cluster qwen address (start cluster qwen five)).1.events
unfolding reconcile selector_outdated desired_deployment
five-Finds = ground arith

abbrev settled : Run cluster
settled = (conclude cluster qwen (reconcile cluster qwen address (start cluster qwen five))).1

abbrev history : History cluster cluster-ServerSideApply address settled.world (pos 5)
history =
    reconciled key qwen five (changed five (pos 5) (begun scaled (pos 3) refl refl) refl refl) refl
      five-Finds

History-count_example :
    (settled.world.replicas ≡ some (pos 5)) × (settled.world.operator_owns ≡ false)
History-count_example =
    History-count cluster cluster-ServerSideApply address cluster-SparesDeployment settled.world
      (pos 5) history

abbrev stale : InferenceServiceStatus
stale = record qwen.status { phase = "Ready"; ready_replicas = pos 9 }

reconcile-Oblivious_example :
    SameEnds (reconcile cluster qwen address (start cluster qwen scaled)) (
      reconcile cluster
        (record qwen { status = stale })
        address
        (start cluster (record qwen { status = stale }) scaled))
reconcile-Oblivious_example = reconcile-Oblivious cluster qwen stale address scaled

timeless-same :
    (x c : Condition)
    → some (timeless x) ≡ some (timeless c)
    → record c { last_transition_time = x.last_transition_time } ≡ x
timeless-same x c h = ground arith

set_condition-same :
    (conditions : List Condition) (c : Condition)
    → view conditions c.kind ≡ some (timeless c)
    → set_condition conditions c ≡ conditions
unfolding view find_condition
set_condition-same [] c h = ground arith
set_condition-same (x ∷ xs) c h = ground (arith, set_condition-same xs c, timeless-same x c)

abbrev cluster-KeepsConditions : KeepsConditions cluster
cluster-KeepsConditions = record {
  set-same = λ w conditions c h. set_condition-same conditions c h;
}

conclude-repeated_example :
    let again = reconciled_service cluster qwen address scaled in
    let first = reconcile cluster qwen address (start cluster qwen scaled) in
    let (o, t) =
      conclude cluster again (reconcile cluster again address (start cluster again scaled)) in
    (o ≡ first.0)
    × (t.events ≡ first.1.events)
    × (t.world ≡ first.1.world)
    × (t.status ≡ again.status)
conclude-repeated_example =
    conclude-repeated cluster cluster-SetsConditions cluster-KeepsConditions cluster-DecidesEqual
      qwen address scaled
