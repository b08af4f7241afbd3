-- ===== src/Tests/Runs.antt =====
-- Reconciles against the cluster in memory.
use llm_inference_platform.Prelude.{
  ◌≤◌, ◌≡◌, ◌≢◌, ◌⊎◌, inl, inr, refl, false, none, some, arith, eq_iff,
}
use llm_inference_platform.Prelude.Lists.{Any}
use llm_inference_platform.Prelude.Int.{pos}
use llm_inference_platform.Kube.Conditions.{view}
use llm_inference_platform.V1alpha1.{backend_ollama}
use llm_inference_platform.Prelude.Result.{err}
use llm_inference_platform.Kube.Client.{Client}
use llm_inference_platform.Controller.Run.{Run, wrapped}
use llm_inference_platform.Controller.Trace.{Chain}
use llm_inference_platform.Controller.Deploy.{current, selector_outdated, initial_replicas}
use llm_inference_platform.Workload.{desired_deployment}
use llm_inference_platform.Controller.Reconcile.{Outcome, reconcile, reconcile_key, start, deployed}
use llm_inference_platform.Controller.Protocol.{replica_writes}
use llm_inference_platform.Controller.Protocol.Replicas.{ReplicasRule, reconcile-replicas}
use llm_inference_platform.Controller.Protocol.Order.{OrderRule, reconcile-order}
use llm_inference_platform.Controller.Protocol.Scope.{ScopeRule, reconcile-scope}
use llm_inference_platform.Controller.Conditions.{Explained, reconcile-Explained}
use llm_inference_platform.Controller.Writes.{
  WritesOnce, reconcile_key-WritesOnce, returned_error, returned_requeue, write_error, events_of,
  reconcile_key-error,
}
use llm_inference_platform.Controller.AddOns.{keda_missing, pool_missing, deployed-LacksAddOns}
use llm_inference_platform.Controller.AddOns.Explained.{
  AddOnsExplained, Scaling, Routing, reconcile-AddOnsExplained,
}
use llm_inference_platform.Controller.FailsFast.{FailsFast, reconcile-FailsFast}
use llm_inference_platform.Controller.Survival.{Disturbs, reconcile-count}
use llm_inference_platform.Tests.Cluster.{
  cluster, cluster-SetsConditions, cluster-DecidesEqual, cluster-LacksAddOns,
  cluster-ServerSideApply, unknown_kind,
}
use llm_inference_platform.Tests.Data.{address, qwen, payroll, key, empty, scaled, running}

-- A first reconcile, which creates the Deployment, and one of a running service.
abbrev first_run : Outcome cluster × Run cluster
first_run = reconcile cluster qwen address (start cluster qwen empty)

abbrev later_run : Outcome cluster × Run cluster
later_run = reconcile cluster qwen address (start cluster qwen scaled)

reconcile-replicas_example :
    (replica_writes first_run.1.events ≤ 1) × Chain (ReplicasRule qwen) first_run.1.events
reconcile-replicas_example = reconcile-replicas cluster qwen address empty

reconcile-order_example : Chain (OrderRule qwen) first_run.1.events
reconcile-order_example = reconcile-order cluster qwen address empty

reconcile-scope_example : Chain (ScopeRule qwen) first_run.1.events
reconcile-scope_example = reconcile-scope cluster qwen address empty

reconcile-Explained_example : Explained qwen later_run.0.requeue_after later_run.0.error later_run.1
reconcile-Explained_example = reconcile-Explained cluster cluster-SetsConditions qwen address scaled

reconcile_key-WritesOnce_example : WritesOnce qwen (reconcile_key cluster address key scaled).1
reconcile_key-WritesOnce_example =
    reconcile_key-WritesOnce cluster address key scaled cluster-DecidesEqual refl

reconcile_key-error_example :
    let (outer, s) = reconcile_key cluster address key scaled in
    (outer.error ≡ returned_error later_run.0.error (write_error (events_of s)))
    × (outer.requeue_after
        ≡ returned_requeue later_run.0.error (write_error (events_of s)) later_run.0.requeue_after)
reconcile_key-error_example = reconcile_key-error cluster address key scaled refl

not_ollama : qwen.spec.backend ≢ backend_ollama
not_ollama = ground (arith, eq_iff "vLLM" backend_ollama)

deployed-LacksAddOns_example :
    let (o, s) = deployed cluster qwen address (current running) (start cluster qwen scaled) in
    (o.error ≡ none)
    × (view s.status.conditions "Autoscaling" ≡ some (keda_missing qwen))
    × (view s.status.conditions "Routing" ≡ some (pool_missing qwen))
deployed-LacksAddOns_example =
    deployed-LacksAddOns cluster cluster-SetsConditions cluster-LacksAddOns qwen address not_ollama
      running (start cluster qwen scaled)

reconcile-AddOnsExplained_example :
    AddOnsExplained qwen address later_run.0.requeue_after later_run.0.error later_run.1
reconcile-AddOnsExplained_example =
    reconcile-AddOnsExplained cluster cluster-SetsConditions qwen address scaled

-- A cluster that does not list pods.
abbrev broken : Client
broken = record cluster { list_pods = λ namespace labels w. (err unknown_kind, w) }

abbrev broken_run : Outcome broken × Run broken
broken_run = reconcile broken qwen address (start broken qwen empty)

broken_run_result :
    broken_run.0 ≡ record { requeue_after = 0; error = some (wrapped "list pods" unknown_kind) }
unfolding reconcile desired_deployment initial_replicas
broken_run_result = refl

reconcile-FailsFast_example : FailsFast broken_run.0.error broken_run.1.events
reconcile-FailsFast_example = reconcile-FailsFast broken qwen address empty

reconcile-count_example :
    ((later_run.1.world.replicas ≡ some (pos 3)) × (later_run.1.world.operator_owns ≡ false))
    ⊎ Any Disturbs later_run.1.events
reconcile-count_example =
    reconcile-count cluster cluster-ServerSideApply qwen address scaled (pos 3) refl refl

-- The running service: three replicas stay, and the next look is in five minutes.
later_run_result :
    (later_run.0 ≡ record { requeue_after = 300; error = none })
    × (later_run.1.world.replicas ≡ some (pos 3))
    × (replica_writes later_run.1.events ≡ 0)
unfolding reconcile selector_outdated desired_deployment
later_run_result = (refl, refl, refl)

-- The first run writes the count once, and waits for the weights.
first_run_result :
    (first_run.0 ≡ record { requeue_after = 30; error = none })
    × (first_run.1.world.replicas ≡ some (pos 1))
    × (replica_writes first_run.1.events ≡ 1)
    × (first_run.1.status.phase ≡ "Loading")
unfolding reconcile desired_deployment initial_replicas
first_run_result = (refl, refl, refl, refl)

rejected_run :
    (reconcile cluster payroll address (start cluster payroll empty)).1.status.phase ≡ "Rejected"
unfolding reconcile
rejected_run = refl

-- The cluster knows neither add-on, which both conditions say.
later_run_add_ons :
    Scaling qwen {C = cluster} address (some (keda_missing qwen)) later_run.1.events
    × Routing qwen {C = cluster} address (some (pool_missing qwen)) later_run.1.events
unfolding reconcile Scaling Routing selector_outdated desired_deployment
later_run_add_ons = (inr (not_ollama, inr (inl (refl, refl, refl))), inl (refl, refl, refl))
