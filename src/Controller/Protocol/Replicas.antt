-- ===== src/Controller/Protocol/Replicas.antt =====
-- The replica count is written once, at creation (docs/adr/0004-operator-never-writes-replicas.md).
use llm_inference_platform.Prelude.{
  ◌≤◌, String, ◌≡◌, Bool, false, Option, none, some, List, [], ◌∷◌, refl, arith,
}
use llm_inference_platform.Prelude.Int.{ℤ}
use llm_inference_platform.Kube.Configuration.{DeploymentConfiguration, deployment}
use llm_inference_platform.Kube.Client.{Client}
use llm_inference_platform.V1alpha1.{InferenceService}
use llm_inference_platform.Workload.{desired_deployment}
use llm_inference_platform.Controller.Run.{Event, Run, applied}
use llm_inference_platform.Controller.Trace.{Chain, Chain-map}
use llm_inference_platform.Controller.Deploy.{field_owner, initial_replicas_owner, initial_replicas}
use llm_inference_platform.Controller.Reconcile.{reconcile, start}
use llm_inference_platform.Controller.Protocol.{Permitted, JustCreated, replica_writes}
use llm_inference_platform.Controller.Protocol.Steps.{reconcile-Good}

-- The Deployment of the service with this count and no other field.
abbrev pub HoldsOnly : InferenceService → ℤ → DeploymentConfiguration → Type 0
HoldsOnly svc n d = d ≡ record {
  metadata = record {
    name = svc.name;
    namespace = svc.namespace;
    labels = [];
    owner_references = [];
  };
  replicas = some n;
  selector = none;
  template = none;
}

module _ {C : Client} (svc : InferenceService) where
  -- A Deployment with a replica count carries nothing else, holds `minReplicas`, goes out unforced
  -- under the second name, and follows the creation of a Deployment that was not found. One without
  -- a count goes out under the operator's name.
  abbrev pub CountRule :
      Option ℤ → DeploymentConfiguration → String → Bool → List (Event C) → Type 0
  CountRule none d owner force past = owner ≡ field_owner
  CountRule (some n) d owner force past =
      (n ≡ svc.spec.autoscaling.min_replicas)
      × HoldsOnly svc n d
      × (owner ≡ initial_replicas_owner)
      × (force ≡ false)
      × JustCreated past

  abbrev pub ReplicasRule : Event C → List (Event C) → Type 0
  ReplicasRule (applied (deployment d) owner force _) past = CountRule d.replicas d owner force past
  ReplicasRule _ past = Unit

  module _ (prometheus_address : String) where
    Permitted-ReplicasRule :
        (e : Event C) (past : List (Event C))
        → Permitted svc prometheus_address e past
        → ReplicasRule e past
    unfolding desired_deployment initial_replicas
    Permitted-ReplicasRule (applied (deployment d) owner force r) past h = ground arith
    Permitted-ReplicasRule e past h = ground arith

    Chain-replica_writes :
        (es : List (Event C)) → Chain (Permitted svc prometheus_address) es → replica_writes es ≤ 1
    unfolding desired_deployment
    Chain-replica_writes [] h = omega arith
    Chain-replica_writes (e ∷ past) h = ground (arith, Chain-replica_writes past h.1)

-- Whatever the API server answers, a reconcile writes a replica count at most once: `minReplicas`,
-- with the name and the namespace and no other field, unforced under the second field manager, right after the operator created a Deployment
-- that its read did not find. Every other apply of a Deployment lists no count and goes out under the
-- operator's own field manager.
pub reconcile-replicas :
    (C : Client) (svc : InferenceService) (prometheus_address : String) (w : C.World)
    → let s : Run C = (reconcile C svc prometheus_address (start C svc w)).1 in
      (replica_writes s.events ≤ 1) × Chain (ReplicasRule svc) s.events
reconcile-replicas C svc prometheus_address w =
    let good = reconcile-Good C svc prometheus_address (start C svc w) (tt, refl) in
    (
      Chain-replica_writes svc prometheus_address _ good,
      Chain-map _ _ (Permitted-ReplicasRule svc prometheus_address) _ good,
    )
