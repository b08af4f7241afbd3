-- ===== src/Controller/Stateless.antt =====
-- The status is written and never read: a reconcile starts from the spec and from what it observes
-- (docs/adr/0009-status-reports-the-cluster.md).
use mathlib.Core.Path.{subst}
use llm_inference_platform.Prelude.{
  ℕ, String, ◌≡◌, ◌==◌, refl, sym, ap, ◌∙◌, arith, Bool-cases, inl, inr,
}
use llm_inference_platform.Prelude.Result.{Result, ok, err}
use llm_inference_platform.Kube.Core.{Deployment}
use llm_inference_platform.Kube.Meta.{condition_true}
use llm_inference_platform.Kube.Client.{Client}
use llm_inference_platform.V1alpha1.{InferenceService, InferenceServiceStatus}
use llm_inference_platform.Controller.Policy.{policy_violation}
use llm_inference_platform.Controller.Run.{Run, Failure, M, set_condition, ◌>>=◌}
use llm_inference_platform.Controller.Deploy.{
  Deployed, requeue, current, reconcile_deployment, selector_outdated, initial_replicas,
}
use llm_inference_platform.Controller.Autoscaling.{reconcile_autoscaling}
use llm_inference_platform.Controller.Routing.{reconcile_routing}
use llm_inference_platform.Workload.{desired_deployment, pod_spec, backend_container}
use llm_inference_platform.Workload.Containers.{
  vllm_args, vllm_container, ollama_container, model_cache_volume,
}
use llm_inference_platform.Workload.Startup.{startup_failure_threshold}
use llm_inference_platform.Resources.{desired_service}
use llm_inference_platform.Resources.Labels.{selector_labels, pod_labels, owner_ref, owner_ref_map}
use llm_inference_platform.Resources.Claim.{
  desired_claim_template, claim_template_name, exact_device_request,
}
use llm_inference_platform.Resources.Pool.{desired_inference_pool}
use llm_inference_platform.Resources.Scaling.{
  desired_scaled_object, metric_selector, settle, triggers, advanced, waiting_query, cache_query,
  latency_query,
}
use llm_inference_platform.Controller.Reconcile.{
  Outcome, report, apply_service, reconcile_claim, deployed, admitted, rejected, reconcile, start,
  cond_admitted, endpoint, step,
}

-- Two runs that end with the same result and differ in the status alone.
abbrev pub SameEnds : {C : Client} {R : Type 0} → R × Run C → R × Run C → Type 0
SameEnds (r, s) (q, t) = (r ≡ q) × (s.world ≡ t.world) × (s.events ≡ t.events)

-- A handler, or the rest of `reconcile`, that takes no notice of the status.
pub record Oblivious {C : Client} {R : Type 0} (m : Run C → R × Run C) : Type 0 where
  pub at :
      (s : Run C) (status : InferenceServiceStatus)
      → SameEnds (m s) (m (record s { status = status }))

module _ {C : Client} {A R : Type 0} (f : A → Run C → R × Run C)
    (k : (a : A) → Oblivious (f a)) where
  same_run :
      (s t : Run C) → s.world ≡ t.world → s.events ≡ t.events → record s { status = t.status } ≡ t
  same_run s t w e = ground arith

  continued :
      (a b : A) (s t : Run C)
      → a ≡ b
      → s.world ≡ t.world
      → s.events ≡ t.events
      → SameEnds (f a s) (f b t)
  continued a b s t p w e =
      subst (λ u. SameEnds (f a s) u) (ap (f a) (same_run s t w e) ∙ ap (λ x. f x t) p)
        ((k a).at s t.status)

module _ {C : Client} {A B : Type 0} (m : M C A) where
  bound :
      (f : A → M C B)
      → ((a : A) → Oblivious (f a))
      → (x y : Result (Failure C) A × Run C) → SameEnds x y
      → SameEnds (((λ _. x) >>= f) x.1) (((λ _. y) >>= f) y.1)
  bound f k (ok a, s) (ok b, t) (r, w, e) = continued f k a b s t (ground arith) w e
  bound f k (ok a, s) (err b, t) (r, w, e) = ground arith
  bound f k (err a, s) (ok b, t) (r, w, e) = ground arith
  bound f k (err a, s) (err b, t) (r, w, e) = (ground arith, w, e)

  pub Oblivious-bind :
      (f : A → M C B) → Oblivious m → ((a : A) → Oblivious (f a)) → Oblivious (m >>= f)
  Oblivious-bind f o k = record {
    at = λ s status. bound f k (m s) (m (record s { status = status })) (o.at s status);
  }

module _ {C : Client} {A : Type 0} (m : M C A) (after : ℕ) (f : A → Run C → Outcome C × Run C)
    (k : (a : A) → Oblivious (f a)) where
  stepped :
      (x y : Result (Failure C) A × Run C)
      → SameEnds x y
      → SameEnds (step (λ _. x) after f x.1) (step (λ _. y) after f y.1)
  stepped (ok a, s) (ok b, t) (r, w, e) = continued f k a b s t (ground arith) w e
  stepped (ok a, s) (err b, t) (r, w, e) = ground arith
  stepped (err a, s) (ok b, t) (r, w, e) = ground arith
  stepped (err a, s) (err b, t) (r, w, e) = (ground arith, w, e)

  Oblivious-step : Oblivious m → Oblivious (step m after f)
  Oblivious-step o = record {
    at = λ s status. stepped (m s) (m (record s { status = status })) (o.at s status);
  }

module _ (C : Client) (svc : InferenceService) (old : InferenceServiceStatus)
    (prometheus_address : String) where
  abbrev aged : InferenceService
  aged = record svc { status = old }

  pub aged-reconcile : reconcile C aged prometheus_address ≡ reconcile C svc prometheus_address
  unfolding reconcile desired_deployment initial_replicas selector_outdated desired_scaled_object
      desired_inference_pool desired_service desired_claim_template claim_template_name
      selector_labels pod_labels owner_ref owner_ref_map policy_violation metric_selector settle
      triggers advanced waiting_query cache_query latency_query exact_device_request pod_spec
      backend_container vllm_container ollama_container vllm_args model_cache_volume
      startup_failure_threshold endpoint
  aged-reconcile = refl

  pub admit_step : Oblivious (
      set_condition C svc cond_admitted condition_true "PolicySatisfied"
        "spec passes placement policy")
  unfolding set_condition
  admit_step = record { at = λ s status. (refl, refl, refl) }

  pub claim_step : Oblivious (reconcile_claim C svc)
  unfolding reconcile_claim
  claim_step = record { at = λ s status. grind arith }

  pub deployment_step : Oblivious (reconcile_deployment C svc)
  unfolding reconcile_deployment
  deployment_step = record { at = λ s status. grind arith }

  pub service_step : Oblivious (apply_service C svc)
  unfolding apply_service
  service_step = record { at = λ s status. grind arith }

  pub autoscaling_step : Oblivious (reconcile_autoscaling C svc prometheus_address)
  unfolding reconcile_autoscaling
  autoscaling_step = record { at = λ s status. grind arith }

  pub routing_step : Oblivious (reconcile_routing C svc)
  unfolding reconcile_routing
  routing_step = record { at = λ s status. grind arith }

  pub report_step : (d : Deployment) → Oblivious (report C svc d)
  unfolding report
  report_step d = record { at = λ s status. grind arith }

  pub rejected_step : Oblivious (rejected C svc (policy_violation svc))
  unfolding rejected
  rejected_step = record { at = λ s status. (refl, refl, refl) }

  deployed_step : (d : Deployed) → Oblivious (deployed C svc prometheus_address d)
  unfolding deployed
  deployed_step requeue = record { at = λ s status. (refl, refl, refl) }
  deployed_step (current d) =
      Oblivious-step _ 0 _ (λ _. report_step d)
        (Oblivious-bind _ _ service_step
          (λ _. Oblivious-bind _ _ autoscaling_step (λ _. routing_step)))

  admitted_step : Oblivious (admitted C svc prometheus_address)
  unfolding admitted
  admitted_step =
      Oblivious-step _ 0 _ (λ _. Oblivious-step _ 5 _ deployed_step deployment_step)
        (Oblivious-bind _ _ admit_step (λ _. claim_step))

  reconcile_step : Oblivious (reconcile C svc prometheus_address)
  unfolding reconcile
  reconcile_step = record {
    at = λ s status. elim (Bool-cases (policy_violation svc == "")) [
      | inl passes ↦ rw passes (admitted_step.at s status)
      | inr fails ↦ rw fails (rejected_step.at s status)
    ];
  }

-- Two services that differ in the status alone are reconciled alike: from one world, with the same
-- calls and the same answers to them, to the same world and the same outcome. What an earlier run, or
-- anyone else, wrote into the status decides nothing.
pub reconcile-Oblivious :
    (C : Client) (svc : InferenceService) (old : InferenceServiceStatus)
    (prometheus_address : String) (w : C.World)
    → let aged : InferenceService = record svc { status = old } in
      SameEnds
        (reconcile C svc prometheus_address (start C svc w))
        (reconcile C aged prometheus_address (start C aged w))
reconcile-Oblivious C svc old prometheus_address w =
    subst
      (λ m.
        SameEnds (reconcile C svc prometheus_address (start C svc w))
          (m (start C (record svc { status = old }) w)))
      (sym (aged-reconcile C svc old prometheus_address))
      ((reconcile_step C svc old prometheus_address).at (start C svc w) old)
