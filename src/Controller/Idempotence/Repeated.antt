-- ===== src/Controller/Idempotence/Repeated.antt =====
-- The second `Reconcile`.
use llm_inference_platform.Prelude.{String, ◌≡◌, sym, ap, ◌∙◌, true, arith}
use llm_inference_platform.Kube.Client.{Client}
use llm_inference_platform.Kube.Conditions.{SetsConditions}
use llm_inference_platform.V1alpha1.{InferenceService}
use llm_inference_platform.Controller.Run.{Run}
use llm_inference_platform.Controller.Reconcile.{Outcome, reconcile, conclude, start, observed}
use llm_inference_platform.Controller.Stateless.{aged-reconcile, reconcile-Oblivious}
use llm_inference_platform.Controller.Writes.{DecidesEqual}
use llm_inference_platform.Controller.Idempotence.{KeepsConditions}
use llm_inference_platform.Controller.Idempotence.Steps.{reconcile_step}

module _ (C : Client) (svc : InferenceService) (prometheus_address : String) (w : C.World) where
  -- The service as the first `Reconcile` leaves it.
  abbrev pub reconciled_service : InferenceService
  reconciled_service = record svc {
    status = observed C svc (reconcile C svc prometheus_address (start C svc w)).1.status;
  }

reconcile-repeated :
    (C : Client) (L : SetsConditions C) (I : KeepsConditions C) (svc : InferenceService)
    (prometheus_address : String) (w : C.World)
    → let again = reconciled_service C svc prometheus_address w in
      let s = (reconcile C again prometheus_address (start C again w)).1 in
      observed C again s.status ≡ again.status
reconcile-repeated C L I svc prometheus_address w =
    let again = reconciled_service C svc prometheus_address w in
    ap (λ m. observed C again (m (start C again w)).1.status)
      (aged-reconcile C svc again.status prometheus_address)
    ∙ ap (observed C again)
        ((reconcile_step C L I svc prometheus_address).settles (start C svc w) svc.generation)

conclude-same :
    (C : Client) (D : DecidesEqual C) (svc : InferenceService) (o : Outcome C) (s : Run C)
    → observed C svc s.status ≡ svc.status
    → let (o', t) = conclude C svc (o, s) in
      (o' ≡ o) × (t.events ≡ s.events) × (t.world ≡ s.world) × (t.status ≡ svc.status)
unfolding conclude
conclude-same C D svc o s same =
    let equal : C.deep_equal svc.status (observed C svc s.status) ≡ true =
      (D svc.status (observed C svc s.status)).1 (sym same) in
    ground arith

-- Where `meta.SetStatusCondition` writes the condition of its type and no other, and nothing if it is
-- there already, and DeepEqual decides equality: a service as a `Reconcile` left it, reconciled again
-- against the same world, ends with the outcome of the first reconcile and the status that it has,
-- and the status is not written.
pub conclude-repeated :
    (C : Client) (L : SetsConditions C) (I : KeepsConditions C) (D : DecidesEqual C)
    (svc : InferenceService) (prometheus_address : String) (w : C.World)
    → let again = reconciled_service C svc prometheus_address w in
      let first = reconcile C svc prometheus_address (start C svc w) in
      let (o, t) = conclude C again (reconcile C again prometheus_address (start C again w)) in
      (o ≡ first.0)
      × (t.events ≡ first.1.events)
      × (t.world ≡ first.1.world)
      × (t.status ≡ again.status)
conclude-repeated C L I D svc prometheus_address w =
    let again = reconciled_service C svc prometheus_address w in
    let (o, s) = reconcile C again prometheus_address (start C again w) in
    let (outcome, events, world, status) =
      conclude-same C D again o s (reconcile-repeated C L I svc prometheus_address w) in
    let (same_outcome, same_world, same_events) =
      reconcile-Oblivious C svc again.status prometheus_address w in
    (outcome ∙ sym same_outcome, events ∙ sym same_events, world ∙ sym same_world, status)
