-- ===== src/Controller/History.antt =====
-- Many reconciles, with other writers between them: who decides on the replica count in the long run
-- (docs/adr/0004-operator-never-writes-replicas.md).
use llm_inference_platform.Prelude.{
  String, ◌≡◌, ◌⊎◌, inl, inr, true, false, some, List, [], ◌∷◌, ◌∙◌, arith, ap, sym,
}
use llm_inference_platform.Prelude.Int.{ℤ}
use llm_inference_platform.Prelude.Lists.{All, Any}
use llm_inference_platform.Prelude.Result.{ok, err}
use llm_inference_platform.Kube.Meta.{NamespacedName}
use llm_inference_platform.Kube.Client.{Client}
use llm_inference_platform.V1alpha1.{InferenceService}
use llm_inference_platform.Controller.Run.{Event, Run, got_deployment}
use llm_inference_platform.Controller.Trace.{Chain}
use llm_inference_platform.Controller.Deploy.{selector_outdated}
use llm_inference_platform.Controller.Reconcile.{Outcome, reconcile, start, conclude}
use llm_inference_platform.Controller.Protocol.Replicas.{ReplicasRule, reconcile-replicas}
use llm_inference_platform.Controller.Protocol.Deletes.{DeleteRule, reconcile-deletes}
use llm_inference_platform.Controller.Survival.{ServerSideApply, Disturbs, reconcile-count}

module _ {C : Client} (svc : InferenceService) where
  -- A read of the Deployment finds it, and it is on its way out already or has the service's selector.
  abbrev pub Finds : Event C → Type 0
  Finds (got_deployment _ (ok d)) = (d.metadata.deleting ≡ true) ⊎ (selector_outdated svc d ≡ false)
  Finds (got_deployment _ (err e)) = C.is_not_found e ≡ false
  Finds _ = Unit

  -- Where every read finds it, nothing creates or deletes it.
  Finds-Disturbs :
      (es : List (Event C))
      → Chain (DeleteRule svc) es
      → Chain (ReplicasRule svc) es
      → All Finds es
      → Any Disturbs es
      → ⊥
  Finds-Disturbs [] d r f a = a
  Finds-Disturbs (e ∷ past) d r f a = ground (arith, Finds-Disturbs past d.1 r.1 f.1)

-- Reads of the service and writes of its status leave the Deployment alone.
pub record SparesDeployment (C : Client) (S : ServerSideApply C) : Type 0 where
  pub get-service :
      (key : NamespacedName) (w : C.World)
      → (S.count (C.get_inference_service key w).1 ≡ S.count w)
        × (S.owns (C.get_inference_service key w).1 ≡ S.owns w)
  pub update-status :
      (svc : InferenceService) (w : C.World)
      → (S.count (C.update_status svc w).1 ≡ S.count w)
        × (S.owns (C.update_status svc w).1 ≡ S.owns w)

module _ (C : Client) (S : ServerSideApply C) (prometheus_address : String) where
  -- A history of the world, and the count that the last writer beside the operator left in it.
  pub data History : C.World → ℤ → Type 0 where
    begun : (w : C.World) (n : ℤ) → S.count w ≡ some n → S.owns w ≡ false → History w n
    -- A `Reconcile` of a service that it could read, whose reads of the Deployment find it to keep.
    reconciled :
        {w : C.World} {n : ℤ} (key : NamespacedName) (svc : InferenceService) (w' : C.World)
        → History w n
        → C.get_inference_service key w ≡ (ok svc, w')
        → All (Finds svc) (reconcile C svc prometheus_address (start C svc w')).1.events
        → History (conclude C svc (reconcile C svc prometheus_address (start C svc w'))).1.world n
    -- Whatever others do, the autoscaler among them, that leaves a Deployment whose count the operator
    -- does not own.
    changed :
        {w : C.World} {n : ℤ} (w' : C.World) (n' : ℤ)
        → History w n
        → S.count w' ≡ some n'
        → S.owns w' ≡ false
        → History w' n'

  module _ (P : SparesDeployment C S) where
    conclude-count :
        (svc : InferenceService) (o : Outcome C) (s : Run C)
        → (S.count (conclude C svc (o, s)).1.world ≡ S.count s.world)
          × (S.owns (conclude C svc (o, s)).1.world ≡ S.owns s.world)
    unfolding conclude
    conclude-count svc o s = grind (arith, P.update-status)

    undisturbed :
        (svc : InferenceService) (w : C.World) (n : ℤ)
        → S.count w ≡ some n
        → S.owns w ≡ false
        → All (Finds svc) (reconcile C svc prometheus_address (start C svc w)).1.events
        → (S.count (reconcile C svc prometheus_address (start C svc w)).1.world ≡ some n)
          × (S.owns (reconcile C svc prometheus_address (start C svc w)).1.world ≡ false)
    undisturbed svc w n c h finds = elim (reconcile-count C S svc prometheus_address w n c h) [
      | inl kept ↦ kept
      | inr disturbed ↦ absurd (
          Finds-Disturbs svc _ (reconcile-deletes C svc prometheus_address w)
            (reconcile-replicas C svc prometheus_address w).1 finds disturbed)
    ]

-- Where the API server keeps to the rules of server-side apply: along any history that begins with a
-- Deployment, of reconciles that find the Deployment with an up-to-date selector or on its way out, and
-- of other writers who leave a Deployment whose count the operator does not own, the replica count is
-- the one that the last other writer left, and the operator never comes to own it.
pub History-count :
    (C : Client) (S : ServerSideApply C) (prometheus_address : String) (P : SparesDeployment C S)
    (w : C.World) (n : ℤ)
    → History C S prometheus_address w n
    → (S.count w ≡ some n) × (S.owns w ≡ false)
History-count C S prometheus_address P w n (begun _ _ c h) = (c, h)
History-count C S prometheus_address P w n (reconciled {w = before} key svc w' past found finds) =
    let (same, unowned) = History-count C S prometheus_address P before n past in
    let (read_count, read_owns) = P.get-service key before in
    let (inner_count, inner_owns) =
      undisturbed C S prometheus_address P svc w' n
        (ap (λ r. S.count r.1) (sym found) ∙ read_count ∙ same)
        (ap (λ r. S.owns r.1) (sym found) ∙ read_owns ∙ unowned) finds in
    let (o, s) = reconcile C svc prometheus_address (start C svc w') in
    let (outer_count, outer_owns) = conclude-count C S prometheus_address P svc o s in
    (outer_count ∙ inner_count, outer_owns ∙ inner_owns)
History-count C S prometheus_address P w n (changed _ _ past c h) = (c, h)
