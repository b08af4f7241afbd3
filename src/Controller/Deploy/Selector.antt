-- ===== src/Controller/Deploy/Selector.antt =====
-- Which Deployments are kept and which are made anew: the test on the selector, which cannot be
-- changed in place, and what `reconcileDeployment` does where it fails.
use llm_inference_platform.Prelude.{
  String, ◌≡◌, ◌↔◌, inl, inr, false, refl, Option, none, some, ◌∷◌, arith, Bool-cases,
}
use llm_inference_platform.Prelude.Maps.{Map, lookup}
use llm_inference_platform.Prelude.Maps.Equality.{Distinct, equal-Same}
use llm_inference_platform.Prelude.Result.{Result, ok, err}
use llm_inference_platform.Kube.Conditions.{SetsConditions, view}
use llm_inference_platform.Controller.Conditions.{recreating}
use llm_inference_platform.Kube.Core.{Deployment}
use llm_inference_platform.Kube.Client.{Client, deployments}
use llm_inference_platform.V1alpha1.{InferenceService}
use llm_inference_platform.Resources.Labels.{selector_labels}
use llm_inference_platform.Controller.Run.{Run, got_deployment, Failure, plain, deleted}
use llm_inference_platform.Controller.Deploy.{
  Deployed, requeue, selector_outdated, reconcile_deployment, service_key,
}

abbrev pub IsMap : Option (Map String) → Type 0
IsMap none = Unit
IsMap (some m) = Distinct m

-- The selector has the value of the service's selector, or none, at every key.
abbrev pub Selected : InferenceService → Option (Map String) → Type 0
Selected svc none = ⊥
Selected svc (some m) = (k : String) → lookup k m ≡ lookup k (selector_labels svc)

selector_labels-Distinct : (svc : InferenceService) → Distinct (selector_labels svc)
unfolding selector_labels lookup
selector_labels-Distinct svc = ground arith

outdated-Selected :
    (svc : InferenceService) (d : Deployment) (o : Option (Map String))
    → d.selector ≡ o
    → IsMap o
    → (selector_outdated svc d ≡ false) ↔ Selected svc o
unfolding selector_outdated
outdated-Selected svc d none p h = ground arith
outdated-Selected svc d (some m) p h =
    let same = equal-Same m (selector_labels svc) h (selector_labels-Distinct svc) in
    (λ e. same.0 (ground arith), λ f. let found = same.1 f in ground arith)

-- A selector is found up to date exactly if the Deployment has one, and it has the value of the
-- service's selector, or none, at every key, where no key of it occurs twice.
pub selector_outdated-Selected :
    (svc : InferenceService) (d : Deployment)
    → IsMap d.selector
    → (selector_outdated svc d ≡ false) ↔ Selected svc d.selector
selector_outdated-Selected svc d h = outdated-Selected svc d d.selector refl h

module _ (C : Client) (svc : InferenceService) (d : Deployment) where
  -- What the delete gives `reconcileDeployment` to return.
  abbrev pub after_delete : Option C.Error → Result (Failure C) Deployed
  after_delete none = ok requeue
  after_delete (some e) = elim (C.ignore_not_found e) [ none ↦ ok requeue | some x ↦ err (plain x) ]

  -- Where `meta.SetStatusCondition` writes the condition of its type: a Deployment that is found with
  -- another selector, and is not being deleted, is deleted once, in the background and after nothing
  -- but the read; Ready says so, and the handler asks for another look, unless the delete fails
  -- otherwise than for an object that is gone.
  pub reconcile_deployment-Recreated :
      (L : SetsConditions C) (s : Run C)
      → (C.get_deployment (service_key svc) s.world).0 ≡ ok d
      → d.metadata.deleting ≡ false
      → IsMap d.selector
      → ¬ (Selected svc d.selector)
      → let (r, s') = reconcile_deployment C svc s in
        (answer : Option C.Error) × (s'.events ≡ (
          deleted deployments d.metadata (some "Background") answer
          ∷ got_deployment (service_key svc) (ok d)
          ∷ s.events))
        × (r ≡ after_delete answer)
        × (view s'.status.conditions "Ready" ≡ some (recreating svc))
  unfolding reconcile_deployment
  reconcile_deployment-Recreated L s found alive h other =
      let w = (C.get_deployment (service_key svc) s.world).1 in
      elim (Bool-cases (selector_outdated svc d)) [
        | inl outdated ↦ (
          (C.delete deployments d.metadata (some "Background") w).0,
          grind arith,
          grind arith,
          grind (arith, L.view-set),
        )
        | inr kept ↦ absurd (other ((selector_outdated-Selected svc d h).0 kept))
      ]
