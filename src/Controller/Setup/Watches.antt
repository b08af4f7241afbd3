-- ===== src/Controller/Setup/Watches.antt =====
-- Which kinds are watched.
use llm_inference_platform.Prelude.{◌≡◌, Bool, true, ◌↔◌, arith, List}
use llm_inference_platform.Prelude.Lists.{Any}
use llm_inference_platform.Kube.Dynamic.{GroupVersionKind}
use llm_inference_platform.Resources.Scaling.{scaled_object_gvk}
use llm_inference_platform.Resources.Pool.{inference_pool_gvk}
use llm_inference_platform.Controller.Setup.{
  Owned, deployments, services, resource_claim_templates, dynamic, owned_kinds,
}

abbrev pub Watches : List Owned → Owned → Type 0
Watches kinds k = Any (λ (o : Owned). o ≡ k) kinds

-- Whatever the REST mapper knows, the controller watches the Deployments, the Services and the claim
-- templates, and of the two optional kinds each exactly if the mapper knows it.
pub owned_kinds-Watches :
    (mapped : GroupVersionKind → Bool)
    → Watches (owned_kinds mapped) deployments
      × Watches (owned_kinds mapped) services
      × Watches (owned_kinds mapped) resource_claim_templates
      × (Watches (owned_kinds mapped) (dynamic scaled_object_gvk)
          ↔ (mapped scaled_object_gvk ≡ true))
      × (Watches (owned_kinds mapped) (dynamic inference_pool_gvk)
          ↔ (mapped inference_pool_gvk ≡ true))
unfolding owned_kinds
owned_kinds-Watches mapped = ground arith
