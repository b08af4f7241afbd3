-- ===== src/Controller/Permissions/Watched.antt =====
-- The markers allow the watches that the set-up asks for.
use llm_inference_platform.Prelude.{String, ◌≡◌, refl, Bool, Bool-cases, inl, inr, List, [], ◌∷◌}
use llm_inference_platform.Prelude.Lists.{All}
use llm_inference_platform.Kube.Dynamic.{GroupVersionKind}
use llm_inference_platform.Resources.Scaling.{scaled_object_gvk}
use llm_inference_platform.Resources.Pool.{inference_pool_gvk}
use llm_inference_platform.Controller.Setup.{
  Owned, deployments, services, resource_claim_templates, dynamic, owned_kinds,
}
use llm_inference_platform.Controller.Permissions.{markers, MayUse, all_allowed}

abbrev pub watching : List String
watching = "list" ∷ "watch" ∷ []

module _ (plural : GroupVersionKind → String) where
  abbrev pub MayWatch : Owned → Type 0
  MayWatch deployments = MayUse markers plural "apps" "deployments" watching
  MayWatch services = MayUse markers plural "core" "services" watching
  MayWatch resource_claim_templates =
      MayUse markers plural "resource.k8s.io" "resourceclaimtemplates" watching
  MayWatch (dynamic gvk) = MayUse markers plural gvk.group (plural gvk) watching

-- Whatever the REST mapper knows, the markers allow the watch of every kind that the controller owns,
-- if the ScaledObjects and the InferencePools are served under their usual names.
pub owned_kinds-MayWatch :
    (plural : GroupVersionKind → String)
    → plural scaled_object_gvk ≡ "scaledobjects"
    → plural inference_pool_gvk ≡ "inferencepools"
    → (mapped : GroupVersionKind → Bool) → All (MayWatch plural) (owned_kinds mapped)
unfolding owned_kinds all_allowed
owned_kinds-MayWatch plural s p mapped = elim (Bool-cases (mapped scaled_object_gvk)) [
  | inl a ↦ elim (Bool-cases (mapped inference_pool_gvk)) [
    | inl b ↦ rw (a, b, s, p) (refl, (refl, (refl, (refl, (refl, tt)))))
    | inr b ↦ rw (a, b, s) (refl, (refl, (refl, (refl, tt))))
  ]
  | inr a ↦ elim (Bool-cases (mapped inference_pool_gvk)) [
    | inl b ↦ rw (a, b, p) (refl, (refl, (refl, (refl, tt))))
    | inr b ↦ rw (a, b) (refl, (refl, (refl, tt)))
  ]
]
