-- ===== src/Controller/Setup.antt =====
-- `SetupWithManager`: which kinds the controller watches.
pub mod Watches
use llm_inference_platform.Prelude.{Bool, if◌then◌else◌, List, [], ◌∷◌, ◌++◌}
use llm_inference_platform.Kube.Dynamic.{GroupVersionKind}
use llm_inference_platform.Resources.Scaling.{scaled_object_gvk}
use llm_inference_platform.Resources.Pool.{inference_pool_gvk}

-- What `Owns` is called with.
pub data Owned : Type 0 where
  deployments services resource_claim_templates : Owned
  dynamic : GroupVersionKind → Owned

abbrev pub optional_kinds : List GroupVersionKind
optional_kinds = scaled_object_gvk ∷ inference_pool_gvk ∷ []

-- The loop: `mapped` says whether the manager's REST mapper knows a kind.
unfoldable pub own_mapped :
    (GroupVersionKind → Bool) → List GroupVersionKind → List Owned → List Owned
own_mapped mapped [] b = b
own_mapped mapped (gvk ∷ gvks) b =
    own_mapped mapped gvks (if mapped gvk then b ++ (dynamic gvk ∷ []) else b)

unfoldable pub owned_kinds : (GroupVersionKind → Bool) → List Owned
unfolding own_mapped
owned_kinds mapped =
    own_mapped mapped optional_kinds (deployments ∷ services ∷ resource_claim_templates ∷ [])
