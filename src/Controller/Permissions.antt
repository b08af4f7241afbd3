-- ===== src/Controller/Permissions.antt =====
-- The `+kubebuilder:rbac` markers above the reconciler, from which the ClusterRole of the operator is
-- made, and what its calls need of them.
pub mod Granted
pub mod Watched
use llm_inference_platform.Prelude.{
  String, ◌≡◌, ◌==◌, ◌&&◌, ◌||◌, Bool, true, false, List, [], ◌∷◌, ◌++◌,
}
use llm_inference_platform.Kube.Dynamic.{GroupVersionKind}
use llm_inference_platform.Kube.Configuration.{
  ApplyConfiguration, deployment, service, claim_template, unstructured,
}
use llm_inference_platform.Kube.Client.{
  Client, ObjectKind, deployments, resource_claim_templates, dynamic,
}
use llm_inference_platform.Controller.Run.{
  Event, got_deployment, got_unstructured, got_metadata, listed_pods, applied, deleted,
  updated_status,
}

-- One marker, with one group and one resource; `core` is its word for the group with the empty name.
pub record PolicyRule : Type 0 where
  pub group : String
  pub resource : String
  pub verbs : List String

abbrev every_verb : List String
every_verb = "get" ∷ "list" ∷ "watch" ∷ "create" ∷ "update" ∷ "patch" ∷ "delete" ∷ []

abbrev pub markers : List PolicyRule
markers =
    record { group = "serving.platform.io"; resource = "inferenceservices"; verbs = every_verb }
    ∷ record {
      group = "serving.platform.io";
      resource = "inferenceservices/status";
      verbs = "get" ∷ "update" ∷ "patch" ∷ [];
    }
    ∷ record {
      group = "serving.platform.io";
      resource = "inferenceservices/finalizers";
      verbs = "update" ∷ [];
    }
    ∷ record { group = "apps"; resource = "deployments"; verbs = every_verb }
    ∷ record { group = "core"; resource = "services"; verbs = every_verb }
    ∷ record { group = "core"; resource = "pods"; verbs = "get" ∷ "list" ∷ "watch" ∷ [] }
    ∷ record { group = "resource.k8s.io"; resource = "resourceclaimtemplates"; verbs = every_verb }
    ∷ record { group = "keda.sh"; resource = "scaledobjects"; verbs = every_verb }
    ∷ record {
      group = "inference.networking.k8s.io";
      resource = "inferencepools";
      verbs = every_verb;
    }
    ∷ []

abbrev among : String → List String → Bool
among v [] = false
among v (x ∷ xs) = (x == v) || among v xs

-- How the API server reads a rule without wildcards.
unfoldable pub allowed : List PolicyRule → String → String → String → Bool
allowed [] group resource verb = false
allowed (r ∷ rs) group resource verb =
    ((r.group == group) && ((r.resource == resource) && among verb r.verbs))
    || allowed rs group resource verb

unfoldable pub all_allowed : List PolicyRule → String → String → List String → Bool
unfolding allowed
all_allowed rules group resource [] = true
all_allowed rules group resource (verb ∷ verbs) =
    allowed rules group resource verb && all_allowed rules group resource verbs

-- A read comes from the cache of the client, which lists and watches what it is asked for.
abbrev pub reading : List String
reading = "get" ∷ "list" ∷ "watch" ∷ []

-- An apply creates the object if it is not there.
abbrev pub applying : List String
applying = "patch" ∷ "create" ∷ []

-- `plural` is the REST mapper: the resource under which the objects of a kind are served.
module _ (rules : List PolicyRule) (plural : GroupVersionKind → String) where
  abbrev pub MayUse : String → String → List String → Type 0
  MayUse group resource verbs = all_allowed rules group resource verbs ≡ true

  abbrev pub MayUseKind : ObjectKind → List String → Type 0
  MayUseKind deployments verbs = MayUse "apps" "deployments" verbs
  MayUseKind resource_claim_templates verbs =
      MayUse "resource.k8s.io" "resourceclaimtemplates" verbs
  MayUseKind (dynamic gvk) verbs = MayUse gvk.group (plural gvk) verbs

  abbrev pub MayUseApplied : ApplyConfiguration → List String → Type 0
  MayUseApplied (deployment _) verbs = MayUse "apps" "deployments" verbs
  MayUseApplied (service _) verbs = MayUse "core" "services" verbs
  MayUseApplied (claim_template _) verbs = MayUse "resource.k8s.io" "resourceclaimtemplates" verbs
  MayUseApplied (unstructured x) verbs = MayUse x.kind.group (plural x.kind) verbs

  -- Whoever applies an object whose owner reference blocks the deletion of its owner needs to be
  -- allowed to set the finalizers of the owner.
  abbrev pub Granted : {C : Client} → Event C → Type 0
  Granted (got_deployment _ _) = MayUse "apps" "deployments" reading
  Granted (got_unstructured gvk _ _) = MayUse gvk.group (plural gvk) reading
  Granted (got_metadata kind _ _) = MayUseKind kind reading
  Granted (listed_pods _ _ _) = MayUse "core" "pods" reading
  Granted (applied configuration _ _ _) =
      MayUseApplied configuration applying
      × MayUse "serving.platform.io" "inferenceservices/finalizers" ("update" ∷ [])
  Granted (deleted kind _ _ _) = MayUseKind kind ("delete" ∷ [])
  Granted (updated_status _ _) =
      MayUse "serving.platform.io" "inferenceservices/status" ("update" ∷ [])
