-- ===== src/Controller/Protocol.antt =====
-- Which calls one `reconcile` may make, each judged by the calls before it.
pub mod Steps
pub mod Replicas
pub mod Deletes
pub mod Order
pub mod Scope
use llm_inference_platform.Prelude.{
  ℕ, suc, String, ◌≡◌, ◌≢◌, ◌⊎◌, Bool, true, false, Option, none, some, List, [], ◌∷◌,
}
use llm_inference_platform.Prelude.Int.{ℤ}
use llm_inference_platform.Prelude.Lists.{Any}
use llm_inference_platform.Prelude.Result.{ok, err}
use llm_inference_platform.Kube.Meta.{ObjectMeta, NamespacedName}
use llm_inference_platform.Kube.Configuration.{
  ApplyConfiguration, DeploymentConfiguration, deployment, service, claim_template, unstructured,
}
use llm_inference_platform.Kube.Client.{
  Client, ObjectKind, deployments, resource_claim_templates, dynamic,
}
use llm_inference_platform.V1alpha1.{InferenceService, backend_ollama}
use llm_inference_platform.Resources.{desired_service}
use llm_inference_platform.Resources.Labels.{selector_labels}
use llm_inference_platform.Resources.Claim.{desired_claim_template, claim_template_name}
use llm_inference_platform.Resources.Scaling.{scaled_object_gvk, desired_scaled_object}
use llm_inference_platform.Resources.Pool.{desired_inference_pool}
use llm_inference_platform.Workload.{desired_deployment}
use llm_inference_platform.Controller.Run.{
  Event, got_deployment, got_unstructured, got_metadata, listed_pods, applied, deleted,
  updated_status,
}
use llm_inference_platform.Controller.Deploy.{
  field_owner, initial_replicas_owner, initial_replicas, selector_outdated, service_key,
}

abbrev lists_count : Option ℤ → ℕ → ℕ
lists_count none n = n
lists_count (some _) n = suc n

abbrev apply_count : ApplyConfiguration → ℕ → ℕ
apply_count (deployment d) n = lists_count d.replicas n
apply_count _ n = n

-- The objects of the service that are read by name, for their metadata.
abbrev MayReadMetadata : InferenceService → ObjectKind → NamespacedName → Type 0
MayReadMetadata svc deployments key = ⊥
MayReadMetadata svc resource_claim_templates key =
    key ≡ record { name = claim_template_name svc; namespace = svc.namespace }
MayReadMetadata svc (dynamic gvk) key = (gvk ≡ scaled_object_gvk) × (key ≡ service_key svc)

module _ {C : Client} where
  abbrev event_count : Event C → ℕ → ℕ
  event_count (applied configuration _ _ _) n = apply_count configuration n
  event_count _ n = n

  -- How often the calls tried to write a replica count.
  abbrev pub replica_writes : List (Event C) → ℕ
  replica_writes [] = 0
  replica_writes (e ∷ past) = event_count e (replica_writes past)

  -- Successful applies of the claim template and of the Service.
  abbrev pub ClaimApplied : Event C → Type 0
  ClaimApplied (applied (claim_template _) _ _ none) = Unit {0}
  ClaimApplied _ = ⊥

  abbrev pub ServiceApplied : Event C → Type 0
  ServiceApplied (applied (service _) _ _ none) = Unit {0}
  ServiceApplied _ = ⊥

  -- The Deployment was not found, and then applied: these are the last two calls.
  abbrev pub JustCreated : List (Event C) → Type 0
  JustCreated (applied (deployment _) owner _ none ∷ got_deployment _ (err e) ∷ _) =
      (owner ≡ field_owner) × (C.is_not_found e ≡ true)
  JustCreated _ = ⊥

  -- The Deployment was applied, and then read.
  abbrev pub JustRead : List (Event C) → Type 0
  JustRead (got_deployment _ (ok _) ∷ applied (deployment _) owner _ none ∷ _) = owner ≡ field_owner
  JustRead _ = ⊥

  module _ (svc : InferenceService) where
    -- The last call read this very object.
    abbrev pub MayDelete : ObjectKind → ObjectMeta → List (Event C) → Type 0
    MayDelete deployments object (got_deployment _ (ok d) ∷ _) =
        (object ≡ d.metadata) × (d.metadata.deleting ≡ false) × (selector_outdated svc d ≡ true)
    MayDelete resource_claim_templates object (got_metadata kind _ (ok found) ∷ _) =
        (kind ≡ resource_claim_templates)
        × (object ≡ found)
        × (C.is_controlled_by found svc.metadata ≡ true)
        × (svc.spec.device_class ≡ "")
    MayDelete (dynamic gvk) object (got_metadata kind _ (ok found) ∷ _) =
        (kind ≡ dynamic gvk)
        × (gvk ≡ scaled_object_gvk)
        × (object ≡ found)
        × (C.is_controlled_by found svc.metadata ≡ true)
        × (svc.spec.backend ≡ backend_ollama)
    MayDelete _ _ _ = ⊥

    -- A full apply of the Deployment, after the claim template if one is wanted.
    abbrev pub FullApply : DeploymentConfiguration → String → Bool → List (Event C) → Type 0
    FullApply d owner force past =
        (d ≡ desired_deployment svc)
        × (owner ≡ field_owner)
        × (force ≡ true)
        × ((svc.spec.device_class ≡ "") ⊎ Any ClaimApplied past)

    -- The first write of the replica count, under the second name.
    abbrev pub InitialApply : DeploymentConfiguration → String → Bool → List (Event C) → Type 0
    InitialApply d owner force past =
        (d ≡ initial_replicas svc)
        × (owner ≡ initial_replicas_owner)
        × (force ≡ false)
        × JustCreated past
        × (replica_writes past ≡ 0)

    module _ (prometheus_address : String) where
      abbrev pub MayApply : ApplyConfiguration → String → Bool → List (Event C) → Type 0
      MayApply (deployment d) owner force past =
          FullApply d owner force past ⊎ InitialApply d owner force past
      MayApply (service x) owner force past =
          (x ≡ desired_service svc) × (owner ≡ field_owner) × (force ≡ true) × JustRead past
      MayApply (claim_template x) owner force past =
          (x ≡ desired_claim_template svc)
          × (owner ≡ field_owner)
          × (force ≡ true)
          × (svc.spec.device_class ≢ "")
      MayApply (unstructured x) owner force past =
          ((x ≡ desired_scaled_object svc prometheus_address) ⊎ (x ≡ desired_inference_pool svc))
          × (owner ≡ field_owner)
          × (force ≡ true)
          × Any ServiceApplied past

      -- What `reconcile` may call; the status is written by its caller alone.
      abbrev pub Permitted : Event C → List (Event C) → Type 0
      Permitted (applied configuration owner force _) past = MayApply configuration owner force past
      Permitted (deleted kind object _ _) past = MayDelete kind object past
      Permitted (updated_status _ _) past = ⊥
      Permitted (got_deployment key _) past = key ≡ service_key svc
      Permitted (got_unstructured gvk key _) past =
          (gvk ≡ scaled_object_gvk) × (key ≡ service_key svc)
      Permitted (got_metadata kind key _) past = MayReadMetadata svc kind key
      Permitted (listed_pods namespace labels _) past =
          (namespace ≡ svc.namespace) × (labels ≡ selector_labels svc)
