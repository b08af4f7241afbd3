-- ===== src/Workload/Shared.antt =====
-- The pod of `desiredDeployment` over memory: `WithContainers` copies the container's struct, and the
-- copy keeps the pointer to the resources, so that a claim added later through the original is added to
-- both.
use llm_inference_platform.Prelude.{
  ℕ, String, ◌≡◌, refl, ap, Bool, true, false, ◌==◌, if◌then◌else◌, not, Option, none, some, List,
  [], ◌∷◌, ◌++◌, arith,
}
use llm_inference_platform.Memory.{Memory, alloc, load, store, load-alloc, load-store}
use llm_inference_platform.Memory.Structs.{map_value, map_value-some}
use llm_inference_platform.Kube.Configuration.{
  Container, ResourceRequirements, Volume, PodSpec, PodResourceClaim,
}
use llm_inference_platform.V1alpha1.{InferenceService, backend_ollama}
use llm_inference_platform.Resources.Claim.{claim_template_name}
use llm_inference_platform.Workload.{backend_container, with_claim, pod_spec}
use llm_inference_platform.Workload.Containers.{model_cache_volume, shared_memory_volume}

-- A container apart from its resources, and the pointer to those.
pub record ContainerStruct : Type 0 where
  pub rest : Container
  pub resources : ℕ

pub record PodStruct : Type 0 where
  pub containers : List ContainerStruct
  pub volumes : List Volume
  pub resource_claims : List PodResourceClaim

abbrev pub Resources : Type 0
Resources = Memory ResourceRequirements

-- `corev1ac.Container().….WithResources(baseResources())…`
unfoldable pub new_container : Container → Resources → ContainerStruct × Resources
new_container c m = let (a, m') = alloc c.resources m in (record { rest = c; resources = a }, m')

-- `container.Resources.WithClaims(…)`; the code never calls it on a nil pointer.
unfoldable pub with_claims : ℕ → String → Resources → Resources
with_claims a claim m = elim (load a m) [
  | none ↦ m
  | some r ↦ store a (record r { claims = r.claims ++ (claim ∷ []) }) m
]

-- The pod around a container, whether it is Ollama's and whether a device is claimed.
unfoldable pub pod_around :
    Bool → Bool → Container → InferenceService → Resources → PodStruct × Resources
pod_around ollama wants_device value svc m =
    let (container, m') = new_container value m in
    let pod : PodStruct = record {
      containers = container ∷ [];
      volumes = model_cache_volume svc ∷ [];
      resource_claims = [];
    } in
    let shared : PodStruct =
      if ollama then pod else record pod { volumes = pod.volumes ++ (shared_memory_volume ∷ []) } in
    if wants_device
    then (
      record shared {
        resource_claims =
            shared.resource_claims
            ++ (record { name = "gpu"; resource_claim_template_name = claim_template_name svc }
                ∷ []);
      },
      with_claims container.resources "gpu" m',
    )
    else (shared, m')

unfoldable pub build_pod : InferenceService → Resources → PodStruct × Resources
build_pod svc m =
    pod_around (svc.spec.backend == backend_ollama) (not (svc.spec.device_class == ""))
      (backend_container svc) svc m

unfoldable pub read_container : ContainerStruct → Resources → Option Container
read_container c m = map_value (λ r. record c.rest { resources = r }) (load c.resources m)

unfoldable pub read_containers : List ContainerStruct → Resources → Option (List Container)
read_containers [] m = some []
read_containers (c ∷ cs) m = elim (read_container c m) [
  | none ↦ none
  | some v ↦ map_value (λ vs. v ∷ vs) (read_containers cs m)
]

-- The pod as it is sent: what its pointers lead to at the end.
unfoldable pub read_pod : PodStruct → Resources → Option PodSpec
read_pod pod m =
    map_value
      (λ cs. record {
        containers = cs;
        volumes = pod.volumes;
        resource_claims = pod.resource_claims;
      })
      (read_containers pod.containers m)

new_container-read :
    (c : Container) (m : Resources)
    → read_container (new_container c m).0 (new_container c m).1 ≡ some c
unfolding read_container new_container
new_container-read c m =
    rw (load-alloc c.resources m (alloc c.resources m).1 (omega arith, λ a l h. refl)) refl

with_claims-load :
    (a : ℕ) (claim : String) (r : ResourceRequirements) (m : Resources)
    → load a m ≡ some r
    → load a (with_claims a claim m) ≡ some (record r { claims = r.claims ++ (claim ∷ []) })
unfolding with_claims
with_claims-load a claim r m h =
    rw (h, with_claims) (load-store a (record r { claims = r.claims ++ (claim ∷ []) }) r m h)

with_claims-read :
    (s : ContainerStruct) (c : Container) (claim : String) (m : Resources)
    → read_container s m ≡ some c
    → read_container s (with_claims s.resources claim m) ≡ some (with_claim c claim)
unfolding read_container
with_claims-read s c claim m h =
    let (r, found, same) =
      map_value-some (λ r. record s.rest { resources = r }) (load s.resources m) c h in
    rw (with_claims-load s.resources claim r m found) (ap (λ c. some (with_claim c claim)) same)

claimed-read :
    (c : Container) (claim : String) (m : Resources)
    → let (s, m') = new_container c m in
      read_container s (with_claims s.resources claim m') ≡ some (with_claim c claim)
claimed-read c claim m =
    let (s, m') = new_container c m in with_claims-read s c claim m' (new_container-read c m)

pod_around-read :
    (ollama wants_device : Bool) (c : Container) (svc : InferenceService) (m : Resources)
    → let (pod, m') = pod_around ollama wants_device c svc m in
      read_pod pod m'
      ≡ some (record {
        containers = (if wants_device then with_claim c "gpu" else c) ∷ [];
        volumes = model_cache_volume svc ∷ (if ollama then [] else shared_memory_volume ∷ []);
        resource_claims =
            if wants_device
            then record { name = "gpu"; resource_claim_template_name = claim_template_name svc }
              ∷ []
            else [];
      })
unfolding pod_around read_pod read_containers
pod_around-read true true c svc m = rw (claimed-read c "gpu" m, read_pod, read_containers) refl
pod_around-read true false c svc m = rw (new_container-read c m, read_pod, read_containers) refl
pod_around-read false true c svc m = rw (claimed-read c "gpu" m, read_pod, read_containers) refl
pod_around-read false false c svc m = rw (new_container-read c m, read_pod, read_containers) refl

-- Whatever was allocated before, the pod that is sent is the one `pod_spec` describes: the claim for the
-- device, added to the original after the copy was made, is on the copy.
pub build_pod-pod_spec :
    (svc : InferenceService) (m : Resources)
    → read_pod (build_pod svc m).0 (build_pod svc m).1 ≡ some (pod_spec svc)
unfolding build_pod pod_spec
build_pod-pod_spec svc m =
    pod_around-read (svc.spec.backend == backend_ollama) (not (svc.spec.device_class == ""))
      (backend_container svc) svc m
