-- ===== src/Workload/Wiring.antt =====
-- The parts of the objects fit together: volumes, claims, names and ports.
use llm_inference_platform.Prelude.{String, ◌≡◌, ◌≢◌, ◌⊎◌, eq_iff, [], arith}
use llm_inference_platform.Prelude.Lists.{All, Any}
use llm_inference_platform.Kube.Configuration.{
  PodSpec, Container, Volume, VolumeMount, PodResourceClaim,
}
use llm_inference_platform.V1alpha1.{InferenceService, backend_ollama}
use llm_inference_platform.Resources.Claim.{desired_claim_template}
use llm_inference_platform.Workload.{pod_spec}

-- Every mount names a volume of the pod, and every claim of a container one of the pod.
abbrev pub MountsExist : PodSpec → Type 0
MountsExist p =
    All
      (λ (c : Container).
        All (λ (m : VolumeMount). Any (λ (v : Volume). m.name ≡ v.name) p.volumes) c.volume_mounts)
      p.containers

abbrev pub ClaimsExist : PodSpec → Type 0
ClaimsExist p =
    All
      (λ (c : Container).
        All (λ (claim : String). Any (λ (r : PodResourceClaim). claim ≡ r.name) p.resource_claims)
          c.resources.claims)
      p.containers

-- Every container claims every device of the pod, and every claim is made from this template.
abbrev pub ClaimsFrom : String → PodSpec → Type 0
ClaimsFrom template p =
    All
      (λ (r : PodResourceClaim).
        (r.resource_claim_template_name ≡ template)
        × All (λ (c : Container). Any (λ (claim : String). claim ≡ r.name) c.resources.claims)
            p.containers)
      p.resource_claims

abbrev pub HasClaims : String → PodSpec → Type 0
HasClaims device p =
    ((device ≡ "") × (p.resource_claims ≡ []))
    ⊎ ((device ≢ "") × Any (λ (r : PodResourceClaim). Unit {0}) p.resource_claims)

-- Whatever the service, every volume mount of the pod's containers names a volume of the pod, every
-- device claim of a container one of the pod, each container has every device of the pod, each claim
-- is made from the template that `desiredClaimTemplate` names, and there is a claim exactly if the
-- service names a device class.
pub pod_spec-wiring :
    (svc : InferenceService)
    → let p = pod_spec svc in
      MountsExist p
      × ClaimsExist p
      × ClaimsFrom (desired_claim_template svc).metadata.name p
      × HasClaims svc.spec.device_class p
unfolding pod_spec desired_claim_template
pod_spec-wiring svc =
    ground (arith, eq_iff svc.spec.device_class "", eq_iff svc.spec.backend backend_ollama)
