-- ===== src/Controller/Protocol/Order.antt =====
-- In which order the objects come into being.
use llm_inference_platform.Prelude.{String, ◌≡◌, ◌⊎◌, Option, none, some, List, refl, arith}
use llm_inference_platform.Prelude.Lists.{Any}
use llm_inference_platform.Kube.Configuration.{PodTemplate, deployment, service, unstructured}
use llm_inference_platform.Kube.Client.{Client}
use llm_inference_platform.V1alpha1.{InferenceService}
use llm_inference_platform.Workload.{desired_deployment}
use llm_inference_platform.Controller.Run.{Event, applied}
use llm_inference_platform.Controller.Trace.{Chain, Chain-map}
use llm_inference_platform.Controller.Deploy.{initial_replicas}
use llm_inference_platform.Controller.Reconcile.{reconcile, start}
use llm_inference_platform.Controller.Protocol.{Permitted, ClaimApplied, ServiceApplied, JustRead}
use llm_inference_platform.Controller.Protocol.Steps.{reconcile-Good}

module _ {C : Client} (svc : InferenceService) where
  abbrev TemplateRule : Option PodTemplate → List (Event C) → Type 0
  TemplateRule none past = Unit
  TemplateRule (some _) past = (svc.spec.device_class ≡ "") ⊎ Any ClaimApplied past

  abbrev pub OrderRule : Event C → List (Event C) → Type 0
  OrderRule (applied (deployment d) _ _ _) past = TemplateRule d.template past
  OrderRule (applied (service _) _ _ _) past = JustRead past
  OrderRule (applied (unstructured _) _ _ _) past = Any ServiceApplied past
  OrderRule _ past = Unit

  Permitted-OrderRule :
      (prometheus_address : String) (e : Event C) (past : List (Event C))
      → Permitted svc prometheus_address e past
      → OrderRule e past
  unfolding desired_deployment initial_replicas
  Permitted-OrderRule prometheus_address (applied (deployment d) owner force r) past h =
      ground arith
  Permitted-OrderRule prometheus_address (applied (service d) owner force r) past h = h.3
  Permitted-OrderRule prometheus_address (applied (unstructured d) owner force r) past h = h.3
  Permitted-OrderRule prometheus_address e past h = ground arith

-- Whatever the API server answers, a reconcile applies a pod template only if the service names no
-- device class or the claim template was applied before; it applies the Service only right after the
-- Deployment was applied and read back; and it applies the ScaledObject and the InferencePool only
-- after the Service was applied.
pub reconcile-order :
    (C : Client) (svc : InferenceService) (prometheus_address : String) (w : C.World)
    → Chain (OrderRule svc) (reconcile C svc prometheus_address (start C svc w)).1.events
reconcile-order C svc prometheus_address w =
    Chain-map _ _ (Permitted-OrderRule svc prometheus_address) _
      (reconcile-Good C svc prometheus_address (start C svc w) (tt, refl))
