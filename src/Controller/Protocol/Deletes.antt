-- ===== src/Controller/Protocol/Deletes.antt =====
-- What a reconcile may delete.
use llm_inference_platform.Prelude.{String, List, refl}
use llm_inference_platform.Kube.Client.{Client}
use llm_inference_platform.V1alpha1.{InferenceService}
use llm_inference_platform.Controller.Run.{Event, deleted}
use llm_inference_platform.Controller.Trace.{Chain, Chain-map}
use llm_inference_platform.Controller.Reconcile.{reconcile, start}
use llm_inference_platform.Controller.Protocol.{Permitted, MayDelete}
use llm_inference_platform.Controller.Protocol.Steps.{reconcile-Good}

module _ {C : Client} (svc : InferenceService) where
  abbrev pub DeleteRule : Event C → List (Event C) → Type 0
  DeleteRule (deleted kind object _ _) past = MayDelete svc kind object past
  DeleteRule _ past = Unit

  Permitted-DeleteRule :
      (prometheus_address : String) (e : Event C) (past : List (Event C))
      → Permitted svc prometheus_address e past
      → DeleteRule e past
  Permitted-DeleteRule prometheus_address (deleted kind object policy r) past h = h
  Permitted-DeleteRule prometheus_address _ past h = tt

-- Whatever the API server answers, a reconcile deletes an object only if its last call read that
-- very object: a Deployment only if it is not on its way out already and its selector is not the
-- service's; a claim template only if the service controls it and names no device class; a
-- ScaledObject, the one other kind, only if the service controls it and runs on Ollama.
pub reconcile-deletes :
    (C : Client) (svc : InferenceService) (prometheus_address : String) (w : C.World)
    → Chain (DeleteRule svc) (reconcile C svc prometheus_address (start C svc w)).1.events
reconcile-deletes C svc prometheus_address w =
    Chain-map _ _ (Permitted-DeleteRule svc prometheus_address) _
      (reconcile-Good C svc prometheus_address (start C svc w) (tt, refl))
