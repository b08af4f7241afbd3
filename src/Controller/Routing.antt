-- ===== src/Controller/Routing.antt =====
-- `reconcileRouting`.
use llm_inference_platform.Prelude.{String, true, if◌then◌else◌, Option, none, some}
use llm_inference_platform.Prelude.Result.{err}
use llm_inference_platform.Kube.Meta.{condition_true, condition_false}
use llm_inference_platform.Kube.Configuration.{unstructured}
use llm_inference_platform.Kube.Client.{Client}
use llm_inference_platform.V1alpha1.{InferenceService}
use llm_inference_platform.Resources.Pool.{desired_inference_pool}
use llm_inference_platform.Controller.Run.{M, wrapped, ◌>>=◌, apply_raw, set_condition}
use llm_inference_platform.Controller.Deploy.{field_owner}

abbrev pub cond_routing : String
cond_routing = "Routing"

module _ (C : Client) (svc : InferenceService) where
  -- The `switch` on the error of the apply.
  pool_applied : Option C.Error → M C (Unit {0})
  unfolding set_condition
  pool_applied (some e) s =
      if C.is_no_match e
      then set_condition C svc cond_routing condition_false "InferencePoolNotInstalled"
          "the InferencePool CRD is not installed; the Service is the only entry point" s
      else (err (wrapped "apply inferencepool" e), s)
  pool_applied none s =
      set_condition C svc cond_routing condition_true "InferencePoolApplied"
        "pods are registered in an InferencePool" s

  unfoldable pub reconcile_routing : M C (Unit {0})
  unfolding pool_applied apply_raw
  reconcile_routing = do
    e ← apply_raw C (unstructured (desired_inference_pool svc)) field_owner true
    pool_applied e
