-- ===== src/Controller/Autoscaling.antt =====
-- `reconcileAutoscaling` and `scaledObjectReady`.
pub mod FirstVerdict
use llm_inference_platform.Prelude.{
  String, ◌<>◌, ◌==◌, Bool, true, false, if◌then◌else◌, Option, none, some, [], ◌∷◌,
}
use llm_inference_platform.Prelude.Result.{Result, ok, err}
use llm_inference_platform.Kube.Meta.{
  ConditionStatus, condition_true, condition_false, condition_unknown,
}
use llm_inference_platform.Kube.Dynamic.{
  Unstructured, Value, Items, nil, item, Fields, get, as_text, as_object,
}
use llm_inference_platform.Kube.Configuration.{unstructured}
use llm_inference_platform.Kube.Client.{Client}
use llm_inference_platform.V1alpha1.{InferenceService, backend_ollama}
use llm_inference_platform.Resources.Scaling.{scaled_object_gvk, desired_scaled_object}
use llm_inference_platform.Controller.Run.{
  M, wrapped, ◌>>=◌, ◌>>◌, apply_raw, get_unstructured, set_condition,
}
use llm_inference_platform.Controller.Ownership.{delete_unstructured_if_owned}
use llm_inference_platform.Controller.Deploy.{field_owner, service_key}

abbrev pub cond_autoscaling : String
cond_autoscaling = "Autoscaling"

-- The three results of `scaledObjectReady`.
pub record Verdict : Type 0 where
  pub status : ConditionStatus
  pub reason : String
  pub message : String

abbrev pub no_verdict : Verdict
no_verdict = record { status = condition_unknown; reason = ""; message = "" }

-- `m[k] == text` on the interface value.
abbrev pub is_text : Option String → String → Bool
is_text none t = false
is_text (some s) t = s == t

-- `s, _ := m[k].(string)`
abbrev pub text_or_empty : Option String → String
text_or_empty none = ""
text_or_empty (some s) = s

verdict_of : Fields → ConditionStatus → Verdict
verdict_of m status = record {
  status = status;
  reason = text_or_empty (as_text (get "reason" m));
  message = text_or_empty (as_text (get "message" m));
}

-- One condition: `none` is a `continue`, or a status that the `switch` does not name.
unfoldable pub condition_verdict : Value → Option Verdict
unfolding verdict_of get
condition_verdict c = elim (as_object c) [
  | none ↦ none
  | some m ↦
      if is_text (as_text (get "type" m)) "Ready"
      then (if is_text (as_text (get "status" m)) "True"
          then some (verdict_of m condition_true)
          else if is_text (as_text (get "status" m)) "False"
          then some (verdict_of m condition_false)
          else none)
      else none
]

-- The loop.
unfoldable pub first_verdict : Items → Verdict
unfolding condition_verdict
first_verdict nil = no_verdict
first_verdict (item c conds) = elim (condition_verdict c) [
  | some v ↦ v
  | none ↦ first_verdict conds
]

module _ (C : Client) where
  unfoldable pub scaled_object_ready : Unstructured → Verdict
  unfolding first_verdict
  scaled_object_ready so = first_verdict (C.nested_slice so.content ("status" ∷ "conditions" ∷ []))

  module _ (svc : InferenceService) where
    -- The `switch` on KEDA's verdict.
    report_status : ConditionStatus → Verdict → M C (Unit {0})
    report_status condition_true v =
        set_condition C svc cond_autoscaling condition_true "ScalerReady"
          "KEDA scales on queue depth, KV cache usage and p95 TTFT"
    report_status condition_false v =
        set_condition C svc cond_autoscaling condition_false "ScalerNotReady"
          ("KEDA reports " <> v.reason <> ": " <> v.message)
    report_status condition_unknown v =
        set_condition C svc cond_autoscaling condition_unknown "WaitingForKEDA"
          "ScaledObject applied; KEDA has not reported on it yet"

    report_verdict : Result C.Error Unstructured → M C (Unit {0})
    unfolding report_status scaled_object_ready
    report_verdict (err e) s = (err (wrapped "read scaledobject" e), s)
    report_verdict (ok so) s =
        let v : Verdict = scaled_object_ready so in report_status v.status v s

    -- The `switch` on the error of the apply, and what follows it.
    scaling_applied : Option C.Error → M C (Unit {0})
    unfolding set_condition get_unstructured report_verdict
    scaling_applied (some e) s =
        if C.is_no_match e
        then set_condition C svc cond_autoscaling condition_false "KEDANotInstalled"
            "the keda.sh ScaledObject CRD is not installed; replicas stay at minReplicas" s
        else (err (wrapped "apply scaledobject" e), s)
    scaling_applied none s =
        (get_unstructured C scaled_object_gvk (service_key svc) >>= report_verdict) s

    ollama_scaling : M C (Unit {0})
    unfolding set_condition delete_unstructured_if_owned
    ollama_scaling = do
      set_condition C svc cond_autoscaling condition_false "BackendNotSupported"
          "Ollama exports no queue metrics; replicas stay at minReplicas"
      delete_unstructured_if_owned C svc scaled_object_gvk

    vllm_scaling : String → M C (Unit {0})
    unfolding scaling_applied apply_raw
    vllm_scaling prometheus_address = do
      e ← apply_raw C (unstructured (desired_scaled_object svc prometheus_address)) field_owner true
      scaling_applied e

    unfoldable pub reconcile_autoscaling : String → M C (Unit {0})
    unfolding ollama_scaling vllm_scaling
    reconcile_autoscaling prometheus_address =
        if svc.spec.backend == backend_ollama
        then ollama_scaling
        else vllm_scaling prometheus_address
