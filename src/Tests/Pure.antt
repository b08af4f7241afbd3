-- ===== src/Tests/Pure.antt =====
-- The objects that are built, and the decisions on them.
use llm_inference_platform.Prelude.{
  ◌==◌, String, ◌≡◌, ◌↔◌, ◌≢◌, refl, Bool, true, inr, some, [], ◌∷◌, ℕ, arith, eq_iff,
}
use llm_inference_platform.Prelude.Int.{ℤ}
use llm_inference_platform.Prelude.Maps.{Map, equal}
use llm_inference_platform.Kube.Dynamic.{Items, nil, item, object, field, end, text}
use llm_inference_platform.V1alpha1.Admission.{placement_rules, further_rules, first_violation}
use llm_inference_platform.V1alpha1.{backend_ollama}
use llm_inference_platform.Resources.Labels.{selector_labels, pod_labels}
use llm_inference_platform.Resources.Labels.Selection.{
  Selects, selector_labels-Selects, equal-selector_labels,
}
use llm_inference_platform.Resources.Claim.{desired_claim_template}
use llm_inference_platform.Resources.Scaling.{desired_scaled_object}
use llm_inference_platform.Resources.Scaling.Windows.{HasWindows, desired_scaled_object-windows}
use llm_inference_platform.Resources.Scaling.Queries.{IsQueried, triggers-served_name}
use llm_inference_platform.Workload.{pod_spec}
use llm_inference_platform.Workload.Startup.Budget.{IsBudget, startup_failure_threshold-IsBudget}
use llm_inference_platform.Workload.Wiring.{
  MountsExist, ClaimsExist, ClaimsFrom, HasClaims, pod_spec-wiring,
}
use llm_inference_platform.Workload.Ports.{
  PortAgrees, serving_port-agrees, SelectorAgrees, selectors-agree, flag_value, flags,
}
use llm_inference_platform.Controller.Policy.{policy_violation}
use llm_inference_platform.Controller.Policy.Admission.{
  IsPlaced, message_or_empty, policy_violation-first_violation, policy_violation-IsPlaced,
}
use llm_inference_platform.Controller.Trouble.{pods_trouble}
use llm_inference_platform.Controller.Trouble.Priority.{IsTrouble, pods_trouble-IsTrouble}
use llm_inference_platform.Controller.Autoscaling.{first_verdict}
use llm_inference_platform.Controller.Autoscaling.FirstVerdict.{IsVerdict, first_verdict-IsVerdict}
use llm_inference_platform.Controller.Setup.{
  owned_kinds, deployments, services, resource_claim_templates, dynamic,
}
use llm_inference_platform.Controller.Setup.Watches.{Watches, owned_kinds-Watches}
use llm_inference_platform.Resources.Scaling.{scaled_object_gvk}
use llm_inference_platform.Resources.Pool.{inference_pool_gvk}
use llm_inference_platform.Kube.Dynamic.{GroupVersionKind}
use llm_inference_platform.Prelude.Fmt.Reading.{read_nat, read_hundredths}
use llm_inference_platform.Workload.Containers.{vllm_container}
use llm_inference_platform.Workload.Shared.{Resources, read_pod, build_pod, build_pod-pod_spec}
use llm_inference_platform.Workload.Arguments.{read_flag, vllm_container-reads}
use llm_inference_platform.Tests.Data.{address, qwen, tiny, payroll, crashing, unplaced}

payroll_refused : policy_violation payroll ≡ "Ollama backend is not approved for Restricted data"
unfolding policy_violation
payroll_refused = refl

qwen_passes : policy_violation qwen ≡ ""
unfolding policy_violation
qwen_passes = refl

-- The scheduler's verdict comes first, also on a later pod.
both_troubles :
    pods_trouble (crashing ∷ unplaced ∷ [])
    ≡ some (record {
      phase = "Unschedulable";
      reason = "Unschedulable";
      message = "no such device class";
    })
unfolding pods_trouble
both_troubles = refl

crash_message :
    pods_trouble (crashing ∷ [])
    ≡ some (record {
      phase = "Failing";
      reason = "CrashLoopBackOff";
      message =
          "container vllm: CrashLoopBackOff: back-off restarting (last exit: OOMKilled, code 137, 4 restarts)";
    })
unfolding pods_trouble
crash_message = refl

policy_violation-first_violation_example :
    policy_violation payroll ≡ message_or_empty (first_violation placement_rules payroll.spec)
policy_violation-first_violation_example = policy_violation-first_violation payroll (inr refl)

policy_violation-IsPlaced_example : (policy_violation qwen ≡ "") ↔ IsPlaced qwen.spec
policy_violation-IsPlaced_example = policy_violation-IsPlaced qwen

startup_failure_threshold-IsBudget_example : (t : ℕ) × IsBudget qwen 600 t
startup_failure_threshold-IsBudget_example =
    startup_failure_threshold-IsBudget qwen 600 refl (omega arith)

desired_scaled_object-windows_example :
    (n : ℤ) × HasWindows qwen (desired_scaled_object qwen address).content n
desired_scaled_object-windows_example = desired_scaled_object-windows qwen address

not_ollama : qwen.spec.backend ≢ backend_ollama
not_ollama = ground (arith, eq_iff "vLLM" backend_ollama)

triggers-served_name_example : (name : String) × IsQueried qwen address name
triggers-served_name_example = triggers-served_name qwen address not_ollama

pod_spec-wiring_example :
    MountsExist (pod_spec qwen)
    × ClaimsExist (pod_spec qwen)
    × ClaimsFrom (desired_claim_template qwen).metadata.name (pod_spec qwen)
    × HasClaims qwen.spec.device_class (pod_spec qwen)
pod_spec-wiring_example = pod_spec-wiring qwen

serving_port-agrees_example : (port : ℤ) × PortAgrees tiny port
serving_port-agrees_example = serving_port-agrees tiny

selectors-agree_example : (selector : Map String) × SelectorAgrees qwen selector
selectors-agree_example = selectors-agree qwen

selector_labels-Selects_example :
    Selects (selector_labels qwen) (pod_labels tiny) ↔ (qwen.name ≡ tiny.name)
selector_labels-Selects_example = selector_labels-Selects qwen tiny

equal-selector_labels_example :
    (equal (selector_labels qwen) (selector_labels tiny) ≡ true) ↔ (qwen.name ≡ tiny.name)
equal-selector_labels_example = equal-selector_labels qwen tiny

pods_trouble-IsTrouble_example :
    IsTrouble (crashing ∷ unplaced ∷ []) (pods_trouble (crashing ∷ unplaced ∷ []))
pods_trouble-IsTrouble_example = pods_trouble-IsTrouble (crashing ∷ unplaced ∷ [])

abbrev keda_conditions : Items
keda_conditions = item (object (field "type" (text "Active") (field "status" (text "True") end))) (
    item
      (object (
        field "type" (text "Ready")
          (field "status" (text "False") (field "reason" (text "TriggerError") end))))
      nil)

first_verdict-IsVerdict_example : IsVerdict keda_conditions (first_verdict keda_conditions)
first_verdict-IsVerdict_example = first_verdict-IsVerdict keda_conditions

abbrev keda_only : GroupVersionKind → Bool
keda_only gvk = gvk.group == "keda.sh"

owned_kinds-Watches_example :
    Watches (owned_kinds keda_only) deployments
    × Watches (owned_kinds keda_only) services
    × Watches (owned_kinds keda_only) resource_claim_templates
    × (Watches (owned_kinds keda_only) (dynamic scaled_object_gvk)
        ↔ (keda_only scaled_object_gvk ≡ true))
    × (Watches (owned_kinds keda_only) (dynamic inference_pool_gvk)
        ↔ (keda_only inference_pool_gvk ≡ true))
owned_kinds-Watches_example = owned_kinds-Watches keda_only

-- A memory floor without a device class passes the operator's check on Ollama, and breaks a rule of the
-- CRD.
tiny_breaks_further_rule :
    (policy_violation tiny ≡ "")
    × (first_violation further_rules tiny.spec
        ≡ some "minDeviceMemory only applies with a deviceClass")
unfolding policy_violation first_violation
tiny_breaks_further_rule = (refl, refl)

vllm_container-reads_example :
    let args = flags (vllm_container qwen).args in
    (read_flag read_nat "--max-model-len" args ≡ some 4096)
    × (read_flag read_hundredths "--gpu-memory-utilization" args ≡ some 85)
    × (read_flag read_nat "--port" args ≡ some 8000)
    × (flag_value "--served-model-name" args ≡ some qwen.name)
vllm_container-reads_example = vllm_container-reads qwen 4096 85 refl refl

abbrev in_use : Resources
in_use = record { next = 3; cell = λ a. record { requests = []; claims = [] } }

build_pod-pod_spec_example :
    read_pod (build_pod qwen in_use).0 (build_pod qwen in_use).1 ≡ some (pod_spec qwen)
build_pod-pod_spec_example = build_pod-pod_spec qwen in_use
