-- ===== src/V1alpha1.antt =====
-- api/v1alpha1/inferenceservice_types.go: the InferenceService API, its enumerations and constants.
pub mod Admission
pub mod Structs
pub mod DeepCopy
use llm_inference_platform.Prelude.{ℕ, String, ◌≡◌, ◌⊎◌, Option, List}
use llm_inference_platform.Prelude.Int.{ℤ}
use llm_inference_platform.Kube.Meta.{ObjectMeta, Condition, Quantity}

-- `GroupVersion.String()`
abbrev pub group_version : String
group_version = "serving.platform.io/v1alpha1"

-- `DataClassification` and `BackendType` are strings in the source, so that a value outside the
-- constants below can reach the operator.
abbrev pub DataClassification : Type 0
DataClassification = String

abbrev pub classification_public : DataClassification
classification_public = "Public"

abbrev pub classification_internal : DataClassification
classification_internal = "Internal"

abbrev pub classification_restricted : DataClassification
classification_restricted = "Restricted"

abbrev pub BackendType : Type 0
BackendType = String

abbrev pub backend_vllm : BackendType
backend_vllm = "vLLM"

abbrev pub backend_ollama : BackendType
backend_ollama = "Ollama"

pub record AutoscalingSpec : Type 0 where
  pub min_replicas : ℤ
  pub max_replicas : ℤ
  pub queue_depth_target : ℤ
  pub ttft_p95_milliseconds : ℤ
  pub kv_cache_usage_percent : ℤ

pub record InferenceServiceSpec : Type 0 where
  pub model : String
  pub backend : BackendType
  pub classification : DataClassification
  pub max_model_len : ℤ
  pub gpu_memory_utilization : ℤ
  pub device_class : String
  pub min_device_memory : Option Quantity
  pub model_cache_claim_name : String
  pub weight_load_seconds : ℤ
  pub autoscaling : AutoscalingSpec
  pub cost_per_hour_milli_usd : ℤ

pub record InferenceServiceStatus : Type 0 where
  pub observed_generation : ℤ
  pub ready_replicas : ℤ
  pub endpoint : String
  pub phase : String
  pub conditions : List Condition

-- `Spec` is `spec` here, and the fields of `ObjectMeta` are those of `metadata`.
pub record InferenceService : Type 0 where
  pub metadata : ObjectMeta
  pub open metadata use *
  pub spec : InferenceServiceSpec
  pub status : InferenceServiceStatus
