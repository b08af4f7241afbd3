-- ===== src/V1alpha1/Structs.antt =====
-- The API types as structs in memory, with their pointers and slices, and what each is read as.
use llm_inference_platform.Prelude.{ℕ, String, Option, none, some, List, []}
use llm_inference_platform.Prelude.Int.{ℤ}
use llm_inference_platform.Kube.Meta.{ObjectMeta, Condition, Quantity}
use llm_inference_platform.Memory.{Copier}
use llm_inference_platform.V1alpha1.{
  BackendType, DataClassification, AutoscalingSpec, InferenceServiceSpec, InferenceServiceStatus,
  InferenceService,
}

-- The structs of the API machinery, and what else it keeps in memory.
pub record Types : Type 1 where
  pub ObjectMetaStruct : Type 0
  pub ListMetaStruct : Type 0
  pub ListMeta : Type 0
  pub QuantityStruct : Type 0
  pub ConditionStruct : Type 0
  pub Other : Type 0

pub record TypeMeta : Type 0 where
  pub kind : String
  pub api_version : String

pub record SpecStruct : Type 0 where
  pub model : String
  pub backend : BackendType
  pub classification : DataClassification
  pub max_model_len : ℤ
  pub gpu_memory_utilization : ℤ
  pub device_class : String
  pub min_device_memory : Option ℕ
  pub model_cache_claim_name : String
  pub weight_load_seconds : ℤ
  pub autoscaling : AutoscalingSpec
  pub cost_per_hour_milli_usd : ℤ

-- A slice is its backing array, and nil is no address.
pub record StatusStruct : Type 0 where
  pub observed_generation : ℤ
  pub ready_replicas : ℤ
  pub endpoint : String
  pub phase : String
  pub conditions : Option ℕ

pub record ServiceStruct (T : Types) : Type 0 where
  pub type_meta : TypeMeta
  pub object_meta : T.ObjectMetaStruct
  pub spec : SpecStruct
  pub status : StatusStruct

pub record ListStruct (T : Types) : Type 0 where
  pub type_meta : TypeMeta
  pub list_meta : T.ListMetaStruct
  pub items : Option ℕ

-- What a cell of memory holds: an array, or a struct that `new` made.
pub data Cell (T : Types) : Type 0 where
  quantity_cell : T.QuantityStruct → Cell T
  conditions_cell : List T.ConditionStruct → Cell T
  items_cell : List (ServiceStruct T) → Cell T
  autoscaling_cell : AutoscalingSpec → Cell T
  spec_cell : SpecStruct → Cell T
  status_cell : StatusStruct → Cell T
  service_cell : ServiceStruct T → Cell T
  list_cell : ListStruct T → Cell T
  other_cell : T.Other → Cell T

-- The API machinery's `DeepCopyInto` and `DeepCopy`, which copy deeply.
pub record Library (T : Types) : Type 0 where
  pub object_meta : Copier (Cell T) T.ObjectMetaStruct ObjectMeta
  pub list_meta : Copier (Cell T) T.ListMetaStruct T.ListMeta
  pub quantity : Copier (Cell T) T.QuantityStruct Quantity
  pub condition : Copier (Cell T) T.ConditionStruct Condition

module _ {T : Types} where
  abbrev pub as_quantity : Cell T → Option T.QuantityStruct
  as_quantity (quantity_cell x) = some x
  as_quantity _ = none

  abbrev pub as_conditions : Cell T → Option (List T.ConditionStruct)
  as_conditions (conditions_cell x) = some x
  as_conditions _ = none

  abbrev pub as_items : Cell T → Option (List (ServiceStruct T))
  as_items (items_cell x) = some x
  as_items _ = none

  abbrev pub as_autoscaling : Cell T → Option AutoscalingSpec
  as_autoscaling (autoscaling_cell x) = some x
  as_autoscaling _ = none

  abbrev pub as_spec : Cell T → Option SpecStruct
  as_spec (spec_cell x) = some x
  as_spec _ = none

  abbrev pub as_status : Cell T → Option StatusStruct
  as_status (status_cell x) = some x
  as_status _ = none

  abbrev pub as_service : Cell T → Option (ServiceStruct T)
  as_service (service_cell x) = some x
  as_service _ = none

  abbrev pub as_list : Cell T → Option (ListStruct T)
  as_list (list_cell x) = some x
  as_list _ = none

-- A service with its type, and a list of them.
pub record ServiceObject : Type 0 where
  pub type_meta : TypeMeta
  pub service : InferenceService

pub record InferenceServiceList (T : Types) : Type 0 where
  pub type_meta : TypeMeta
  pub list_meta : T.ListMeta
  pub items : List ServiceObject

-- The elements of a slice: nil has none.
abbrev pub elements : {A : Type 0} → Option (List A) → List A
elements none = []
elements (some xs) = xs

abbrev pub spec_value : SpecStruct → Option Quantity → InferenceServiceSpec
spec_value s memory = record {
  model = s.model;
  backend = s.backend;
  classification = s.classification;
  max_model_len = s.max_model_len;
  gpu_memory_utilization = s.gpu_memory_utilization;
  device_class = s.device_class;
  min_device_memory = memory;
  model_cache_claim_name = s.model_cache_claim_name;
  weight_load_seconds = s.weight_load_seconds;
  autoscaling = s.autoscaling;
  cost_per_hour_milli_usd = s.cost_per_hour_milli_usd;
}

abbrev pub status_value : StatusStruct → Option (List Condition) → InferenceServiceStatus
status_value s conditions = record {
  observed_generation = s.observed_generation;
  ready_replicas = s.ready_replicas;
  endpoint = s.endpoint;
  phase = s.phase;
  conditions = elements conditions;
}
