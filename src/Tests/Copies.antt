-- ===== src/Tests/Copies.antt =====
-- The deep copies at a small memory.
use llm_inference_platform.Prelude.{ℕ, eqb, ◌≡◌, refl, if◌then◌else◌, some, [], ◌∷◌, arith}
use llm_inference_platform.Kube.Meta.{Condition, Quantity, condition_true}
use llm_inference_platform.Prelude.Int.{pos}
use llm_inference_platform.Memory.{Memory, Extends, KeepsNew, store}
use llm_inference_platform.Memory.Pointers.{read_pointer}
use llm_inference_platform.Memory.Lists.{read_all}
use llm_inference_platform.V1alpha1.{InferenceService, InferenceServiceStatus}
use llm_inference_platform.V1alpha1.Structs.{
  Cell, TypeMeta, SpecStruct, StatusStruct, ServiceStruct, ListStruct, ServiceObject,
  InferenceServiceList, quantity_cell, conditions_cell, items_cell, list_cell, service_cell,
  status_cell, other_cell, status_value, spec_value,
}
use llm_inference_platform.V1alpha1.DeepCopy.{list_copy, service_copy_object}
use llm_inference_platform.V1alpha1.DeepCopy.Copies.{list_pointer, service_pointer, status_pointer}
use llm_inference_platform.V1alpha1.DeepCopy.Deep.{
  IsNewObject, list_copy-deep, service_copy_object-IsNewObject,
}
use llm_inference_platform.Controller.Reconcile.{reconcile, start, observed}
use llm_inference_platform.Controller.StatusWrites.{Reaches, reconcile-Reaches}
use llm_inference_platform.Controller.StatusWrites.InPlace.Compared.{
  until_compared, until_compared-reads,
}
use llm_inference_platform.Tests.Cluster.{cluster}
use llm_inference_platform.Tests.Data.{qwen, address, scaled}
use llm_inference_platform.Tests.Memory.{plain, machinery, in_place}

abbrev type_meta : TypeMeta
type_meta = record { kind = "InferenceService"; api_version = "serving.platform.io/v1alpha1" }

-- A list of one service, with a quantity, a condition and the arrays, at the addresses from 0 to 4;
-- the service stands at 5 and its status at 6.
abbrev quantity : Quantity
quantity = record { to_string = "8Gi" }

abbrev admitted : Condition
admitted = record {
  kind = "Admitted";
  status = condition_true;
  observed_generation = pos 1;
  last_transition_time = pos 7;
  reason = "PolicySatisfied";
  message = "spec passes placement policy";
}

abbrev status_struct : StatusStruct
status_struct = record {
  observed_generation = pos 1;
  ready_replicas = pos 0;
  endpoint = "";
  phase = "Loading";
  conditions = some 1;
}

abbrev spec_struct : SpecStruct
spec_struct = record {
  model = qwen.spec.model;
  backend = qwen.spec.backend;
  classification = qwen.spec.classification;
  max_model_len = qwen.spec.max_model_len;
  gpu_memory_utilization = qwen.spec.gpu_memory_utilization;
  device_class = qwen.spec.device_class;
  min_device_memory = some 0;
  model_cache_claim_name = qwen.spec.model_cache_claim_name;
  weight_load_seconds = qwen.spec.weight_load_seconds;
  autoscaling = qwen.spec.autoscaling;
  cost_per_hour_milli_usd = qwen.spec.cost_per_hour_milli_usd;
}

abbrev service_struct : ServiceStruct plain
service_struct = record {
  type_meta = type_meta;
  object_meta = qwen.metadata;
  spec = spec_struct;
  status = status_struct;
}

abbrev list_struct : ListStruct plain
list_struct = record { type_meta = type_meta; list_meta = "41"; items = some 2 }

abbrev cells : ℕ → Cell plain
cells a =
    if eqb a 0
    then quantity_cell quantity
    else if eqb a 1
    then conditions_cell (admitted ∷ [])
    else if eqb a 2
    then items_cell (service_struct ∷ [])
    else if eqb a 3
    then list_cell list_struct
    else if eqb a 4
    then service_cell service_struct
    else if eqb a 5
    then status_cell status_struct
    else other_cell tt

abbrev memory : Memory (Cell plain)
memory = record { next = 6; cell = cells }

-- What is read there.
abbrev stored_status : InferenceServiceStatus
stored_status = status_value status_struct (some (admitted ∷ []))

abbrev stored_service : ServiceObject
stored_service = record {
  type_meta = type_meta;
  service = record {
    metadata = qwen.metadata;
    spec = spec_value spec_struct (some quantity);
    status = stored_status;
  };
}

abbrev stored_list : InferenceServiceList plain
stored_list = record { type_meta = type_meta; list_meta = "41"; items = stored_service ∷ [] }

list_reads : (list_pointer machinery).read (some 3) memory ≡ some (some stored_list)
unfolding read_pointer read_all
list_reads = refl

service_reads : (service_pointer machinery).read (some 4) memory ≡ some (some stored_service)
unfolding read_pointer read_all
service_reads = refl

status_reads : (status_pointer machinery).read (some 5) memory ≡ some (some stored_status)
unfolding read_pointer read_all
status_reads = refl

-- The array of the conditions is written after the copy.
abbrev overwritten : Memory (Cell plain)
overwritten = store 1 (conditions_cell []) (list_copy machinery (some 3) memory).1

overwritten-KeepsNew : KeepsNew memory (list_copy machinery (some 3) memory).1 overwritten
unfolding store
overwritten-KeepsNew = (omega arith, λ a l h. ground arith)

list_copy-deep_example :
    (list_pointer machinery).read (list_copy machinery (some 3) memory).0 overwritten
    ≡ some (some stored_list)
list_copy-deep_example =
    list_copy-deep machinery (some 3) (some stored_list) memory overwritten list_reads
      overwritten-KeepsNew

service_copy_object-IsNewObject_example :
    let (o, m') = service_copy_object machinery (some 4) memory in
    IsNewObject machinery (some stored_service) memory (o, m')
    × Extends memory m'
    × ((service_pointer machinery).read (some 4) m' ≡ some (some stored_service))
service_copy_object-IsNewObject_example =
    service_copy_object-IsNewObject machinery (some 4) (some stored_service) memory service_reads

-- The service as it is read, and the writes of a reconcile of it.
abbrev known : InferenceService
known = stored_service.service

reconcile-Reaches_example :
    Reaches cluster known.status
      (reconcile cluster known address (start cluster known scaled)).1.status
reconcile-Reaches_example = reconcile-Reaches cluster known address scaled

until_compared-reads_example :
    let h = reconcile-Reaches cluster known address scaled in
    let (before, n) = until_compared in_place h known.generation 5 memory in
    let s = (reconcile cluster known address (start cluster known scaled)).1 in
    ((status_pointer machinery).read before n ≡ some (some known.status))
    × ((status_pointer machinery).read (some 5) n ≡ some (some (observed cluster known s.status)))
until_compared-reads_example =
    until_compared-reads in_place known address scaled 5 memory
      (reconcile-Reaches cluster known address scaled) status_reads
