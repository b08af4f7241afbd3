-- ===== src/V1alpha1/DeepCopy.antt =====
-- api/v1alpha1/zz_generated.deepcopy.go: `DeepCopyInto` takes the struct that `in` points to and
-- gives the one that it leaves at `out`, so that it serves for a field and an element too; `DeepCopy`
-- takes and gives an address, or nil. Memory is given out once it is filled.
pub mod Copies
pub mod Deep
use llm_inference_platform.Prelude.{ℕ, Option, none, some}
use llm_inference_platform.Memory.{Memory}
use llm_inference_platform.Memory.Lists.{copy_all}
use llm_inference_platform.Memory.Pointers.{copy_pointer}
use llm_inference_platform.V1alpha1.{AutoscalingSpec}
use llm_inference_platform.V1alpha1.Structs.{
  Types, Library, Cell, SpecStruct, StatusStruct, ServiceStruct, ListStruct, quantity_cell,
  conditions_cell, items_cell, autoscaling_cell, spec_cell, status_cell, service_cell, list_cell,
  as_quantity, as_conditions, as_items, as_autoscaling, as_spec, as_status, as_service, as_list,
}

-- A `runtime.Object`: nil, or a pointer with its type.
pub data Object : Type 0 where
  nil_object : Object
  service_object : ℕ → Object
  list_object : ℕ → Object

module _ {T : Types} (L : Library T) where
  unfoldable pub autoscaling_into :
      AutoscalingSpec → Memory (Cell T) → AutoscalingSpec × Memory (Cell T)
  autoscaling_into s m = (s, m)

  unfoldable pub spec_into : SpecStruct → Memory (Cell T) → SpecStruct × Memory (Cell T)
  unfolding copy_pointer
  spec_into s m =
      let (memory, m') =
        copy_pointer quantity_cell as_quantity L.quantity.copy s.min_device_memory m in
      (record s { min_device_memory = memory; autoscaling = s.autoscaling }, m')

  unfoldable pub status_into : StatusStruct → Memory (Cell T) → StatusStruct × Memory (Cell T)
  unfolding copy_pointer copy_all
  status_into s m =
      let (conditions, m') =
        copy_pointer conditions_cell as_conditions (copy_all L.condition.copy) s.conditions m in
      (record s { conditions = conditions }, m')

  unfoldable pub service_into :
      ServiceStruct T → Memory (Cell T) → ServiceStruct T × Memory (Cell T)
  unfolding spec_into status_into
  service_into s m =
      let (object_meta, m1) = L.object_meta.copy s.object_meta m in
      let (spec, m2) = spec_into s.spec m1 in
      let (status, m3) = status_into s.status m2 in
      (
        record { type_meta = s.type_meta; object_meta = object_meta; spec = spec; status = status },
        m3,
      )

  unfoldable pub list_into : ListStruct T → Memory (Cell T) → ListStruct T × Memory (Cell T)
  unfolding service_into copy_pointer copy_all
  list_into s m =
      let (list_meta, m1) = L.list_meta.copy s.list_meta m in
      let (items, m2) = copy_pointer items_cell as_items (copy_all service_into) s.items m1 in
      (record { type_meta = s.type_meta; list_meta = list_meta; items = items }, m2)

  unfoldable pub autoscaling_copy : Option ℕ → Memory (Cell T) → Option ℕ × Memory (Cell T)
  unfolding autoscaling_into copy_pointer
  autoscaling_copy = copy_pointer autoscaling_cell as_autoscaling autoscaling_into

  unfoldable pub spec_copy : Option ℕ → Memory (Cell T) → Option ℕ × Memory (Cell T)
  unfolding spec_into copy_pointer
  spec_copy = copy_pointer spec_cell as_spec spec_into

  unfoldable pub status_copy : Option ℕ → Memory (Cell T) → Option ℕ × Memory (Cell T)
  unfolding status_into copy_pointer
  status_copy = copy_pointer status_cell as_status status_into

  unfoldable pub service_copy : Option ℕ → Memory (Cell T) → Option ℕ × Memory (Cell T)
  unfolding service_into copy_pointer
  service_copy = copy_pointer service_cell as_service service_into

  unfoldable pub list_copy : Option ℕ → Memory (Cell T) → Option ℕ × Memory (Cell T)
  unfolding list_into copy_pointer
  list_copy = copy_pointer list_cell as_list list_into

  -- `if c := in.DeepCopy(); c != nil { return c }; return nil`
  object : (ℕ → Object) → Option ℕ → Object
  object typed none = nil_object
  object typed (some a) = typed a

  unfoldable pub service_copy_object : Option ℕ → Memory (Cell T) → Object × Memory (Cell T)
  unfolding service_copy object
  service_copy_object p m = let (c, m') = service_copy p m in (object service_object c, m')

  unfoldable pub list_copy_object : Option ℕ → Memory (Cell T) → Object × Memory (Cell T)
  unfolding list_copy object
  list_copy_object p m = let (c, m') = list_copy p m in (object list_object c, m')
