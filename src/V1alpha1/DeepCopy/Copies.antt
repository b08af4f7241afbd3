-- ===== src/V1alpha1/DeepCopy/Copies.antt =====
-- The structs of the API with their copying, put together from their fields: what each is read as, and
-- that its copy is deep.
use llm_inference_platform.Prelude.{ℕ, refl, Option, List}
use llm_inference_platform.Kube.Meta.{Condition}
use llm_inference_platform.Memory.{Copier}
use llm_inference_platform.Memory.Lists.{each}
use llm_inference_platform.Memory.Pointers.{pointer}
use llm_inference_platform.Memory.Structs.{pair, part}
use llm_inference_platform.V1alpha1.{InferenceServiceSpec, InferenceServiceStatus}
use llm_inference_platform.V1alpha1.Structs.{
  Types, Library, Cell, SpecStruct, StatusStruct, ServiceStruct, ListStruct, quantity_cell,
  conditions_cell, items_cell, status_cell, service_cell, list_cell, as_quantity, as_conditions,
  as_items, as_status, as_service, as_list, ServiceObject, InferenceServiceList, spec_value,
  status_value, elements,
}

module _ {T : Types} (L : Library T) where
  abbrev pub conditions : Copier (Cell T) (Option ℕ) (Option (List Condition))
  conditions = pointer conditions_cell as_conditions (λ s. refl) (each L.condition)

  abbrev pub spec : Copier (Cell T) SpecStruct InferenceServiceSpec
  spec =
      part (pointer quantity_cell as_quantity (λ s. refl) L.quantity)
        (λ (s : SpecStruct). s.min_device_memory)
        (λ (s : SpecStruct) x. record s { min_device_memory = x; autoscaling = s.autoscaling })
        spec_value (λ s x. refl) (λ s x v. refl)

  abbrev pub status : Copier (Cell T) StatusStruct InferenceServiceStatus
  status =
      part conditions (λ (s : StatusStruct). s.conditions)
        (λ (s : StatusStruct) x. record s { conditions = x }) status_value (λ s x. refl)
        (λ s x v. refl)

  abbrev pub service : Copier (Cell T) (ServiceStruct T) ServiceObject
  service =
      part (pair L.object_meta (pair spec status))
        (λ (s : ServiceStruct T). (s.object_meta, (s.spec, s.status)))
        (λ (s : ServiceStruct T) x. record {
          type_meta = s.type_meta;
          object_meta = x.0;
          spec = x.1.0;
          status = x.1.1;
        })
        (λ (s : ServiceStruct T) v. record {
          type_meta = s.type_meta;
          service = record { metadata = v.0; spec = v.1.0; status = v.1.1 };
        })
        (λ s x. refl) (λ s x v. refl)

  abbrev pub services : Copier (Cell T) (ListStruct T) (InferenceServiceList T)
  services =
      part (pair L.list_meta (pointer items_cell as_items (λ s. refl) (each service)))
        (λ (s : ListStruct T). (s.list_meta, s.items))
        (λ (s : ListStruct T) x. record { type_meta = s.type_meta; list_meta = x.0; items = x.1 })
        (λ (s : ListStruct T) v. record {
          type_meta = s.type_meta;
          list_meta = v.0;
          items = elements v.1;
        })
        (λ s x. refl) (λ s x v. refl)

  -- Behind a pointer, as `DeepCopy` is called.
  abbrev pub service_pointer : Copier (Cell T) (Option ℕ) (Option ServiceObject)
  service_pointer = pointer service_cell as_service (λ s. refl) service

  abbrev pub status_pointer : Copier (Cell T) (Option ℕ) (Option InferenceServiceStatus)
  status_pointer = pointer status_cell as_status (λ s. refl) status

  abbrev pub list_pointer : Copier (Cell T) (Option ℕ) (Option (InferenceServiceList T))
  list_pointer = pointer list_cell as_list (λ s. refl) services
