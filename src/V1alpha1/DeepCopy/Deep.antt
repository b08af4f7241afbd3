-- ===== src/V1alpha1/DeepCopy/Deep.antt =====
-- What the deep copies promise to their callers.
use llm_inference_platform.Prelude.{ℕ, ◌≤◌, ◌≡◌, refl, Option, none, some, arith, ◌∙◌, ap, sym}
use llm_inference_platform.Memory.{Memory, Extends, KeepsNew, Extends-refl}
use llm_inference_platform.V1alpha1.Structs.{
  Types, Library, Cell, ServiceObject, InferenceServiceList, service_cell, as_service,
}
use llm_inference_platform.V1alpha1.DeepCopy.{
  Object, nil_object, service_object, list_copy, service_copy, service_copy_object, object,
}
use llm_inference_platform.V1alpha1.DeepCopy.Copies.{service, list_pointer, service_pointer}
use llm_inference_platform.Memory.Pointers.{copy_pointer-fresh, read_pointer-ne-nil}

-- A list that can be read is copied so that the copy reads the same, with every service in it, in any
-- later state of memory in which the cells that the copying allocated are as it left them, and so
-- whatever is written to the cells that were there before.
pub list_copy-deep :
    {T : Types} (L : Library T) (p : Option ℕ) (v : Option (InferenceServiceList T))
    (m n : Memory (Cell T))
    → (list_pointer L).read p m ≡ some v
    → KeepsNew m (list_copy L p m).1 n
    → (list_pointer L).read (list_copy L p m).0 n ≡ some v
unfolding list_copy
list_copy-deep L p v m n reads keeps = (list_pointer L).read-copy p v m n reads keeps

module _ {T : Types} (L : Library T) where
  -- Nil for nil, and a new address that reads as the value for any other pointer.
  abbrev pub IsNewObject :
      Option ServiceObject → Memory (Cell T) → Object × Memory (Cell T) → Type 0
  IsNewObject none m (o, m') = o ≡ nil_object
  IsNewObject (some v) m (o, m') =
      (a : ℕ) × (o ≡ service_object a)
      × (m.next ≤ a)
      × ((service_pointer L).read (some a) m' ≡ some (some v))

-- `DeepCopyObject` of a service: nil for nil, never a typed nil, and otherwise an address that was not
-- in use, at which the same service is read. What was allocated before is not changed, so that the
-- original still reads as it did.
pub service_copy_object-IsNewObject :
    {T : Types} (L : Library T) (p : Option ℕ) (v : Option ServiceObject) (m : Memory (Cell T))
    → (service_pointer L).read p m ≡ some v
    → let (o, m') = service_copy_object L p m in
      IsNewObject L v m (o, m') × Extends m m' × ((service_pointer L).read p m' ≡ some v)
unfolding service_copy_object service_copy
service_copy_object-IsNewObject L none none m reads = (refl, Extends-refl m, reads)
service_copy_object-IsNewObject L (some a) none m reads =
    absurd (read_pointer-ne-nil service_cell as_service (λ s. refl) (service L) a m reads)
service_copy_object-IsNewObject L p (some v) m reads =
    let (a, made, new) =
      copy_pointer-fresh service_cell as_service (λ s. refl) (service L) p v m reads in
    let (c, m') = service_copy L p m in
    let e : Extends m m' = (service_pointer L).copy-Extends p m in
    let there : (service_pointer L).read c m' ≡ some (some v) =
      (service_pointer L).read-copy p (some v) m m' reads (omega arith, λ b l h. refl) in
    (
      (
        a,
        ap (object L service_object) made,
        new,
        ap (λ q. (service_pointer L).read q m') (sym made) ∙ there,
      ),
      e,
      (service_pointer L).read-Extends p (some v) m m' e reads,
    )
