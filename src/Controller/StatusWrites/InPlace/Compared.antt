-- ===== src/Controller/StatusWrites/InPlace/Compared.antt =====
-- What `Reconcile` compares: `before`, the deep copy of the status, with the status that the run left.
use llm_inference_platform.Prelude.{ℕ, String, ◌≡◌, inl, refl, ap, ◌∙◌, Option, some, arith}
use llm_inference_platform.Prelude.Int.{ℤ}
use llm_inference_platform.Kube.Client.{Client}
use llm_inference_platform.V1alpha1.{InferenceService, InferenceServiceStatus}
use llm_inference_platform.V1alpha1.Structs.{
  Types, Library, Cell, StatusStruct, status_cell, conditions_cell, as_status, as_conditions,
  status_value,
}
use llm_inference_platform.V1alpha1.DeepCopy.{status_copy}
use llm_inference_platform.V1alpha1.DeepCopy.Copies.{conditions, status, status_pointer}
use llm_inference_platform.Memory.{Memory, Extends, load, load-Extends, load-below}
use llm_inference_platform.Memory.Structs.{map_value, map_value-some}
use llm_inference_platform.Memory.Lists.{each}
use llm_inference_platform.Memory.Pointers.{
  read_pointer-cell, cell-read_pointer, read_pointer-below,
}
use llm_inference_platform.Controller.Reconcile.{reconcile, start, observed}
use llm_inference_platform.Controller.StatusWrites.{Reaches, write, write_observed_generation}
use llm_inference_platform.Controller.StatusWrites.InPlace.{
  SetsInPlace, perform_all, Live, perform_all-Live,
}

as_status-some :
    {T : Types} (k : Cell T) (s : StatusStruct) → as_status k ≡ some s → k ≡ status_cell s
as_status-some k s h = ground arith

module _ {C : Client} {T : Types} {L : Library T} (S : SetsInPlace C L) (r : ℕ)
    (m : Memory (Cell T)) where
  -- After the copy the status is as it was, and apart from it.
  copied-Live :
      (v : InferenceServiceStatus)
      → (status_pointer L).read (some r) m ≡ some (some v)
      → Live S r m (status_copy L (some r) m).1 v (status_copy L (some r) m).1
  unfolding status_copy
  copied-Live v reads =
      let (k, s, there, peeks, value) =
        read_pointer-cell status_cell as_status (λ x. refl) (status L) r v m reads in
      let held : load r m ≡ some (status_cell s) = there ∙ ap some (as_status-some k s peeks) in
      let (o, lists, same) =
        map_value-some (status_value s) ((conditions L).read s.conditions m) v value in
      let m1 = (status_copy L (some r) m).1 in
      let e : Extends m m1 = (status_pointer L).copy-Extends (some r) m in
      record {
        struct = s;
        listed = o;
        held = load-Extends r (status_cell s) m m1 e held;
        lists = (conditions L).read-Extends s.conditions o m m1 e lists;
        value = same;
        apart = inl (load-below r (status_cell s) m held).0;
        list_apart = λ a p. inl (
            read_pointer-below conditions_cell as_conditions (λ x. refl) (each L.condition)
              s.conditions o a m lists p);
        kept = (omega arith, λ a l h. refl);
      }

module _ {C : Client} {T : Types} {L : Library T} (S : SetsInPlace C L) where
  -- `Reconcile` up to its comparison, with `svc.Status` at an address, as far as memory goes: `before`
  -- is copied, `reconcile` makes its writes, and the generation is written.
  unfoldable pub until_compared :
      {a b : InferenceServiceStatus}
      → Reaches C a b
      → ℤ
      → ℕ
      → Memory (Cell T)
      → Option ℕ × Memory (Cell T)
  unfolding status_copy perform_all
  until_compared h generation r m =
      let (before, m1) = status_copy L (some r) m in
      (before, perform_all S (write (write_observed_generation generation) h) r m1)

-- Where `SetStatusCondition` writes into the array of the slice that it is given: by whatever writes a
-- reconcile comes from the status that was read to the one that it leaves, when `Reconcile` compares,
-- `before` reads as the status that was read, and `svc.Status` as the one that `reconcile` leaves,
-- with the observed generation.
pub until_compared-reads :
    {C : Client} {T : Types} {L : Library T} (S : SetsInPlace C L) (svc : InferenceService)
    (prometheus_address : String) (w : C.World) (r : ℕ) (m : Memory (Cell T))
    (h : Reaches C svc.status (reconcile C svc prometheus_address (start C svc w)).1.status)
    → (status_pointer L).read (some r) m ≡ some (some svc.status)
    → let (before, n) = until_compared S h svc.generation r m in
      let s = (reconcile C svc prometheus_address (start C svc w)).1 in
      ((status_pointer L).read before n ≡ some (some svc.status))
      × ((status_pointer L).read (some r) n ≡ some (some (observed C svc s.status)))
unfolding until_compared status_copy
until_compared-reads {C} {T} {L} S svc prometheus_address w r m h reads =
    let m1 = (status_copy L (some r) m).1 in
    let live =
      perform_all-Live S r m m1 svc.status _ (write (write_observed_generation svc.generation) h)
        (copied-Live S r m svc.status reads) in
    (
      (status_pointer L).read-copy (some r) (some svc.status) m _ reads live.kept,
      cell-read_pointer status_cell as_status (λ x. refl) (status L) r live.struct _ _ live.held
          (ap (map_value (status_value live.struct)) live.lists ∙ ap some live.value),
    )
