-- ===== src/Tests/Memory.antt =====
-- An API machinery whose structs are plain values, and `SetStatusCondition` on it.
use llm_inference_platform.Prelude.{
  ℕ, String, ◌≤◌, ◌<◌, sym, ap, ◌∙◌, Bool-cases, ◌≡◌, ◌⊎◌, ◌≢◌, ◌==◌, inl, inr, refl, Bool, true,
  false, if◌then◌else◌, Option, none, some, List, [], ◌∷◌, arith,
}
use llm_inference_platform.Kube.Meta.{ObjectMeta, Condition, Quantity}
use llm_inference_platform.Memory.{Memory, alloc, store, load-alloc, load-store}
use llm_inference_platform.Memory.Pointers.{
  assigned, fetch, load-fetch, cell-read_pointer, read_pointer-cell, read_pointer-ne-nil,
  read_pointer-nil,
}
use llm_inference_platform.Memory.Lists.{each, read_all}
use llm_inference_platform.V1alpha1.Structs.{
  Types, Library, Cell, conditions_cell, as_conditions, elements,
}
use llm_inference_platform.V1alpha1.DeepCopy.Copies.{conditions}
use llm_inference_platform.Controller.StatusWrites.InPlace.{SetsInPlace}
use llm_inference_platform.Tests.Cluster.{cluster, set_condition}

abbrev pub plain : Types
plain = record {
  ObjectMetaStruct = ObjectMeta;
  ListMetaStruct = String;
  ListMeta = String;
  QuantityStruct = Quantity;
  ConditionStruct = Condition;
  Other = Unit;
}

abbrev pub machinery : Library plain
machinery = record {
  object_meta = assigned (Cell plain) ObjectMeta;
  list_meta = assigned (Cell plain) String;
  quantity = assigned (Cell plain) Quantity;
  condition = assigned (Cell plain) Condition;
}

abbrev has : List Condition → String → Bool
has [] kind = false
has (c ∷ cs) kind = if c.kind == kind then true else has cs kind

-- A condition of a known type is written in place; a new one makes the array grow, and so move.
abbrev placed :
    Condition
    → Option ℕ
    → Option (List Condition)
    → Memory (Cell plain)
    → Option ℕ × Memory (Cell plain)
placed c p none m = let (a, m') = alloc (conditions_cell (c ∷ [])) m in (some a, m')
placed c none (some cs) m =
    let (a, m') = alloc (conditions_cell (set_condition cs c)) m in (some a, m')
placed c (some b) (some cs) m =
    if has cs c.kind
    then (some b, store b (conditions_cell (set_condition cs c)) m)
    else let (a, m') = alloc (conditions_cell (set_condition cs c)) m in (some a, m')

abbrev found : Option ℕ → Memory (Cell plain) → Option (List Condition)
found none m = none
found (some a) m = fetch as_conditions a m

pub placed-next :
    (c : Condition) (p : Option ℕ) (o : Option (List Condition)) (m : Memory (Cell plain))
    → m.next ≤ (placed c p o m).1.next
unfolding alloc store
placed-next c p none m = ground arith
placed-next c none (some cs) m = ground arith
placed-next c (some b) (some cs) m = ground arith

pub placed-other :
    (c : Condition) (p : Option ℕ) (o : Option (List Condition)) (m : Memory (Cell plain)) (a : ℕ)
    → a < m.next
    → p ≢ some a
    → (placed c p o m).1.cell a ≡ m.cell a
unfolding alloc store
placed-other c p none m a l d = ground arith
placed-other c none (some cs) m a l d = ground arith
placed-other c (some b) (some cs) m a l d = ground arith

pub placed-place :
    (c : Condition) (p : Option ℕ) (o : Option (List Condition)) (m : Memory (Cell plain)) (a : ℕ)
    → (placed c p o m).0 ≡ some a
    → (p ≡ some a) ⊎ (m.next ≤ a)
unfolding alloc store
placed-place c p none m a e = ground arith
placed-place c none (some cs) m a e = ground arith
placed-place c (some b) (some cs) m a e = ground arith

read_all-plain :
    (cs : List Condition) (m : Memory (Cell plain))
    → read_all machinery.condition.read cs m ≡ some cs
unfolding read_all
read_all-plain [] m = refl
read_all-plain (c ∷ cs) m = rw (read_all-plain cs m) refl

-- A new array is read as what it holds.
alloc-read :
    (cs : List Condition) (m : Memory (Cell plain))
    → (conditions machinery).read
        (some (alloc (conditions_cell cs) m).0)
        (alloc (conditions_cell cs) m).1
      ≡ some (some cs)
alloc-read cs m =
    let m' = (alloc (conditions_cell cs) m).1 in
    cell-read_pointer conditions_cell as_conditions (λ x. refl) (each machinery.condition)
      (alloc (conditions_cell cs) m).0 cs cs m'
      (load-alloc (conditions_cell cs) m m' (omega arith, λ a l h. refl)) (read_all-plain cs m')

pub placed-read :
    (c : Condition) (p : Option ℕ) (o : Option (List Condition)) (m : Memory (Cell plain))
    → (conditions machinery).read p m ≡ some o
    → let (q, m') = placed c p (found p m) m in
      (conditions machinery).read q m' ≡ some (some (set_condition (elements o) c))
placed-read c none none m reads = alloc-read (c ∷ []) m
placed-read c none (some cs) m reads =
    let e =
      read_pointer-nil conditions_cell as_conditions (λ x. refl) (each machinery.condition)
        (some cs) m reads in
    ground arith
placed-read c (some a) none m reads = absurd (
    read_pointer-ne-nil conditions_cell as_conditions (λ x. refl) (each machinery.condition) a m
      reads)
placed-read c (some a) (some cs) m reads =
    let (k, ss, there, peeks, same) =
      read_pointer-cell conditions_cell as_conditions (λ x. refl) (each machinery.condition) a cs m
        reads in
    let held : ss ≡ cs =
      let e : some ss ≡ some cs = sym (read_all-plain ss m) ∙ same in ground arith in
    let f : found (some a) m ≡ some cs =
      load-fetch as_conditions a k ss m there peeks ∙ ap some held in
    elim (Bool-cases (has cs c.kind)) [
      | inl known ↦
          rw (f, known)
            (cell-read_pointer conditions_cell as_conditions (λ x. refl) (each machinery.condition)
              a (set_condition cs c) (set_condition cs c)
              (store a (conditions_cell (set_condition cs c)) m)
              (load-store a (conditions_cell (set_condition cs c)) k m there)
              (read_all-plain (set_condition cs c)
                (store a (conditions_cell (set_condition cs c)) m)))
      | inr new ↦ rw (f, new) (alloc-read (set_condition cs c) m)
    ]

abbrev pub in_place : SetsInPlace cluster machinery
in_place = record {
  set = λ w c p m. placed c p (found p m) m;
  read-set = λ w c p o m h. placed-read c p o m h;
  set-next = λ w c p m. placed-next c p (found p m) m;
  set-other = λ w c p m a l d. placed-other c p (found p m) m a l d;
  set-place = λ w c p m a e. placed-place c p (found p m) m a e;
  flat = λ s m n. refl;
}
