-- ===== src/Memory/Structs.antt =====
-- Copying a struct field by field.
use llm_inference_platform.Prelude.{◌≡◌, refl, ap, ◌∙◌, Option, none, some, arith}
use llm_inference_platform.Memory.{Memory, Extends, KeepsNew, Copier, Extends-trans}
use llm_inference_platform.Memory.Lists.{KeepsNew-first, KeepsNew-last}

abbrev pub map_value : {A B : Type 0} → (A → B) → Option A → Option B
map_value f none = none
map_value f (some a) = some (f a)

pub map_value-some :
    {A B : Type 0} (f : A → B) (o : Option A) (b : B)
    → map_value f o ≡ some b
    → (a : A) × (o ≡ some a) × (f a ≡ b)
map_value-some f none b h = ground arith
map_value-some f (some a) b h = (a, refl, ground arith)

module _ {V W : Type 0} where
  abbrev pub paired : Option V → Option W → Option (V × W)
  paired (some v) (some w) = some (v, w)
  paired _ _ = none

  paired-some :
      (o : Option V) (q : Option W) (v : V × W)
      → paired o q ≡ some v
      → (o ≡ some v.0) × (q ≡ some v.1)
  paired-some none q v h = ground arith
  paired-some (some a) none v h = ground arith
  paired-some (some a) (some b) v h = ground arith

-- Two fields, one after the other.
module _ {K S R V W : Type 0} (C : Copier K S V) (D : Copier K R W) where
  abbrev pub read_both : S × R → Memory K → Option (V × W)
  read_both s m = paired (C.read s.0 m) (D.read s.1 m)

  abbrev pub copy_both : S × R → Memory K → (S × R) × Memory K
  copy_both s m = let (a, m') = C.copy s.0 m in let (b, m'') = D.copy s.1 m' in ((a, b), m'')

  pub read_both-Extends :
      (s : S × R) (v : V × W) (m m' : Memory K)
      → Extends m m'
      → read_both s m ≡ some v
      → read_both s m' ≡ some v
  read_both-Extends s v m m' e h =
      let (a, b) = paired-some (C.read s.0 m) (D.read s.1 m) v h in
      rw (C.read-Extends s.0 v.0 m m' e a, D.read-Extends s.1 v.1 m m' e b) refl

  pub copy_both-Extends : (s : S × R) (m : Memory K) → Extends m (copy_both s m).1
  copy_both-Extends s m =
      let m' = (C.copy s.0 m).1 in
      Extends-trans m m' (D.copy s.1 m').1 (C.copy-Extends s.0 m) (D.copy-Extends s.1 m')

  pub read_both-copy :
      (s : S × R) (v : V × W) (m n : Memory K)
      → read_both s m ≡ some v
      → KeepsNew m (copy_both s m).1 n
      → read_both (copy_both s m).0 n ≡ some v
  read_both-copy s v m n h k =
      let (a, b) = paired-some (C.read s.0 m) (D.read s.1 m) v h in
      let m' = (C.copy s.0 m).1 in
      let m'' = (D.copy s.1 m').1 in
      let e = C.copy-Extends s.0 m in
      let first = C.read-copy s.0 v.0 m n a (KeepsNew-first m m' m'' n (D.copy-Extends s.1 m') k) in
      let second =
        D.read-copy s.1 v.1 m' n (D.read-Extends s.1 v.1 m m' e b) (KeepsNew-last m m' m'' n e k) in
      rw (first, second) refl

  abbrev pub pair : Copier K (S × R) (V × W)
  pair = record {
    read = read_both;
    copy = copy_both;
    read-Extends = read_both-Extends;
    copy-Extends = copy_both-Extends;
    read-copy = read_both-copy;
  }

-- A struct of which a part is copied deeply, and the rest by assignment.
module _ {K S V Whole Value : Type 0} (C : Copier K S V) (get : Whole → S) (set : Whole → S → Whole)
    (value : Whole → V → Value) (get-set : (s : Whole) (x : S) → get (set s x) ≡ x)
    (value-set : (s : Whole) (x : S) (v : V) → value (set s x) v ≡ value s v) where
  abbrev pub read_part : Whole → Memory K → Option Value
  read_part s m = map_value (value s) (C.read (get s) m)

  abbrev pub copy_part : Whole → Memory K → Whole × Memory K
  copy_part s m = let (x, m') = C.copy (get s) m in (set s x, m')

  pub read_part-Extends :
      (s : Whole) (v : Value) (m m' : Memory K)
      → Extends m m'
      → read_part s m ≡ some v
      → read_part s m' ≡ some v
  read_part-Extends s v m m' e h =
      let (x, found, same) = map_value-some (value s) (C.read (get s) m) v h in
      rw (C.read-Extends (get s) x m m' e found) (ap some same)

  pub read_part-copy :
      (s : Whole) (v : Value) (m n : Memory K)
      → read_part s m ≡ some v
      → KeepsNew m (copy_part s m).1 n
      → read_part (copy_part s m).0 n ≡ some v
  read_part-copy s v m n h k =
      let (x, found, same) = map_value-some (value s) (C.read (get s) m) v h in
      let x' = (C.copy (get s) m).0 in
      rw (get-set s x', C.read-copy (get s) x m n found k) (ap some (value-set s x' x ∙ same))

  abbrev pub part : Copier K Whole Value
  part = record {
    read = read_part;
    copy = copy_part;
    read-Extends = read_part-Extends;
    copy-Extends = λ s m. C.copy-Extends (get s) m;
    read-copy = read_part-copy;
  }
