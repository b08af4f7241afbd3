-- ===== src/Memory/Lists.antt =====
-- Copying in a loop: `for i := range in { in[i].DeepCopyInto(&out[i]) }`.
use llm_inference_platform.Prelude.{◌≡◌, refl, ◌∙◌, sym, Option, none, some, List, [], ◌∷◌, arith}
use llm_inference_platform.Memory.{Memory, Extends, KeepsNew, Copier, Extends-refl, Extends-trans}

module _ {V : Type 0} where
  both : Option V → Option (List V) → Option (List V)
  both (some v) (some vs) = some (v ∷ vs)
  both _ _ = none

  both-some :
      (o : Option V) (os : Option (List V)) (vs : List V)
      → both o os ≡ some vs
      → (v : V) × (ws : List V) × (o ≡ some v) × (os ≡ some ws) × (vs ≡ (v ∷ ws))
  unfolding both
  both-some none os vs h = ground arith
  both-some (some v) none vs h = ground arith
  both-some (some v) (some ws) vs h = (v, ws, refl, refl, ground arith)

module _ {K S : Type 0} where
  -- The loop, over the elements in their order.
  unfoldable pub copy_all : (S → Memory K → S × Memory K) → List S → Memory K → List S × Memory K
  copy_all copy [] m = ([], m)
  copy_all copy (s ∷ ss) m =
      let (s', m') = copy s m in let (ss', m'') = copy_all copy ss m' in (s' ∷ ss', m'')

  unfoldable pub read_all :
      {V : Type 0} → (S → Memory K → Option V) → List S → Memory K → Option (List V)
  unfolding both
  read_all read [] m = some []
  read_all read (s ∷ ss) m = both (read s m) (read_all read ss m)

module _ {K : Type 0} where
  pub KeepsNew-first : (m m' m'' n : Memory K) → Extends m' m'' → KeepsNew m m'' n → KeepsNew m m' n
  KeepsNew-first m m' m'' n e k =
      (omega (arith, e.0, k.0), λ a l h. k.1 a l (omega (arith, e.0)) ∙ e.1 a (omega arith) h)

  pub KeepsNew-last : (m m' m'' n : Memory K) → Extends m m' → KeepsNew m m'' n → KeepsNew m' m'' n
  KeepsNew-last m m' m'' n e k = (k.0, λ a l h. k.1 a (omega (arith, e.0)) h)

module _ {K S V : Type 0} (C : Copier K S V) where
  pub copy_all-Extends : (ss : List S) (m : Memory K) → Extends m (copy_all C.copy ss m).1
  unfolding copy_all
  copy_all-Extends [] m = Extends-refl m
  copy_all-Extends (s ∷ ss) m =
      let m' = (C.copy s m).1 in Extends-trans m m' _ (C.copy-Extends s m) (copy_all-Extends ss m')

  pub read_all-Extends :
      (ss : List S) (vs : List V) (m m' : Memory K)
      → Extends m m'
      → read_all C.read ss m ≡ some vs
      → read_all C.read ss m' ≡ some vs
  unfolding read_all
  read_all-Extends [] vs m m' e h = h
  read_all-Extends (s ∷ ss) vs m m' e h =
      let (v, ws, hv, hs, same) = both-some (C.read s m) (read_all C.read ss m) vs h in
      rw (C.read-Extends s v m m' e hv, read_all-Extends ss ws m m' e hs) (sym (ground arith))

  pub read_all-copy_all :
      (ss : List S) (vs : List V) (m n : Memory K)
      → read_all C.read ss m ≡ some vs
      → KeepsNew m (copy_all C.copy ss m).1 n
      → read_all C.read (copy_all C.copy ss m).0 n ≡ some vs
  unfolding read_all copy_all
  read_all-copy_all [] vs m n h k = h
  read_all-copy_all (s ∷ ss) vs m n h k =
      let (v, ws, hv, hs, same) = both-some (C.read s m) (read_all C.read ss m) vs h in
      let e = C.copy-Extends s m in
      let m' = (C.copy s m).1 in
      let m'' = (copy_all C.copy ss m').1 in
      let here = C.read-copy s v m n hv (KeepsNew-first m m' m'' n (copy_all-Extends ss m') k) in
      let rest =
        read_all-copy_all ss ws m' n (read_all-Extends ss ws m m' e hs)
          (KeepsNew-last m m' m'' n e k) in
      rw (here, rest) (sym (ground arith))

  pub read_all-same :
      (ss : List S) (m n : Memory K)
      → ((s : S) → C.read s n ≡ C.read s m)
      → read_all C.read ss n ≡ read_all C.read ss m
  unfolding read_all
  read_all-same [] m n flat = refl
  read_all-same (s ∷ ss) m n flat = rw (flat s, read_all-same ss m n flat) refl

  -- A list of structs is read and copied element by element.
  abbrev pub each : Copier K (List S) (List V)
  each = record {
    read = read_all C.read;
    copy = copy_all C.copy;
    read-Extends = read_all-Extends;
    copy-Extends = copy_all-Extends;
    read-copy = read_all-copy_all;
  }
