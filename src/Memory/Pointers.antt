-- ===== src/Memory/Pointers.antt =====
-- Copying behind a pointer, and what is copied by assignment.
use llm_inference_platform.Prelude.{
  ℕ, ◌≤◌, ◌<◌, ◌≡◌, ◌≢◌, refl, ap, sym, ◌∙◌, Option, none, some, arith,
}
use llm_inference_platform.Memory.{
  Memory, Extends, KeepsNew, Copier, Extends-refl, Extends-trans, load, alloc, load-Extends,
  load-below, load-alloc, alloc-Extends,
}
use llm_inference_platform.Memory.Lists.{KeepsNew-first, KeepsNew-last}

module _ {K S : Type 0} where
  peeked : (K → Option S) → Option K → Option S
  peeked peek none = none
  peeked peek (some k) = peek k

  -- The cell at an address, as what is kept there.
  unfoldable pub fetch : (K → Option S) → ℕ → Memory K → Option S
  unfolding load peeked
  fetch peek a m = peeked peek (load a m)

  -- `if in == nil { return nil }; x := copy of *in; return &x`. An address that was not given out, or
  -- holds something else, is no pointer of the type, and stays.
  unfoldable pub copy_pointer :
      (S → K)
      → (K → Option S)
      → (S → Memory K → S × Memory K)
      → Option ℕ
      → Memory K
      → Option ℕ × Memory K
  unfolding fetch alloc
  copy_pointer wrap peek into none m = (none, m)
  copy_pointer wrap peek into (some a) m = elim (fetch peek a m) [
    | none ↦ (some a, m)
    | some s ↦ let (s', m') = into s m in let (a', m'') = alloc (wrap s') m' in (some a', m'')
  ]

-- `*out = *in`, of a struct without pointers.
abbrev pub assigned : (K V : Type 0) → Copier K V V
assigned K V = record {
  read = λ v m. some v;
  copy = λ v m. (v, m);
  read-Extends = λ s v m m' e h. h;
  copy-Extends = λ s m. Extends-refl m;
  read-copy = λ s v m m' h k. h;
}

module _ {V : Type 0} where
  present : Option V → Option (Option V)
  present none = none
  present (some v) = some (some v)

  present-some :
      (o : Option V) (v : Option V) → present o ≡ some v → (w : V) × (o ≡ some w) × (v ≡ some w)
  unfolding present
  present-some none v h = ground arith
  present-some (some w) v h = (w, refl, ground arith)

module _ {K S : Type 0} (peek : K → Option S) where
  peeked-some :
      (o : Option K) (s : S) → peeked peek o ≡ some s → (k : K) × (o ≡ some k) × (peek k ≡ some s)
  unfolding peeked
  peeked-some none s h = ground arith
  peeked-some (some k) s h = (k, refl, h)

  pub load-fetch :
      (a : ℕ) (k : K) (s : S) (m : Memory K)
      → load a m ≡ some k
      → peek k ≡ some s
      → fetch peek a m ≡ some s
  unfolding fetch
  load-fetch a k s m h e = ap (peeked peek) h ∙ e

  fetch-Extends :
      (a : ℕ) (s : S) (m m' : Memory K)
      → Extends m m'
      → fetch peek a m ≡ some s
      → fetch peek a m' ≡ some s
  unfolding fetch
  fetch-Extends a s m m' e h =
      let (k, found, same) = peeked-some (load a m) s h in
      ap (peeked peek) (load-Extends a k m m' e found) ∙ same

module _ {K S V : Type 0} (wrap : S → K) (peek : K → Option S)
    (back : (s : S) → peek (wrap s) ≡ some s) (C : Copier K S V) where
  -- A pointer is read as what it points to, nil as nothing.
  read_found : Option S → Memory K → Option (Option V)
  unfolding present
  read_found none m = none
  read_found (some s) m = present (C.read s m)

  unfoldable pub read_pointer : Option ℕ → Memory K → Option (Option V)
  unfolding read_found fetch
  read_pointer none m = some none
  read_pointer (some a) m = read_found (fetch peek a m) m

  read_found-some :
      (o : Option S) (v : Option V) (m : Memory K)
      → read_found o m ≡ some v
      → (s : S) × (w : V) × (o ≡ some s) × (C.read s m ≡ some w) × (v ≡ some w)
  unfolding read_found
  read_found-some none v m h = ground arith
  read_found-some (some s) v m h =
      let (w, found, same) = present-some (C.read s m) v h in (s, w, refl, found, same)

  pub read_pointer-Extends :
      (p : Option ℕ) (v : Option V) (m m' : Memory K)
      → Extends m m'
      → read_pointer p m ≡ some v
      → read_pointer p m' ≡ some v
  unfolding read_pointer
  read_pointer-Extends none v m m' e h = h
  read_pointer-Extends (some a) v m m' e h =
      let (s, w, found, reads, same) = read_found-some (fetch peek a m) v m h in
      ap (λ o. read_found o m') (fetch-Extends peek a s m m' e found)
      ∙ ap present (C.read-Extends s w m m' e reads)
      ∙ ap some (sym same)

  copied : ℕ → Option S → Memory K → Option ℕ × Memory K
  copied a o m = elim o [
    | none ↦ (some a, m)
    | some s ↦ let (s', m') = C.copy s m in let (a', m'') = alloc (wrap s') m' in (some a', m'')
  ]

  copied-Extends : (a : ℕ) (o : Option S) (m : Memory K) → Extends m (copied a o m).1
  unfolding copied
  copied-Extends a none m = Extends-refl m
  copied-Extends a (some s) m =
      let (s', m') = C.copy s m in
      Extends-trans m m' (alloc (wrap s') m').1 (C.copy-Extends s m) (alloc-Extends (wrap s') m')

  pub copy_pointer-Extends :
      (p : Option ℕ) (m : Memory K) → Extends m (copy_pointer wrap peek C.copy p m).1
  unfolding copy_pointer copied
  copy_pointer-Extends none m = Extends-refl m
  copy_pointer-Extends (some a) m = copied-Extends a (fetch peek a m) m

  read-copied :
      (a : ℕ) (o : Option S) (v : Option V) (m n : Memory K)
      → read_found o m ≡ some v
      → KeepsNew m (copied a o m).1 n
      → read_pointer (copied a o m).0 n ≡ some v
  unfolding copied read_found read_pointer
  read-copied a none v m n h k = ground arith
  read-copied a (some s) v m n h k =
      let (w, reads, same) = present-some (C.read s m) v h in
      let (s', m') = C.copy s m in
      let e = C.copy-Extends s m in
      let there : load (alloc (wrap s') m').0 n ≡ some (wrap s') =
        load-alloc (wrap s') m' n (KeepsNew-last m m' (alloc (wrap s') m').1 n e k) in
      let here =
        C.read-copy s w m n reads
          (KeepsNew-first m m' (alloc (wrap s') m').1 n (alloc-Extends (wrap s') m') k) in
      let found : fetch peek (alloc (wrap s') m').0 n ≡ some s' =
        ap (peeked peek) there ∙ back s' in
      rw (found, same) (ap present here)

  pub read_pointer-copy :
      (p : Option ℕ) (v : Option V) (m n : Memory K)
      → read_pointer p m ≡ some v
      → KeepsNew m (copy_pointer wrap peek C.copy p m).1 n
      → read_pointer (copy_pointer wrap peek C.copy p m).0 n ≡ some v
  unfolding read_pointer copy_pointer copied
  read_pointer-copy none v m n h k = h
  read_pointer-copy (some a) v m n h k = read-copied a (fetch peek a m) v m n h k

  copied-fresh :
      (a : ℕ) (o : Option S) (v : V) (m : Memory K)
      → read_found o m ≡ some (some v)
      → (b : ℕ) × ((copied a o m).0 ≡ some b) × (m.next ≤ b)
  unfolding copied read_found alloc
  copied-fresh a none v m h = ground arith
  copied-fresh a (some s) v m h =
      let (s', m') = C.copy s m in (m'.next, refl, (C.copy-Extends s m).0)

  -- The copy of what a pointer points to is new.
  pub copy_pointer-fresh :
      (p : Option ℕ) (v : V) (m : Memory K)
      → read_pointer p m ≡ some (some v)
      → (b : ℕ) × ((copy_pointer wrap peek C.copy p m).0 ≡ some b) × (m.next ≤ b)
  unfolding read_pointer copy_pointer copied
  copy_pointer-fresh none v m h = ground arith
  copy_pointer-fresh (some a) v m h = copied-fresh a (fetch peek a m) v m h

  -- An address is never read as nil.
  pub read_pointer-ne-nil : (a : ℕ) (m : Memory K) → read_pointer (some a) m ≢ some none
  unfolding read_pointer
  read_pointer-ne-nil a m h =
      let (s, w, found, reads, same) = read_found-some (fetch peek a m) none m h in ground arith

  pub read_pointer-nil : (v : Option V) (m : Memory K) → read_pointer none m ≡ some v → v ≡ none
  unfolding read_pointer
  read_pointer-nil v m h = ground arith

  -- A pointer that is read holds the cell of a struct, and the other way round.
  pub read_pointer-cell :
      (a : ℕ) (v : V) (m : Memory K)
      → read_pointer (some a) m ≡ some (some v)
      → (k : K) × (s : S) × (load a m ≡ some k) × (peek k ≡ some s) × (C.read s m ≡ some v)
  unfolding read_pointer fetch
  read_pointer-cell a v m h =
      let (s, w, found, reads, same) = read_found-some (fetch peek a m) (some v) m h in
      let (k, there, peeks) = peeked-some peek (load a m) s found in
      (k, s, there, peeks, ground arith)

  pub cell-read_pointer :
      (a : ℕ) (s : S) (v : V) (m : Memory K)
      → load a m ≡ some (wrap s)
      → C.read s m ≡ some v
      → read_pointer (some a) m ≡ some (some v)
  unfolding read_pointer fetch
  cell-read_pointer a s v m there reads =
      ap (λ o. read_found o m) (ap (peeked peek) there ∙ back s) ∙ ap present reads

  pub read_pointer-below :
      (p : Option ℕ) (v : Option V) (a : ℕ) (m : Memory K)
      → read_pointer p m ≡ some v
      → p ≡ some a
      → a < m.next
  read_pointer-below none v a m h e = ground arith
  read_pointer-below (some b) none a m h e = absurd (read_pointer-ne-nil b m h)
  read_pointer-below (some b) (some v) a m h e =
      let (k, _, there, _, _) = read_pointer-cell b v m h in
      let (below, _) = load-below b k m there in ground arith

  flat_found :
      (o : Option S) (m n : Memory K)
      → ((s : S) → C.read s n ≡ C.read s m)
      → read_found o n ≡ read_found o m
  unfolding read_found
  flat_found none m n flat = refl
  flat_found (some s) m n flat = ap present (flat s)

  -- What is read behind a pointer depends on its cell alone, if it does for the struct.
  pub read_pointer-same :
      (p : Option ℕ) (m n : Memory K)
      → ((s : S) → C.read s n ≡ C.read s m)
      → ((a : ℕ) → p ≡ some a → load a n ≡ load a m)
      → read_pointer p n ≡ read_pointer p m
  unfolding read_pointer fetch
  read_pointer-same none m n flat same = refl
  read_pointer-same (some a) m n flat same =
      ap (λ o. read_found (peeked peek o) n) (same a refl) ∙ flat_found (fetch peek a m) m n flat

  abbrev pub pointer : Copier K (Option ℕ) (Option V)
  pointer = record {
    read = read_pointer;
    copy = copy_pointer wrap peek C.copy;
    read-Extends = read_pointer-Extends;
    copy-Extends = copy_pointer-Extends;
    read-copy = read_pointer-copy;
  }
