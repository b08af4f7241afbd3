-- ===== src/Memory.antt =====
-- Go's memory, for the code that allocates: cells at addresses, given out in order. Copying code is
-- judged by what can be read of its result, whatever happens to the cells that it did not allocate.
pub mod Lists
pub mod Pointers
pub mod Structs
use llm_inference_platform.Prelude.{
  ℕ, suc, ◌≤◌, ◌<◌, ◌≡◌, ◌≢◌, refl, ◌∙◌, if◌then◌else◌, ltb, eqb, Option, none, some, arith,
}

pub record Memory (K : Type 0) : Type 0 where
  pub next : ℕ
  pub cell : ℕ → K

module _ {K : Type 0} where
  -- `*p`; `none` is an address that was not given out.
  unfoldable pub load : ℕ → Memory K → Option K
  load a m = if ltb a m.next then some (m.cell a) else none

  -- `&x` of a new `x`.
  unfoldable pub alloc : K → Memory K → ℕ × Memory K
  alloc k m =
      (m.next, record { next = suc m.next; cell = λ b. if eqb m.next b then k else m.cell b })

  -- `*p = x`
  unfoldable pub store : ℕ → K → Memory K → Memory K
  store a k m = record m { cell = λ b. if eqb a b then k else m.cell b }

  -- The same cells from one address on and below another.
  abbrev pub Agrees : ℕ → ℕ → Memory K → Memory K → Type 0
  Agrees low high m m' = (a : ℕ) → low ≤ a → a < high → m'.cell a ≡ m.cell a

  -- Nothing that was allocated is changed.
  abbrev pub Extends : Memory K → Memory K → Type 0
  Extends m m' = (m.next ≤ m'.next) × Agrees 0 m.next m m'

  -- What was allocated between two states is as it was.
  abbrev pub KeepsNew : Memory K → Memory K → Memory K → Type 0
  KeepsNew m m' m'' = (m'.next ≤ m''.next) × Agrees m.next m'.next m' m''

  pub Extends-refl : (m : Memory K) → Extends m m
  Extends-refl m = (omega arith, λ a l h. refl)

  pub Extends-trans : (m m' m'' : Memory K) → Extends m m' → Extends m' m'' → Extends m m''
  Extends-trans m m' m'' e f =
      (omega (arith, e.0, f.0), λ a l h. f.1 a l (omega (arith, e.0)) ∙ e.1 a l h)

  pub alloc-Extends : (k : K) (m : Memory K) → Extends m (alloc k m).1
  unfolding alloc
  alloc-Extends k m = (omega arith, λ a l h. ground arith)

  pub load-below :
      (a : ℕ) (k : K) (m : Memory K) → load a m ≡ some k → (a < m.next) × (m.cell a ≡ k)
  unfolding load
  load-below a k m h = ground arith

  below-load : (a : ℕ) (k : K) (m : Memory K) → a < m.next → m.cell a ≡ k → load a m ≡ some k
  unfolding load
  below-load a k m l h = ground arith

  pub load-Extends :
      (a : ℕ) (k : K) (m m' : Memory K) → Extends m m' → load a m ≡ some k → load a m' ≡ some k
  load-Extends a k m m' e h =
      let (l, same) = load-below a k m h in
      below-load a k m' (omega (arith, e.0)) (e.1 a (omega arith) l ∙ same)

  pub load-alloc :
      (k : K) (m m' : Memory K) → KeepsNew m (alloc k m).1 m' → load (alloc k m).0 m' ≡ some k
  unfolding alloc
  load-alloc k m m' e =
      below-load m.next k m' (omega (arith, e.0))
        (e.1 m.next (omega arith) (omega arith) ∙ ground arith)

  pub load-store :
      (a : ℕ) (k j : K) (m : Memory K) → load a m ≡ some j → load a (store a k m) ≡ some k
  unfolding load store
  load-store a k j m h = ground arith

  pub store-other : (a b : ℕ) (k : K) (m : Memory K) → a ≢ b → (store a k m).cell b ≡ m.cell b
  unfolding store
  store-other a b k m h = ground arith

  pub load-store-other : (a b : ℕ) (k : K) (m : Memory K) → a ≢ b → load b (store a k m) ≡ load b m
  unfolding load store
  load-store-other a b k m h = ground arith

  -- A cell is there once it is given out, and stays if it is not written.
  pub load-same :
      (a : ℕ) (k : K) (m m' : Memory K)
      → load a m ≡ some k
      → m.next ≤ m'.next
      → m'.cell a ≡ m.cell a
      → load a m' ≡ some k
  load-same a k m m' h n same =
      let (l, there) = load-below a k m h in below-load a k m' (omega arith) (same ∙ there)

-- How a struct of type `S` with pointers is read as a value of type `V`, and copied.
pub record Copier (K S V : Type 0) : Type 0 where
  pub read : S → Memory K → Option V
  pub copy : S → Memory K → S × Memory K
  pub read-Extends :
      (s : S) (v : V) (m m' : Memory K) → Extends m m' → read s m ≡ some v → read s m' ≡ some v
  pub copy-Extends : (s : S) (m : Memory K) → Extends m (copy s m).1
  -- The copy reads as the original did, as long as the cells stay that the copying allocated.
  pub read-copy :
      (s : S) (v : V) (m m' : Memory K)
      → read s m ≡ some v
      → KeepsNew m (copy s m).1 m'
      → read (copy s m).0 m' ≡ some v
