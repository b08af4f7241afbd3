-- ===== src/Controller/Trace.antt =====
-- Rules for handlers over the calls that they have made: an event is judged by those before it.
use llm_inference_platform.Prelude.{some, ℕ, List, [], ◌∷◌}
use llm_inference_platform.Prelude.Result.{Result, ok, err}
use llm_inference_platform.Kube.Client.{Client}
use llm_inference_platform.Controller.Run.{Event, Run, Failure, M, ◌>>=◌}
use llm_inference_platform.Controller.Reconcile.{Outcome, step}

module _ {C : Client} where
  -- Every event is allowed after the events before it.
  abbrev pub Chain : (Event C → List (Event C) → Type 0) → List (Event C) → Type 0
  Chain Allowed [] = Unit
  Chain Allowed (e ∷ past) = Allowed e past × Chain Allowed past

  pub Chain-map :
      (A B : Event C → List (Event C) → Type 0)
      → ((e : Event C) (past : List (Event C)) → A e past → B e past)
      → (es : List (Event C)) → Chain A es
      → Chain B es
  Chain-map A B f [] h = tt
  Chain-map A B f (e ∷ past) h = (f e past h.0, Chain-map A B f past h.1)

module _ {C : Client} {A : Type 0} where
  abbrev pub Ends :
      (A → Run C → Type 0) → (Failure C → Run C → Type 0) → Result (Failure C) A × Run C → Type 0
  Ends Q E (ok a, s) = Q a s
  Ends Q E (err e, s) = E e s

  -- From `P` a handler returns in `Q`, or fails in `E`.
  pub record Contract (P : Run C → Type 0) (m : M C A) (Q : A → Run C → Type 0)
      (E : Failure C → Run C → Type 0) : Type 0 where
    pub at : (s : Run C) → P s → Ends Q E (m s)

  -- The same where the error does not matter.
  abbrev pub Triple : (Run C → Type 0) → M C A → (A → Run C → Type 0) → (Run C → Type 0) → Type 0
  Triple P m Q E = Contract P m Q (λ _. E)

-- From `P` the rest of `reconcile` gives an outcome and a run in `F`.
pub record Finishes {C : Client} (P : Run C → Type 0) (m : Run C → Outcome C × Run C)
    (F : Outcome C → Run C → Type 0) : Type 0 where
  pub at : (s : Run C) → P s → F (m s).0 (m s).1

module _ {C : Client} {A B : Type 0} where
  bound :
      (R : A → Run C → Type 0) (Q : B → Run C → Type 0) (E : Failure C → Run C → Type 0)
      (f : A → M C B)
      → ((a : A) → Contract (R a) (f a) Q E)
      → (r : Result (Failure C) A × Run C) → Ends R E r
      → Ends Q E (((λ _. r) >>= f) r.1)
  bound R Q E f k (ok a, s) h = (k a).at s h
  bound R Q E f k (err e, s) h = h

  pub Contract-bind :
      {P : Run C → Type 0} (R : A → Run C → Type 0) {Q : B → Run C → Type 0}
      (E : Failure C → Run C → Type 0) (m : M C A) (f : A → M C B)
      → Contract P m R E
      → ((a : A) → Contract (R a) (f a) Q E)
      → Contract P (m >>= f) Q E
  Contract-bind R {Q} E m f t k = record { at = λ s h. bound R Q E f k (m s) (t.at s h) }

  pub Triple-bind :
      {P : Run C → Type 0} (R : A → Run C → Type 0) {Q : B → Run C → Type 0} {E : Run C → Type 0}
      (m : M C A) (f : A → M C B)
      → Triple P m R E
      → ((a : A) → Triple (R a) (f a) Q E)
      → Triple P (m >>= f) Q E
  Triple-bind R {E = E} m f t k = Contract-bind R (λ _. E) m f t k

module _ {C : Client} {A : Type 0} where
  stepped :
      (R : A → Run C → Type 0) (E : Failure C → Run C → Type 0) (F : Outcome C → Run C → Type 0)
      (after : ℕ) (f : A → Run C → Outcome C × Run C)
      → ((e : Failure C) (s : Run C)
          → E e s
          → F (record { requeue_after = after; error = some e }) s)
      → ((a : A) → Finishes (R a) (f a) F)
      → (r : Result (Failure C) A × Run C) → Ends R E r
      → let (o, s) = step (λ _. r) after f r.1 in F o s
  stepped R E F after f l k (ok a, s) h = (k a).at s h
  stepped R E F after f l k (err e, s) h = l e s h

  pub Finishes-contract :
      {P : Run C → Type 0} (R : A → Run C → Type 0) (E : Failure C → Run C → Type 0)
      {F : Outcome C → Run C → Type 0} (m : M C A) (after : ℕ) (f : A → Run C → Outcome C × Run C)
      → Contract P m R E
      → ((e : Failure C) (s : Run C)
          → E e s
          → F (record { requeue_after = after; error = some e }) s)
      → ((a : A) → Finishes (R a) (f a) F)
      → Finishes P (step m after f) F
  Finishes-contract R E {F} m after f t l k = record {
    at = λ s h. stepped R E F after f l k (m s) (t.at s h);
  }

  pub Finishes-step :
      {P : Run C → Type 0} (R : A → Run C → Type 0) (E : Run C → Type 0)
      {F : Outcome C → Run C → Type 0} (m : M C A) (after : ℕ) (f : A → Run C → Outcome C × Run C)
      → Triple P m R E
      → ((e : Failure C) (s : Run C) → E s → F (record { requeue_after = after; error = some e }) s)
      → ((a : A) → Finishes (R a) (f a) F)
      → Finishes P (step m after f) F
  Finishes-step R E m after f t l k = Finishes-contract R (λ _. E) m after f t l k
