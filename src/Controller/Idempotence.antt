-- ===== src/Controller/Idempotence.antt =====
-- A second reconcile against the same answers leaves the status as the first did, and so writes
-- nothing: rules for handlers that settle.
pub mod Steps
pub mod Repeated
use mathlib.Core.Path.{subst}
use llm_inference_platform.Prelude.{
  ℕ, String, ◌≡◌, ◌∙◌, refl, sym, ap, Bool, true, false, ◌||◌, some, List, arith,
}
use llm_inference_platform.Prelude.Int.{ℤ}
use llm_inference_platform.Prelude.Result.{Result, ok, err}
use llm_inference_platform.Kube.Meta.{Condition}
use llm_inference_platform.Kube.Client.{Client}
use llm_inference_platform.Kube.Conditions.{view, timeless}
use llm_inference_platform.V1alpha1.{InferenceServiceStatus}
use llm_inference_platform.Controller.Run.{Run, Failure, M, ◌>>=◌}
use llm_inference_platform.Controller.Reconcile.{Outcome, step}
use llm_inference_platform.Controller.Stateless.{SameEnds, Oblivious}

-- `meta.SetStatusCondition` changes nothing where the condition is there already.
pub record KeepsConditions (C : Client) : Type 0 where
  pub set-same :
      (w : C.World) (conditions : List Condition) (c : Condition)
      → view conditions c.kind ≡ some (timeless c)
      → C.set_status_condition w conditions c ≡ conditions

-- Two statuses have the same conditions of some kinds.
abbrev pub Agrees : (String → Bool) → InferenceServiceStatus → InferenceServiceStatus → Type 0
Agrees kinds a b =
    (kind : String) → kinds kind ≡ true → view a.conditions kind ≡ view b.conditions kind

abbrev pub observed_at : ℤ → InferenceServiceStatus → InferenceServiceStatus
observed_at generation status = record status { observed_generation = generation }

module _ {C : Client} where
  abbrev pub with_status : Run C → InferenceServiceStatus → Run C
  with_status s status = record s { status = status }

  -- A handler writes conditions of these kinds alone, and nothing else into the status; from a status
  -- that has them as the handler leaves them, it changes nothing.
  pub record Settles {A : Type 0} (kinds : Result (Failure C) A → String → Bool) (m : M C A)
      : Type 0 where
    pub keeps :
        (s : Run C) (kind : String)
        → kinds (m s).0 kind ≡ false
        → view (m s).1.status.conditions kind ≡ view s.status.conditions kind
    pub settles :
        (s : Run C) (status : InferenceServiceStatus)
        → Agrees (kinds (m s).0) status (m s).1.status
        → (m (with_status s status)).1.status ≡ status

  -- The rest of `reconcile`: from the status that it leaves, with any generation observed, it changes
  -- nothing.
  pub record SettlesLast (kinds : String → Bool) (f : Run C → Outcome C × Run C) : Type 0 where
    pub keeps :
        (s : Run C) (kind : String)
        → kinds kind ≡ false
        → view (f s).1.status.conditions kind ≡ view s.status.conditions kind
    pub settles :
        (s : Run C) (generation : ℤ)
        → let status = observed_at generation (f s).1.status in
          (f (with_status s status)).1.status ≡ status

  resumed :
      {R : Type 0} (x y : R × Run C) (status : InferenceServiceStatus)
      → SameEnds x y
      → y.1.status ≡ status
      → (x.0, with_status x.1 status) ≡ y
  resumed (r, s) (q, t) status (e, w, v) h = ground arith

module _ {C : Client} {A B : Type 0} (first second : String → Bool) (m : M C A) (f : A → M C B)
    (apart : (kind : String) → first kind ≡ true → second kind ≡ false)
    (n : Settles {C = C} {A = A} (λ _. first) m)
    (k : (a : A) → Settles {C = C} {A = B} (λ _. second) (f a)) where
  continued_keeps :
      (x : Result (Failure C) A × Run C) (kind : String)
      → second kind ≡ false
      → view (((λ _. x) >>= f) x.1).1.status.conditions kind ≡ view x.1.status.conditions kind
  continued_keeps (ok a, s) kind h = (k a).keeps s kind h
  continued_keeps (err e, s) kind h = refl

  continued_settles :
      (x : Result (Failure C) A × Run C) (status : InferenceServiceStatus)
      → Agrees second status (((λ _. x) >>= f) x.1).1.status
      → (((λ _. (x.0, with_status x.1 status)) >>= f) x.1).1.status ≡ status
  continued_settles (ok a, s) status h = (k a).settles s status h
  continued_settles (err e, s) status h = refl

  pub Settles-bind : Oblivious m → Settles (λ _ kind. first kind || second kind) (m >>= f)
  Settles-bind o = record {
    keeps = λ s kind h. continued_keeps (m s) kind (ground arith) ∙ n.keeps s kind (ground arith);
    settles = λ s status h.
        let x = m s in
        let y = m (with_status s status) in
        let before : y.1.status ≡ status =
          n.settles s status
            (λ kind i. h kind (ground arith) ∙ continued_keeps x kind (apart kind i)) in
        subst (λ z. (((λ _. z) >>= f) z.1).1.status ≡ status)
          (resumed x y status (o.at s status) before)
          (continued_settles x status (λ kind i. h kind (ground arith)));
  }

module _ {C : Client} {A : Type 0} (first : Result (Failure C) A → String → Bool)
    (second : A → String → Bool) (all : String → Bool) (m : M C A) (after : ℕ)
    (f : A → Run C → Outcome C × Run C)
    (apart : (a : A) (kind : String) → first (ok a) kind ≡ true → second a kind ≡ false)
    (first_all : (r : Result (Failure C) A) (kind : String)
      → all kind ≡ false
      → first r kind ≡ false)
    (second_all : (a : A) (kind : String) → all kind ≡ false → second a kind ≡ false)
    (n : Settles {C = C} {A = A} first m) (k : (a : A) → SettlesLast {C = C} (second a) (f a)) where
  stepped_keeps :
      (x : Result (Failure C) A × Run C) (kind : String)
      → ((a : A) → x.0 ≡ ok a → second a kind ≡ false)
      → view (step (λ _. x) after f x.1).1.status.conditions kind ≡ view x.1.status.conditions kind
  stepped_keeps (ok a, s) kind h = (k a).keeps s kind (h a refl)
  stepped_keeps (err e, s) kind h = refl

  -- What the handler wrote is there at the end.
  stepped-Agrees :
      (x : Result (Failure C) A × Run C)
      → Agrees (first x.0) (step (λ _. x) after f x.1).1.status x.1.status
  stepped-Agrees (ok a, s) kind i = (k a).keeps s kind (apart a kind i)
  stepped-Agrees (err e, s) kind i = refl

  stepped_settles :
      (x : Result (Failure C) A × Run C) (generation : ℤ)
      → let status = observed_at generation (step (λ _. x) after f x.1).1.status in
        (step (λ _. (x.0, with_status x.1 status)) after f x.1).1.status ≡ status
  stepped_settles (ok a, s) generation = (k a).settles s generation
  stepped_settles (err e, s) generation = refl

  pub SettlesLast-step : Oblivious m → SettlesLast all (step m after f)
  SettlesLast-step o = record {
    keeps = λ s kind h.
        stepped_keeps (m s) kind (λ a e. second_all a kind h)
        ∙ n.keeps s kind (first_all (m s).0 kind h);
    settles = λ s generation.
        let x = m s in
        let status = observed_at generation (step m after f s).1.status in
        let y = m (with_status s status) in
        let before : y.1.status ≡ status = n.settles s status (stepped-Agrees x) in
        subst (λ z. (step (λ _. z) after f z.1).1.status ≡ status)
          (resumed x y status (o.at s status) before) (stepped_settles x generation);
  }
