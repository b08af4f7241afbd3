-- ===== src/Controller/Trouble/Priority.antt =====
-- `podTrouble` against a description of what keeps pods from being ready.
use llm_inference_platform.Prelude.{
  String, ◌≡◌, ◌⊎◌, ◌↔◌, inl, inr, sym, arith, refl, true, eq_iff, Option, Option-cases, Bool-cases,
  none, some, List, [], ◌∷◌, ◌++◌,
}
use mathlib.Core.Option.{some-injective}
use llm_inference_platform.Prelude.Lists.{All, Any, first, first-append, or_else}
use llm_inference_platform.Kube.Meta.{condition_false}
use llm_inference_platform.Kube.Core.{Pod, PodCondition, ContainerStatus, ContainerStateWaiting}
use llm_inference_platform.Controller.Trouble.{
  Trouble, failing_reasons, contains, is_failing, failing_message, unschedulable, failing,
  pods_trouble,
}

abbrev all_conditions : List Pod → List PodCondition
all_conditions [] = []
all_conditions (p ∷ pods) = p.conditions ++ all_conditions pods

abbrev all_containers : List Pod → List ContainerStatus
all_containers [] = []
all_containers (p ∷ pods) = p.container_statuses ++ all_containers pods

first-all_conditions :
    (pods : List Pod)
    → first (λ (p : Pod). first unschedulable p.conditions) pods
      ≡ first unschedulable (all_conditions pods)
unfolding first or_else
first-all_conditions [] = refl
first-all_conditions (p ∷ pods) = ground (
  arith,
  first-append unschedulable p.conditions (all_conditions pods),
  first-all_conditions pods,
)

first-all_containers :
    (pods : List Pod)
    → first (λ (p : Pod). first failing p.container_statuses) pods
      ≡ first failing (all_containers pods)
unfolding first or_else
first-all_containers [] = refl
first-all_containers (p ∷ pods) = ground (
  arith,
  first-append failing p.container_statuses (all_containers pods),
  first-all_containers pods,
)

pods_trouble-flat :
    (pods : List Pod)
    → pods_trouble pods
      ≡ or_else (first unschedulable (all_conditions pods)) (first failing (all_containers pods))
unfolding pods_trouble or_else
pods_trouble-flat pods = ground (arith, first-all_conditions pods, first-all_containers pods)

-- The scheduler found no node for the pod.
abbrev pub IsUnschedulable : PodCondition → Type 0
IsUnschedulable c =
    (c.kind ≡ "PodScheduled") × (c.status ≡ condition_false) × (c.reason ≡ "Unschedulable")

-- A reason to wait that no time mends.
abbrev pub IsFinal : String → Type 0
IsFinal r =
    Any (λ (x : String). x ≡ r)
      ("CrashLoopBackOff" ∷ "ImagePullBackOff" ∷ "ErrImagePull" ∷ "InvalidImageName"
        ∷ "CreateContainerConfigError" ∷ "CreateContainerError" ∷ "RunContainerError" ∷ [])

abbrev pub NeverStarts : Option ContainerStateWaiting → Type 0
NeverStarts none = ⊥
NeverStarts (some w) = IsFinal w.reason

abbrev pub UnschedulableAs : PodCondition → Trouble → Type 0
UnschedulableAs c t =
    IsUnschedulable c
    × (t.phase ≡ "Unschedulable")
    × (t.reason ≡ "Unschedulable")
    × (t.message ≡ c.message)

abbrev pub FailingAs : ContainerStatus → Trouble → Type 0
FailingAs cs t =
    (w : ContainerStateWaiting) × (cs.waiting ≡ some w)
    × IsFinal w.reason
    × (t.phase ≡ "Failing")
    × (t.reason ≡ w.reason)
    × (t.message ≡ failing_message cs w)

-- The first of which `Has` holds gives the trouble; of those before it `Lacks` holds.
abbrev pub FirstGives :
    {A : Type 0} → (A → Trouble → Type 0) → (A → Type 0) → List A → Trouble → Type 0
FirstGives Has Lacks [] t = ⊥
FirstGives Has Lacks (x ∷ xs) t = Has x t ⊎ (Lacks x × FirstGives Has Lacks xs t)

abbrev pub AllSchedulable : List Pod → Type 0
AllSchedulable pods = All (λ (c : PodCondition). ¬ (IsUnschedulable c)) (all_conditions pods)

abbrev pub IsTrouble : List Pod → Option Trouble → Type 0
IsTrouble pods none =
    AllSchedulable pods
    × All (λ (cs : ContainerStatus). ¬ (NeverStarts cs.waiting)) (all_containers pods)
IsTrouble pods (some t) =
    FirstGives UnschedulableAs (λ c. ¬ (IsUnschedulable c)) (all_conditions pods) t
    ⊎ (AllSchedulable pods
        × FirstGives FailingAs (λ cs. ¬ (NeverStarts cs.waiting)) (all_containers pods) t)

module _ {A : Type 0} (Has : A → Trouble → Type 0) (Lacks : A → Type 0) (f : A → Option Trouble)
    (has : (x : A) (t : Trouble) → f x ≡ some t → Has x t)
    (lacks : (x : A) → f x ≡ none → Lacks x) where
  first-FirstGives : (xs : List A) (t : Trouble) → first f xs ≡ some t → FirstGives Has Lacks xs t
  unfolding first
  first-FirstGives [] t h = ground arith
  first-FirstGives (x ∷ xs) t h = elim (Option-cases (f x)) [
    | inl e ↦ inr (lacks x e, first-FirstGives xs t (ground arith))
    | inr (u, e) ↦ inl (has x t (ground arith))
  ]

  first-All : (xs : List A) → first f xs ≡ none → All Lacks xs
  unfolding first
  first-All [] h = tt
  first-All (x ∷ xs) h = elim (Option-cases (f x)) [
    | inl e ↦ (lacks x e, first-All xs (ground arith))
    | inr (u, e) ↦ ground arith
  ]

unschedulable-some :
    (c : PodCondition) (t : Trouble) → unschedulable c ≡ some t → UnschedulableAs c t
unfolding unschedulable
unschedulable-some c t h =
    ground (arith, eq_iff c.kind "PodScheduled", eq_iff c.reason "Unschedulable")

unschedulable-none : (c : PodCondition) → unschedulable c ≡ none → ¬ (IsUnschedulable c)
unfolding unschedulable
unschedulable-none c h u =
    ground (arith, eq_iff c.kind "PodScheduled", eq_iff c.reason "Unschedulable")

contains-Any :
    (xs : List String) (r : String) → (contains xs r ≡ true) ↔ Any (λ (x : String). x ≡ r) xs
unfolding contains
contains-Any [] r = ground arith
contains-Any (x ∷ xs) r = ground (arith, contains-Any xs r, eq_iff x r)

is_failing-IsFinal : (r : String) → (is_failing r ≡ true) ↔ IsFinal r
unfolding is_failing
is_failing-IsFinal r = contains-Any failing_reasons r

failing-some : (cs : ContainerStatus) (t : Trouble) → failing cs ≡ some t → FailingAs cs t
unfolding failing
failing-some cs t h = elim (Option-cases cs.waiting) [
  | inl e ↦ ground arith
  | inr (w, e) ↦ elim (Bool-cases (is_failing w.reason)) [
    | inl b ↦ (w, e, (is_failing-IsFinal w.reason).0 b, ground arith, ground arith, ground arith)
    | inr b ↦ ground arith
  ]
]

NeverStarts-some :
    (o : Option ContainerStateWaiting) (w : ContainerStateWaiting)
    → o ≡ some w
    → NeverStarts o
    → IsFinal w.reason
NeverStarts-some none w e h = absurd h
NeverStarts-some (some v) w e h = rw (sym (some-injective v w e)) h

failing-none : (cs : ContainerStatus) → failing cs ≡ none → ¬ (NeverStarts cs.waiting)
unfolding failing
failing-none cs h final = elim (Option-cases cs.waiting) [
  | inl e ↦ ground arith
  | inr (w, e) ↦
      let b = (is_failing-IsFinal w.reason).1 (NeverStarts-some cs.waiting w e final) in
      ground arith
]

-- `podTrouble` reports the first condition, over all pods in their order, by which the scheduler found
-- no node, with its message; only where there is none, the first container, over all pods, that waits
-- for a reason that no time mends, with this reason; and no trouble where there is neither.
pub pods_trouble-IsTrouble : (pods : List Pod) → IsTrouble pods (pods_trouble pods)
unfolding or_else
pods_trouble-IsTrouble pods =
    rw (pods_trouble-flat pods) (elim (Option-cases (first unschedulable (all_conditions pods))) [
      | inl e ↦ elim (Option-cases (first failing (all_containers pods))) [
        | inl e' ↦
            rw (e, e', or_else)
              (
                first-All UnschedulableAs _ unschedulable unschedulable-some unschedulable-none _ e,
                first-All FailingAs _ failing failing-some failing-none _ e',
              )
        | inr (t, e') ↦
            rw (e, e', or_else)
              (inr (
                first-All UnschedulableAs _ unschedulable unschedulable-some unschedulable-none _ e,
                first-FirstGives FailingAs _ failing failing-some failing-none _ t e',
              ))
      ]
      | inr (t, e) ↦
          rw (e, or_else)
            (inl (
              first-FirstGives UnschedulableAs _ unschedulable unschedulable-some unschedulable-none
                _ t e))
    ])
