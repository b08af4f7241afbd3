-- ===== src/Controller/Trouble.antt =====
-- `failingReasons` and the two loops of `podTrouble`, over the pods that the API server listed.
pub mod Priority
use llm_inference_platform.Prelude.{
  String, ◌<>◌, ◌==◌, Bool, true, false, ◌&&◌, ◌||◌, if◌then◌else◌, Option, none, some, List, [],
  ◌∷◌,
}
use llm_inference_platform.Prelude.Fmt.{sprint}
use llm_inference_platform.Prelude.Lists.{first, or_else}
use llm_inference_platform.Kube.Meta.{
  ConditionStatus, condition_true, condition_false, condition_unknown,
}
use llm_inference_platform.Kube.Core.{
  Pod, PodCondition, ContainerStatus, ContainerStateWaiting, ContainerStateTerminated,
  pod_scheduled, pod_reason_unschedulable,
}

abbrev pub failing_reasons : List String
failing_reasons =
    "CrashLoopBackOff" ∷ "ImagePullBackOff" ∷ "ErrImagePull" ∷ "InvalidImageName"
    ∷ "CreateContainerConfigError" ∷ "CreateContainerError" ∷ "RunContainerError" ∷ []

pub contains : List String → String → Bool
contains [] r = false
contains (x ∷ xs) r = x == r || contains xs r

-- `failingReasons[reason]`
unfoldable pub is_failing : String → Bool
unfolding contains
is_failing r = contains failing_reasons r

-- The phase, condition reason and message that `podTrouble` returns.
pub record Trouble : Type 0 where
  pub phase : String
  pub reason : String
  pub message : String

abbrev pub is_false : ConditionStatus → Bool
is_false condition_false = true
is_false condition_true = false
is_false condition_unknown = false

-- The body of the first loop, for one condition.
unfoldable pub unschedulable : PodCondition → Option Trouble
unschedulable c =
    if c.kind == pod_scheduled && is_false c.status && c.reason == pod_reason_unschedulable
    then some (record { phase = "Unschedulable"; reason = "Unschedulable"; message = c.message })
    else none

last_exit : ContainerStatus → Option ContainerStateTerminated → String
last_exit cs none = ""
last_exit cs (some t) =
    " (last exit: "
    <> t.reason
    <> ", code "
    <> sprint t.exit_code
    <> ", "
    <> sprint cs.restart_count
    <> " restarts)"

unfoldable pub failing_message : ContainerStatus → ContainerStateWaiting → String
unfolding last_exit sprint
failing_message cs w =
    "container "
    <> cs.name
    <> ": "
    <> w.reason
    <> (if w.message == "" then "" else ": " <> w.message)
    <> last_exit cs cs.last_terminated

-- The body of the second loop, for one container.
unfoldable pub failing : ContainerStatus → Option Trouble
unfolding failing_message is_failing
failing cs = elim cs.waiting [
  | none ↦ none
  | some w ↦
      if is_failing w.reason
      then some (record { phase = "Failing"; reason = w.reason; message = failing_message cs w })
      else none
]

-- Both loops; `none` stands for the three empty strings.
unfoldable pub pods_trouble : List Pod → Option Trouble
unfolding first or_else unschedulable failing
pods_trouble pods =
    or_else (first (λ (p : Pod). first unschedulable p.conditions) pods)
      (first (λ (p : Pod). first failing p.container_statuses) pods)
