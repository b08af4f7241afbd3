-- ===== src/Kube/Core.antt =====
-- What the operator reads of Deployments and Pods.
use llm_inference_platform.Prelude.{String, List, Option}
use llm_inference_platform.Prelude.Int.{ℤ}
use llm_inference_platform.Prelude.Maps.{Map}
use llm_inference_platform.Kube.Meta.{ObjectMeta, ConditionStatus}

-- `selector` is `Spec.Selector`, a pointer, with its `MatchLabels`.
pub record Deployment : Type 0 where
  pub metadata : ObjectMeta
  pub selector : Option (Map String)
  pub ready_replicas : ℤ

pub record PodCondition : Type 0 where
  pub kind : String
  pub status : ConditionStatus
  pub reason : String
  pub message : String

pub record ContainerStateWaiting : Type 0 where
  pub reason : String
  pub message : String

pub record ContainerStateTerminated : Type 0 where
  pub reason : String
  pub exit_code : ℤ

pub record ContainerStatus : Type 0 where
  pub name : String
  pub waiting : Option ContainerStateWaiting
  pub last_terminated : Option ContainerStateTerminated
  pub restart_count : ℤ

pub record Pod : Type 0 where
  pub conditions : List PodCondition
  pub container_statuses : List ContainerStatus

-- `corev1.PodScheduled` and `corev1.PodReasonUnschedulable`
abbrev pub pod_scheduled : String
pod_scheduled = "PodScheduled"

abbrev pub pod_reason_unschedulable : String
pod_reason_unschedulable = "Unschedulable"
