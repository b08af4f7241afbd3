-- ===== src/Kube/Meta.antt =====
-- Object metadata, status conditions and quantities.
use llm_inference_platform.Prelude.{String, Bool, List, Option, if◌then◌else◌, ◌==◌}
use llm_inference_platform.Prelude.Int.{ℤ}
use llm_inference_platform.Prelude.Maps.{Map}
use llm_inference_platform.Prelude.Lists.{first}
use mathlib.Core.Option.{none, some}

pub record OwnerReference : Type 0 where
  pub api_version : String
  pub kind : String
  pub name : String
  pub uid : String
  pub controller : Option Bool
  pub block_owner_deletion : Option Bool

-- `deleting` says whether `DeletionTimestamp` is set.
pub record ObjectMeta : Type 0 where
  pub name : String
  pub namespace : String
  pub uid : String
  pub generation : ℤ
  pub labels : Map String
  pub owner_references : List OwnerReference
  pub deleting : Bool

pub record NamespacedName : Type 0 where
  pub namespace : String
  pub name : String

-- `metav1.ConditionStatus`
pub data ConditionStatus : Type 0 where
  condition_true condition_false condition_unknown : ConditionStatus

-- `metav1.Condition`; the transition time is in seconds.
pub record Condition : Type 0 where
  pub kind : String
  pub status : ConditionStatus
  pub observed_generation : ℤ
  pub last_transition_time : ℤ
  pub reason : String
  pub message : String

-- The condition of a type, as a reader of the status finds it.
unfoldable pub find_condition : List Condition → String → Option Condition
unfolding first
find_condition conditions kind = first (λ c. if c.kind == kind then some c else none) conditions

-- A `resource.Quantity`, which the operator only prints: the text of its `String` method.
pub record Quantity : Type 0 where
  pub to_string : String
