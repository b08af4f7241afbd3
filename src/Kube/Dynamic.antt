-- ===== src/Kube/Dynamic.antt =====
-- Unstructured objects: the values of `map[string]any`, and a kind with such a map.
use llm_inference_platform.Prelude.{String, ◌==◌, if◌then◌else◌, Bool, Option, none, some}
use llm_inference_platform.Prelude.Int.{ℤ}

pub record GroupVersionKind : Type 0 where
  pub group : String
  pub version : String
  pub kind : String

mutual
  pub data Value : Type 0 where
    text : String → Value
    number : ℤ → Value
    truth : Bool → Value
    array : Items → Value
    object : Fields → Value

  pub data Items : Type 0 where
    nil : Items
    item : Value → Items → Items

  pub data Fields : Type 0 where
    end : Fields
    field : String → Value → Fields → Fields

-- `m[k]` on a `map[string]any`; a missing key is the nil interface, which equals no string.
unfoldable pub get : String → Fields → Option Value
get k end = none
get k (field j v m) = if j == k then some v else get k m

-- `v.(string)`
abbrev pub as_text : Option Value → Option String
as_text (some (text s)) = some s
as_text _ = none

-- `v.(map[string]any)`
abbrev pub as_object : Value → Option Fields
as_object (object m) = some m
as_object _ = none

-- `unstructured.Unstructured`, its kind apart from its `Object`.
pub record Unstructured : Type 0 where
  pub kind : GroupVersionKind
  pub content : Fields
