-- ===== src/Kube/Conditions.antt =====
-- What is assumed of `meta.SetStatusCondition`: it writes the condition of its type, with a
-- transition time of its own, and no other.
use llm_inference_platform.Prelude.{String, ◌==◌, if◌then◌else◌, ◌≡◌, Option, none, some, List}
use llm_inference_platform.Prelude.Int.{pos}
use llm_inference_platform.Kube.Meta.{Condition, find_condition}
use llm_inference_platform.Kube.Client.{Client}

-- A condition without its transition time.
abbrev pub timeless : Condition → Condition
timeless c = record c { last_transition_time = pos 0 }

timeless_option : Option Condition → Option Condition
timeless_option none = none
timeless_option (some c) = some (timeless c)

-- The condition of a type as readers use it.
unfoldable pub view : List Condition → String → Option Condition
unfolding timeless_option find_condition
view conditions kind = timeless_option (find_condition conditions kind)

pub record SetsConditions (C : Client) : Type 0 where
  pub view-set :
      (w : C.World) (conditions : List Condition) (c : Condition) (kind : String)
      → view (C.set_status_condition w conditions c) kind
        ≡ (if c.kind == kind then some (timeless c) else view conditions kind)
