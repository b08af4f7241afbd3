-- ===== src/Tests/Permissions.antt =====
-- The permissions of a reconcile and of the watches.
use llm_inference_platform.Prelude.{String, refl, ◌==◌, Bool, true, if◌then◌else◌}
use llm_inference_platform.Prelude.Lists.{All}
use llm_inference_platform.Kube.Dynamic.{GroupVersionKind}
use llm_inference_platform.Controller.Trace.{Chain}
use llm_inference_platform.Controller.Reconcile.{reconcile_key}
use llm_inference_platform.Controller.Writes.{events_of}
use llm_inference_platform.Controller.Setup.{owned_kinds}
use llm_inference_platform.Controller.Permissions.{markers, MayUse, Granted, reading}
use llm_inference_platform.Controller.Permissions.Granted.{reconcile_key-Granted}
use llm_inference_platform.Controller.Permissions.Watched.{MayWatch, owned_kinds-MayWatch}
use llm_inference_platform.Tests.Cluster.{cluster}
use llm_inference_platform.Tests.Data.{address, key, scaled}

abbrev served_as : GroupVersionKind → String
served_as gvk = if gvk.kind == "ScaledObject" then "scaledobjects" else "inferencepools"

reconcile_key-Granted_example :
    MayUse markers served_as "serving.platform.io" "inferenceservices" reading
    × Chain
        (λ e past. Granted markers served_as e)
        (events_of (reconcile_key cluster address key scaled).1)
reconcile_key-Granted_example = reconcile_key-Granted served_as refl refl cluster address key scaled

abbrev all_mapped : GroupVersionKind → Bool
all_mapped gvk = true

owned_kinds-MayWatch_example : All (MayWatch served_as) (owned_kinds all_mapped)
owned_kinds-MayWatch_example = owned_kinds-MayWatch served_as refl refl all_mapped
