-- ===== src/Tests/Start.antt =====
-- A start of the operator on a cluster that knows KEDA alone, where a health check cannot be added.
use llm_inference_platform.Prelude.{String, ◌≡◌, ◌↔◌, ◌==◌, refl, none, some, [], ◌∷◌}
use llm_inference_platform.Prelude.Maps.{Map}
use llm_inference_platform.Prelude.Result.{ok}
use llm_inference_platform.Operator.{Runtime, Exit, returned, Process, main}
use llm_inference_platform.Operator.Startup.{InOrder, RanToEnd, main-InOrder}

abbrev quiet : Runtime
quiet = record {
  World = Unit;
  Error = String;
  Config = Unit;
  Manager = Unit;
  get_config = λ w. (some tt, w);
  new_manager = λ config options w. (ok tt, w);
  mapped = λ mgr w gvk. gvk.kind == "ScaledObject";
  complete = λ mgr kinds address w. (none, w);
  add_healthz_check = λ mgr name w. (some "already started", w);
  add_readyz_check = λ mgr name w. (none, w);
  start = λ mgr w. (none, w);
}

abbrev given : Map String
given = ("metrics-bind-address", ":9090") ∷ []

abbrev start_run : Exit × Process quiet
start_run = main quiet given tt

start_run_result : start_run.0 ≡ returned
unfolding main
start_run_result = refl

main-InOrder_example :
    InOrder given start_run.1.calls × ((start_run.0 ≡ returned) ↔ RanToEnd given start_run.1.calls)
main-InOrder_example = main-InOrder quiet given tt
