-- ===== src/Operator.antt =====
-- cmd/operator/main.go: the flags, the manager and its start. The controller library is the parameter
-- Runtime; `flag.Parse` is the values that the command line gives. The log lines are left out.
pub mod Startup
use llm_inference_platform.Prelude.{ℕ, String, Bool, true, Option, none, some, List, [], ◌∷◌}
use llm_inference_platform.Prelude.Maps.{Map, lookup}
use llm_inference_platform.Prelude.Result.{Result, ok, err}
use llm_inference_platform.Kube.Dynamic.{GroupVersionKind}
use llm_inference_platform.Controller.Setup.{Owned, owned_kinds}

-- `ctrl.Options`, as far as they are set.
pub record ManagerOptions : Type 0 where
  pub metrics_bind_address : String
  pub health_probe_bind_address : String
  pub leader_election : Bool
  pub leader_election_id : String

pub record Runtime : Type 1 where
  pub World : Type 0
  pub Error : Type 0
  pub Config : Type 0
  pub Manager : Type 0
  -- `ctrl.GetConfigOrDie`; at `none` it ends the process.
  pub get_config : World → Option Config × World
  pub new_manager : Config → ManagerOptions → World → Result Error Manager × World
  -- Whether the manager's REST mapper knows a kind.
  pub mapped : Manager → World → GroupVersionKind → Bool
  -- `Complete` of a controller for InferenceService that owns the kinds, with the address that its
  -- reconciler has for Prometheus.
  pub complete : Manager → List Owned → String → World → Option Error × World
  pub add_healthz_check : Manager → String → World → Option Error × World
  pub add_readyz_check : Manager → String → World → Option Error × World
  -- `Start` runs until it fails or the process is told to stop.
  pub start : Manager → World → Option Error × World

-- How the process ends: by the return of `main`, or by `os.Exit`.
pub data Exit : Type 0 where
  returned : Exit
  exited : ℕ → Exit

-- The calls of `main`, with their errors.
pub data Call (R : Runtime) : Type 0 where
  created : ManagerOptions → Option R.Error → Call R
  completed : R.Manager → List Owned → String → Option R.Error → Call R
  added_healthz : R.Manager → String → Option R.Error → Call R
  added_readyz : R.Manager → String → Option R.Error → Call R
  started : R.Manager → Option R.Error → Call R

pub record Process (R : Runtime) : Type 0 where
  pub world : R.World
  pub calls : List (Call R)

-- `flag.StringVar`: the value that is given, or the default.
unfoldable pub string_flag : Map String → String → String → String
unfolding lookup
string_flag given name default = elim (lookup name given) [ none ↦ default | some value ↦ value ]

unfoldable pub manager_options : Map String → ManagerOptions
unfolding string_flag
manager_options given = record {
  metrics_bind_address = string_flag given "metrics-bind-address" ":8080";
  health_probe_bind_address = string_flag given "health-probe-bind-address" ":8081";
  leader_election = true;
  leader_election_id = "inference-platform.serving.platform.io";
}

unfoldable pub prometheus_address : Map String → String
unfolding string_flag
prometheus_address given =
    string_flag given "prometheus-address" "http://prometheus.monitoring.svc.cluster.local:9090"

module _ (R : Runtime) where
  abbrev did : Process R → R.World → Call R → Process R
  did p w c = record { world = w; calls = c ∷ p.calls }

  -- `SetupWithManager`, up to what `Complete` returns.
  unfoldable pub setup_with_manager : R.Manager → String → Process R → Option R.Error × Process R
  unfolding owned_kinds
  setup_with_manager mgr address p =
      let kinds = owned_kinds (R.mapped mgr p.world) in
      let (e, w) = R.complete mgr kinds address p.world in
      (e, did p w (completed mgr kinds address e))

  -- `if err := mgr.Start(…); err != nil { os.Exit(1) }`
  ended : Option R.Error → Exit
  ended none = returned
  ended (some e) = exited 1

  -- From the health check on; the errors of the two checks are dropped.
  serve : R.Manager → Process R → Exit × Process R
  unfolding ended
  serve mgr p =
      let (h, w) = R.add_healthz_check mgr "healthz" p.world in
      let p' = did p w (added_healthz mgr "healthz" h) in
      let (r, w') = R.add_readyz_check mgr "readyz" p'.world in
      let p'' = did p' w' (added_readyz mgr "readyz" r) in
      let (e, w'') = R.start mgr p''.world in (ended e, did p'' w'' (started mgr e))

  -- What follows `SetupWithManager`.
  set_up : R.Manager → Option R.Error × Process R → Exit × Process R
  unfolding serve
  set_up mgr (some e, p) = (exited 1, p)
  set_up mgr (none, p) = serve mgr p

  error_of : Result R.Error R.Manager → Option R.Error
  error_of (ok mgr) = none
  error_of (err e) = some e

  -- What follows `ctrl.NewManager`.
  managed : String → Result R.Error R.Manager → Process R → Exit × Process R
  unfolding set_up setup_with_manager
  managed address (err e) p = (exited 1, p)
  managed address (ok mgr) p = set_up mgr (setup_with_manager mgr address p)

  configured : Map String → Option R.Config → Process R → Exit × Process R
  unfolding managed error_of manager_options prometheus_address
  configured given none p = (exited 1, p)
  configured given (some config) p =
      let (r, w) = R.new_manager config (manager_options given) p.world in
      managed (prometheus_address given) r (did p w (created (manager_options given) (error_of r)))

  unfoldable pub main : Map String → R.World → Exit × Process R
  unfolding configured
  main given w =
      let (c, w') = R.get_config w in configured given c (record { world = w'; calls = [] })
