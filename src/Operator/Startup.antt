-- ===== src/Operator/Startup.antt =====
-- How the operator starts.
use llm_inference_platform.Prelude.{String, ◌≡◌, ◌⊎◌, ◌↔◌, true, none, some, List, [], ◌∷◌, arith}
use llm_inference_platform.Prelude.Maps.{Map, lookup}
use llm_inference_platform.Prelude.Lists.{Any}
use llm_inference_platform.Operator.{
  Runtime, ManagerOptions, returned, Call, created, completed, added_healthz, added_readyz, started,
  main, prometheus_address, manager_options,
}

module _ (given : Map String) where
  -- What the command line gives for a flag, or else its default.
  abbrev FlagIs : String → String → String → Type 0
  FlagIs name default value =
      (lookup name given ≡ some value) ⊎ ((lookup name given ≡ none) × (value ≡ default))

  abbrev FromFlags : ManagerOptions → Type 0
  FromFlags options =
      FlagIs "metrics-bind-address" ":8080" options.metrics_bind_address
      × FlagIs "health-probe-bind-address" ":8081" options.health_probe_bind_address
      × (options.leader_election ≡ true)

  abbrev ForPrometheus : String → Type 0
  ForPrometheus address =
      FlagIs "prometheus-address" "http://prometheus.monitoring.svc.cluster.local:9090" address

module _ {R : Runtime} (given : Map String) where
  -- The manager was made before, with the options of the flags.
  abbrev pub Created : Call R → Type 0
  Created (created options none) = FromFlags given options
  Created _ = ⊥

  -- The controller of this manager was set up, with the address of the flags.
  abbrev pub Completed : R.Manager → Call R → Type 0
  Completed mgr (completed mgr' kinds address none) = (mgr' ≡ mgr) × ForPrometheus given address
  Completed mgr _ = ⊥

  -- Each call is made after what it needs, and nothing is called after the start.
  abbrev pub InOrder : List (Call R) → Type 0
  InOrder [] = Unit
  InOrder (created options e ∷ past) = past ≡ []
  InOrder (completed mgr kinds address e ∷ past) = Any Created past × InOrder past
  InOrder (added_healthz mgr name e ∷ past) = Any (Completed mgr) past × InOrder past
  InOrder (added_readyz mgr name e ∷ past) = Any (Completed mgr) past × InOrder past
  InOrder (started mgr e ∷ past) = Any (Completed mgr) past × Any Created past × InOrder past

  -- The manager ran, and ended without an error.
  abbrev pub RanToEnd : List (Call R) → Type 0
  RanToEnd (started mgr none ∷ past) = Unit
  RanToEnd _ = ⊥

-- The manager is started only after it was made, with the bind addresses that the flags give (or their
-- defaults) and with leader election, and its controller was set up, with the Prometheus address that
-- its flag gives (or the default), in this order, whether or not the health checks
-- could be added. `main` returns exactly if the start is its last call and did not fail; otherwise the
-- process ends by `os.Exit`.
pub main-InOrder :
    (R : Runtime) (given : Map String) (w : R.World)
    → let (exit, p) = main R given w in
      InOrder given p.calls × ((exit ≡ returned) ↔ RanToEnd given p.calls)
unfolding main manager_options prometheus_address lookup
main-InOrder R given w = ground arith
