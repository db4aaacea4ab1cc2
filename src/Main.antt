-- ===== src/Main.antt =====
-- cmd/main.go: the flags, the options of the diagnostics endpoint, and `main` itself. The libraries
-- that it sets up are parameters; what is printed to the log is left out.
pub mod Exits
use k8s_cleaner.Common.{
  ℕ, ◌*◌, String, Bool, true, false, none, List, [], ◌∷◌, Outcome, ok, err, panic, ◌>>=◌,
  if◌then◌else◌,
}
use k8s_cleaner.Common.Int.{ℤ, pos, negsuc}
use k8s_cleaner.Controller.Schedule.{second}
use k8s_cleaner.Controller.Setup.{Instance, CleanerReconciler, setup_with_manager}

-- The variables that `initFlags` binds; the queries per second are a float32.
pub record Flags (Float : Type 0) : Type 0 where
  pub diagnostics_address : String
  pub insecure_diagnostics : Bool
  pub workers : ℤ
  pub jitter_window_in_seconds : ℤ
  pub concurrent_reconciles : ℤ
  pub rest_config_qps : Float
  pub rest_config_burst : ℤ
  pub webhook_port : ℤ
  pub sync_period : ℤ
  pub health_addr : String

-- `initFlags`: the values of the flags that are not given, with the float32 of a whole number.
abbrev pub init_flags : {Float : Type 0} → (ℕ → Float) → Flags Float
init_flags of_nat = record {
  diagnostics_address = ":8443";
  insecure_diagnostics = false;
  workers = pos 5;
  jitter_window_in_seconds = pos 15;
  concurrent_reconciles = pos 10;
  rest_config_qps = of_nat 40;
  rest_config_burst = pos 60;
  webhook_port = pos 9443;
  sync_period = pos (10 * (60 * second));
  health_addr = ":9440";
}

-- The names that `initFlags` gives them, in the order of the fields.
abbrev pub flag_names : List String
flag_names =
    "diagnostics-address" ∷ "insecure-diagnostics" ∷ "worker-number" ∷ "jitter-window"
    ∷ "concurrent-reconciles" ∷ "kube-api-qps" ∷ "kube-api-burst" ∷ "webhook-port" ∷ "sync-period"
    ∷ "health-addr" ∷ []

-- `metricsserver.Options`, the fields that are set; the provider of filters is set or nil.
pub record DiagnosticsOptions : Type 0 where
  pub bind_address : String
  pub secure_serving : Bool
  pub filter_provider : Bool

-- `getDiagnosticsOptions`
unfoldable pub get_diagnostics_options : {Float : Type 0} → Flags Float → DiagnosticsOptions
get_diagnostics_options f =
    if f.insecure_diagnostics
    then record {
      bind_address = f.diagnostics_address;
      secure_serving = false;
      filter_provider = false;
    }
    else record {
      bind_address = f.diagnostics_address;
      secure_serving = true;
      filter_provider = true;
    }

-- `zap.Config`, the fields that `createLogger` sets beside those of `NewProductionConfig`.
pub record LoggerConfig : Type 0 where
  pub level : ℤ
  pub message_key : String
  pub level_key : String
  pub time_key : String
  pub caller_key : String

-- `createLogger`
abbrev pub create_logger : LoggerConfig
create_logger = record {
  level = negsuc 1;
  message_key = "message";
  level_key = "level";
  time_key = "time";
  caller_key = "caller";
}

-- `ctrl.Options` and the limits of the REST configuration.
pub record ManagerOptions (Float : Type 0) : Type 0 where
  pub metrics : DiagnosticsOptions
  pub health_probe_bind_address : String
  pub port : ℤ
  pub sync_period : ℤ
  pub qps : Float
  pub burst : ℤ

unfoldable pub manager_options : {Float : Type 0} → Flags Float → ManagerOptions Float
unfolding get_diagnostics_options
manager_options f = record {
  metrics = get_diagnostics_options f;
  health_probe_bind_address = f.health_addr;
  port = f.webhook_port;
  sync_period = f.sync_period;
  qps = f.rest_config_qps;
  burst = f.rest_config_burst;
}

-- The reconciler that `main` makes.
unfoldable pub reconciler_of : {Float : Type 0} → Flags Float → CleanerReconciler
reconciler_of f = record {
  concurrent_reconciles = f.concurrent_reconciles;
  jitter_window_in_seconds = f.jitter_window_in_seconds;
}

-- `pflag.Parse` gives the flags, or ends the program with a status of its own.
pub data Parsed (Float : Type 0) : Type 0 where
  parsed : Flags Float → Parsed Float
  usage : ℕ → Parsed Float

-- The libraries that `main` calls, with their outcomes.
pub record Libraries : Type 1 where
  -- float32, and its constants
  pub Float32 : Type 0
  pub of_nat : ℕ → Float32
  pub Scheme : Type 0
  pub new_scheme : Scheme
  pub add_client_go : Scheme → Outcome Scheme
  pub add_api : Scheme → Outcome Scheme
  -- `pflag.Parse`: the names of the flags, their defaults, and the arguments
  pub parse_flags : List String → Flags Float32 → List String → Parsed Float32
  pub build_logger : LoggerConfig → Outcome (Unit {0})
  -- `zap.NewDevelopment`
  pub new_development : Outcome (Unit {0})
  -- `GetConfigOrDie`
  pub get_config : Outcome (Unit {0})
  pub Mgr : Type 0
  pub new_manager : Scheme → ManagerOptions Float32 → Outcome Mgr
  -- `Complete` of a builder for cleaners, with the reconciler and its `MaxConcurrentReconciles`
  pub complete : Mgr → CleanerReconciler → Outcome (Unit {0})
  pub add_healthz_check : Mgr → String → Outcome Mgr
  pub add_readyz_check : Mgr → String → Outcome Mgr
  -- `mgr.Start`, until it is told to stop
  pub start_manager : Mgr → Outcome (Unit {0})

-- How the process ends: `main` returns, `os.Exit` is called, or it panics.
pub data Exit : Type 0 where
  returned : Exit
  exit : ℕ → Exit
  panicked : Exit

-- `os.Exit(1)` for an error.
unfoldable pub exit_on_error : Outcome (Unit {0}) → Exit
exit_on_error (ok u) = returned
exit_on_error (err e) = exit 1
exit_on_error panic = panicked

module _ (l : Libraries) where
  open l use {
    Float32, of_nat, Scheme, new_scheme, add_client_go, add_api, parse_flags, build_logger,
    new_development, get_config, Mgr, new_manager, complete, add_healthz_check, add_readyz_check,
    start_manager,
  }

  -- `initScheme`
  unfoldable pub init_scheme : Outcome Scheme
  init_scheme = do s ← add_client_go new_scheme; add_api s

  -- From `AddHealthzCheck` to the end.
  unfoldable pub serve : Mgr → Exit
  unfolding exit_on_error
  serve mgr = exit_on_error (do
    healthy ← add_healthz_check mgr "healthz"
    ready ← add_readyz_check healthy "readyz"
    start_manager ready)

  abbrev after_setup : Mgr → Outcome (Unit {0}) × Instance → Exit × Instance
  unfolding serve
  after_setup mgr (ok u, i) = (serve mgr, i)
  after_setup mgr (err e, i) = (exit 1, i)
  after_setup mgr (panic, i) = (panicked, i)

  -- From `NewManager` to the set-up of the controller.
  unfoldable pub run_manager : Flags Float32 → Outcome Mgr → Instance → Exit × Instance
  unfolding after_setup setup_with_manager reconciler_of
  run_manager f (ok mgr) i =
      after_setup mgr
        (setup_with_manager new_development (complete mgr (reconciler_of f)) f.workers i)
  run_manager f (err e) i = (exit 1, i)
  run_manager f panic i = (panicked, i)

  abbrev quit : Outcome (Unit {0}) → Instance → (Instance → Exit × Instance) → Exit × Instance
  quit (ok u) i rest = rest i
  quit (err e) i rest = (exit 1, i)
  quit panic i rest = (panicked, i)

  -- `panic(1)` when the logger cannot be built.
  abbrev or_panic : Outcome (Unit {0}) → Outcome (Unit {0})
  or_panic (ok u) = ok u
  or_panic (err e) = panic
  or_panic panic = panic

  -- `main` with the flags and the scheme.
  unfoldable pub run_with : Flags Float32 → Scheme → Instance → Exit × Instance
  unfolding run_manager manager_options
  run_with f scheme i =
      quit (or_panic (build_logger create_logger)) i
        λ i'. quit get_config i' λ i''. run_manager f (new_manager scheme (manager_options f)) i''

  -- `main` after `initScheme`
  unfoldable pub run_parsed : Scheme → Parsed Float32 → Exit × Instance
  unfolding run_with
  run_parsed scheme (parsed f) = run_with f scheme none
  run_parsed scheme (usage status) = (exit status, none)

  -- `main`; `managerInstance` is nil when it starts.
  unfoldable pub main : List String → Exit × Instance
  unfolding init_scheme run_parsed
  main arguments = elim init_scheme [
    | ok scheme ↦ run_parsed scheme (parse_flags flag_names (init_flags of_nat) arguments)
    | err e ↦ (exit 1, none)
    | panic ↦ (panicked, none)
  ]
