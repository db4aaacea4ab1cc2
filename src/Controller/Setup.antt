-- ===== src/Controller/Setup.antt =====
-- The set-up of the controller: `InitializeClient` and `GetClient` of
-- internal/controller/executor/client.go, and `SetupWithManager` of cleaner_controller.go.
use k8s_cleaner.Common.{Option, none, some, Outcome, ok, err, panic}
use k8s_cleaner.Common.Int.{ℤ, pos, negsuc}
use k8s_cleaner.Executor.Workers.{System, start}

-- `managerInstance`: nil, or the manager with its pool of workers.
abbrev pub Instance : Type 0
Instance = Option System

-- The loop over `numOfWorker` starts none for a negative number.
unfoldable pub start_pool : ℤ → System
unfolding start
start_pool (pos n) = start n
start_pool (negsuc n) = start 0

-- `InitializeClient`: `logger` is the outcome of `zap.NewDevelopment`, which is called only if there
-- is no instance.
unfoldable pub initialize_client : Outcome (Unit {0}) → ℤ → Instance → Outcome Instance
unfolding start_pool
initialize_client logger workers (some s) = ok (some s)
initialize_client (ok u) workers none = ok (some (start_pool workers))
initialize_client (err e) workers none = panic
initialize_client panic workers none = panic

-- `GetClient`
unfoldable pub get_client : Instance → Instance
get_client instance_ = instance_

-- `CleanerReconciler`; its client and scheme are those of the manager.
pub record CleanerReconciler : Type 0 where
  pub concurrent_reconciles : ℤ
  pub jitter_window_in_seconds : ℤ

-- `SetupWithManager`: `complete` is the outcome of the builder of controller-runtime.
unfoldable pub setup_with_manager :
    Outcome (Unit {0}) → Outcome (Unit {0}) → ℤ → Instance → Outcome (Unit {0}) × Instance
unfolding initialize_client
setup_with_manager logger complete workers before = elim (initialize_client logger workers before) [
  | ok after ↦ (complete, after)
  | err e ↦ (err e, before)
  | panic ↦ (panic, before)
]
