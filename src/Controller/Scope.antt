-- ===== src/Controller/Scope.antt =====
-- pkg/scope/pruner.go: the scope of a reconciliation, which holds the cleaner and writes its changes
-- back at the end. The API server and the patch helper of cluster-api are parameters.
use k8s_cleaner.Common.{String, Option, none, some, errorf, wrapf, Outcome, ok, err, panic}
use k8s_cleaner.Common.Effects.{Effect}
use k8s_cleaner.Api.{Time, Cleaner}
use k8s_cleaner.Executor.Services.{Got}

-- What a reconciliation asks of the API server.
pub record Server (World : Type 0) : Type 1 where
  -- `client.Client`
  pub Client : Type 0
  pub client : Client
  pub get_cleaner : String → World → Got Cleaner
  -- `Update` of a cleaner: the object in memory afterwards, with the outcome
  pub update_cleaner : Cleaner → World → (Outcome (Unit {0}) × Cleaner) × World
  pub Report : Type 0
  pub get_report : String → World → Got Report
  pub delete_report : Report → Effect World (Unit {0})
  -- `patch.NewHelper`, and `Patch` with the difference to the object that the helper was made of
  pub Helper : Type 0
  pub new_helper : Cleaner → Client → Outcome Helper
  pub patch : Helper → Cleaner → Effect World (Unit {0})

module _ {World : Type 0} (s : Server World) where
  open s use {Client, Helper, new_helper, patch}

  -- `CleanerScopeParams`
  pub record CleanerScopeParams : Type 0 where
    pub client : Option Client
    pub cleaner : Option Cleaner
    pub controller_name : String

  pub record CleanerScope : Type 0 where
    pub patch_helper : Helper
    pub cleaner : Cleaner
    pub controller_name : String

  abbrev make_scope : Cleaner → String → Outcome Helper → Outcome CleanerScope
  make_scope cleaner name (ok helper) =
      ok (record { patch_helper = helper; cleaner = cleaner; controller_name = name })
  make_scope cleaner name (err e) = err (wrapf "failed to init patch helper" e)
  make_scope cleaner name panic = panic

  -- `NewCleanerScope`
  unfoldable pub new_cleaner_scope : CleanerScopeParams → Outcome CleanerScope
  new_cleaner_scope params = elim params.client [
    | none ↦ err (errorf "client is required when creating a CleanerScope")
    | some client ↦ elim params.cleaner [
      | none ↦ err (errorf "failed to generate new scope from nil Cleaner")
      | some cleaner ↦ make_scope cleaner params.controller_name (new_helper cleaner client)
    ]
  ]

  -- `PatchObject` and `Close`
  unfoldable pub close : CleanerScope → Effect World (Unit {0})
  close scope = patch scope.patch_helper scope.cleaner

-- The setters of the status.
abbrev pub set_last_run_time : Option Time → Cleaner → Cleaner
set_last_run_time t c = record c { status = record c.status { last_run_time = t } }

abbrev pub set_next_schedule_time : Option Time → Cleaner → Cleaner
set_next_schedule_time t c = record c { status = record c.status { next_schedule_time = t } }

unfoldable pub set_failure_message : Option String → Cleaner → Cleaner
set_failure_message message c = record c { status = record c.status { failure_message = message } }
