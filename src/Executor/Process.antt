-- ===== src/Executor/Process.antt =====
-- internal/controller/executor/worker.go: `processCleanerInstance` and `getCleanerInstance`, what a
-- worker does for one request.
pub mod Selection
pub mod Stages
use k8s_cleaner.Common.{
  String, Bool, true, false, Option, none, some, List, [], ◌∷◌, ◌++◌, GoError, Outcome, ok, err,
  panic, ◌>>=◌,
}
use k8s_cleaner.Common.Int.{pos}
use k8s_cleaner.Common.Effects.{Effect, continue}
use k8s_cleaner.Api.{Cleaner, ResourceSelector, Action, delete, transform, scan, other}
use k8s_cleaner.Executor.Cluster.{Objects, Cluster}
use k8s_cleaner.Executor.Lua.{Tables}
use k8s_cleaner.Executor.Scripts.{Interpreter, ResourceResult, aggregated_selection}
use k8s_cleaner.Executor.Actions.{
  Writes, Acted, get_matching_resources, delete_matching_resources, update_matching_resources,
}
use k8s_cleaner.Executor.Services.{Got, found, missing, unreadable, Messaging, Files, Cleaners}
use k8s_cleaner.Executor.Notify.{send_notifications}
use k8s_cleaner.Executor.Secrets.{SecretKeys}
use k8s_cleaner.Executor.Store.{store_resources}

-- `&appsv1alpha1.Cleaner{}`
abbrev pub empty_cleaner : Cleaner
empty_cleaner = record {
  name = "";
  finalizers = [];
  creation_timestamp = pos 0;
  deletion_timestamp = none;
  spec = record {
    resource_policy_set = record { resource_selectors = []; aggregated_selection = "" };
    action = other "";
    delete_options = none;
    transform = "";
    schedule = "";
    starting_deadline_seconds = none;
    notifications = [];
    store_resource_path = "";
  };
  status = record { next_schedule_time = none; last_run_time = none; failure_message = none };
}

-- `getCleanerInstance`: a cleaner that is not found is the empty one, without an error.
unfoldable pub get_cleaner_instance : Got Cleaner → Outcome Cleaner
get_cleaner_instance (found c) = ok c
get_cleaner_instance (missing e) = ok empty_cleaner
get_cleaner_instance (unreadable e) = err e

module _ (o : Objects) (lua : Tables) (i : Interpreter o lua) (c : Cluster (Objects.Obj o)) where
  open o use {Obj}

  -- The loop over the resource selectors.
  unfoldable pub collect_matching :
      List ResourceSelector → List (ResourceResult Obj) → Outcome (List (ResourceResult Obj))
  collect_matching [] resources = ok resources
  collect_matching (sr ∷ srs) resources =
      get_matching_resources o lua i c sr >>= λ tmp. collect_matching srs (resources ++ tmp)

  -- The resources that are acted on; `aggregatedSelection` returns them as they are for the empty
  -- script.
  unfoldable pub select_resources : Cleaner → Outcome (List (ResourceResult Obj))
  unfolding collect_matching
  select_resources cleaner =
      collect_matching cleaner.spec.resource_policy_set.resource_selectors []
      >>= aggregated_selection o lua i cleaner.spec.resource_policy_set.aggregated_selection

module _ (o : Objects) (lua : Tables) (i : Interpreter o lua) (w : Writes (Objects.Obj o)) where
  open o use {Obj}
  open w use {World}

  -- The switch over the action: any other action leaves `processedResources` nil.
  unfoldable pub perform : Cleaner → List (ResourceResult Obj) → World → Acted Obj World
  perform cleaner resources world = elim cleaner.spec.action [
    | delete ↦ delete_matching_resources w resources cleaner.spec.delete_options world
    | transform ↦ update_matching_resources o lua i w resources cleaner.spec.transform world
    | scan ↦ record { processed = resources; outcome = ok tt; world = world }
    | other a ↦ record { processed = []; outcome = ok tt; world = world }
  ]

module _ (o : Objects) (lua : Tables) (i : Interpreter o lua) (c : Cluster (Objects.Obj o))
    (w : Writes (Objects.Obj o)) (s : Messaging (Writes.World w))
    (f : Files (Objects.Obj o) (Writes.World w)) (g : Cleaners (Writes.World w)) (keys : SecretKeys)
    (stamp : String) where
  open o use {Obj}
  open w use {World}
  open g use {get_cleaner}

  -- After the action: the notifications, the files, and then the error of the action.
  unfoldable pub report :
      Cleaner → List (ResourceResult Obj) → Outcome (Unit {0}) → Effect World (Unit {0})
  report cleaner processed outcome world =
      continue (send_notifications s o keys stamp processed cleaner world) (λ _ world'.
        continue (store_resources o f processed cleaner world') (λ _ world''. (outcome, world'')))

  -- A panic in the action ends the program.
  unfoldable pub conclude : Cleaner → Acted Obj World → Outcome (Unit {0}) × World
  unfolding report
  conclude cleaner acted = elim acted.outcome [
    | panic ↦ (panic, acted.world)
    | ok u ↦ report cleaner acted.processed (ok u) acted.world
    | err e ↦ report cleaner acted.processed (err e) acted.world
  ]

  -- `processCleanerInstance` for a cleaner that was read
  unfoldable pub process_cleaner : Cleaner → Effect World (Unit {0})
  unfolding select_resources perform conclude
  process_cleaner cleaner world =
      continue (select_resources o lua i c cleaner, world)
        (λ resources world'. conclude cleaner (perform o lua i w cleaner resources world'))

  -- `processCleanerInstance`
  unfoldable pub process_cleaner_instance : String → Effect World (Unit {0})
  unfolding get_cleaner_instance process_cleaner
  process_cleaner_instance name world =
      continue (get_cleaner_instance (get_cleaner name world), world) process_cleaner
