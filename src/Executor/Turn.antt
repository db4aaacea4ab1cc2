-- ===== src/Executor/Turn.antt =====
-- internal/controller/executor/worker.go, the body of the loop of `processRequests`: a worker that holds
-- a request processes the cleaner and stores the error.
use k8s_cleaner.Common.{ℕ, String, Option, none, some, Outcome, ok, err, panic, get_elem?}
use k8s_cleaner.Executor.Cluster.{Objects, Cluster}
use k8s_cleaner.Executor.Lua.{Tables}
use k8s_cleaner.Executor.Scripts.{Interpreter}
use k8s_cleaner.Executor.Actions.{Writes}
use k8s_cleaner.Executor.Services.{Messaging, Files, Cleaners}
use k8s_cleaner.Executor.Secrets.{SecretKeys}
use k8s_cleaner.Executor.Process.{process_cleaner_instance}
use k8s_cleaner.Executor.Workers.{System, finish, step}

module _ (o : Objects) (lua : Tables) (i : Interpreter o lua) (c : Cluster (Objects.Obj o))
    (w : Writes (Objects.Obj o)) (s : Messaging (Writes.World w))
    (f : Files (Objects.Obj o) (Writes.World w)) (g : Cleaners (Writes.World w)) (keys : SecretKeys)
    (stamp : String) where
  open w use {World}

  -- A panic ends the program.
  unfoldable pub store_outcome : System → ℕ → Outcome (Unit {0}) × World → Option (System × World)
  store_outcome pool n (ok u, world) = some (step pool (finish n none), world)
  store_outcome pool n (err e, world) = some (step pool (finish n (some e)), world)
  store_outcome pool n (panic, world) = none

  -- `cleanerName != nil`
  unfoldable pub turn : System → ℕ → World → Option (System × World)
  unfolding store_outcome process_cleaner_instance
  turn pool n world = elim (get_elem? pool.workers n) [
    | some (some name) ↦
        store_outcome pool n (process_cleaner_instance o lua i c w s f g keys stamp name world)
    | some none ↦ some (pool, world)
    | none ↦ some (pool, world)
  ]
