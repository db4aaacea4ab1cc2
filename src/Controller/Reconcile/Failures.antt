-- ===== src/Controller/Reconcile/Failures.antt =====
-- A cleaner whose resources cannot be selected: from the worker that processes it to its status.
use k8s_cleaner.Common.{
  ℕ, String, true, false, ◌≡◌, refl, none, some, List, All, GoError, error_text, Outcome, ok, err,
}
use k8s_cleaner.Common.Int.{ℤ}
use k8s_cleaner.Api.{Time, Cleaner}
use k8s_cleaner.Executor.Cluster.{Objects, Cluster}
use k8s_cleaner.Executor.Lua.{Tables}
use k8s_cleaner.Executor.Scripts.{Interpreter}
use k8s_cleaner.Executor.Actions.{Writes}
use k8s_cleaner.Executor.Manager.{Manager}
use k8s_cleaner.Executor.Services.{found, Messaging, Files, Cleaners}
use k8s_cleaner.Executor.Secrets.{SecretKeys}
use k8s_cleaner.Executor.Process.{select_resources}
use k8s_cleaner.Executor.Process.Stages.{failed_selection_changes_nothing}
use k8s_cleaner.Executor.Workers.{System, Event, finish, step, run}
use k8s_cleaner.Executor.Workers.Answers.{Spares, LastRun}
use k8s_cleaner.Executor.Turn.{turn, store_outcome}
use k8s_cleaner.Controller.Schedule.{Next, get_next_schedule_time, should_schedule}
use k8s_cleaner.Controller.Scope.{Server}
use k8s_cleaner.Controller.Finalizers.{Finalizers, cleaner_finalizer, old_finalizer}
use k8s_cleaner.Controller.Reconcile.{Clock, reconcile}
use k8s_cleaner.Controller.Reconcile.Due.{stamped}
use k8s_cleaner.Controller.Reconcile.Outcomes.{run_outcome_is_written}

module _ (o : Objects) (lua : Tables) (i : Interpreter o lua) (cluster : Cluster (Objects.Obj o))
    (w : Writes (Objects.Obj o)) (messaging : Messaging (Writes.World w))
    (files : Files (Objects.Obj o) (Writes.World w)) (g : Cleaners (Writes.World w))
    (keys : SecretKeys) (stamp : String) where
  open w use {World}
  open g use {get_cleaner}

  turn-failed :
      (pool : System) (n : ℕ) (name : String) (cleaner : Cleaner) (world : World) (e : GoError)
      → LastRun pool n name
      → get_cleaner name world ≡ found cleaner
      → select_resources o lua i cluster cleaner ≡ err e
      → turn o lua i cluster w messaging files g keys stamp pool n world
        ≡ some (step pool (finish n (some e)), world)
  unfolding turn store_outcome
  turn-failed pool n name cleaner world e run got failed =
      rw
        (
          run.served,
          turn,
          failed_selection_changes_nothing o lua i cluster w messaging files g keys stamp name
              cleaner world e got failed,
        )
        refl

  module _ (f : Finalizers) (s : Server World) (parse : String → Outcome Next) (jitter : ℤ)
      (others : Manager → Manager) (clock : Clock) where
    -- A worker serves a cleaner alone, nobody has asked for another run of it, the cleaner is
    -- there, and its resources cannot be selected, since a read of the cluster or a script fails:
    -- the worker changes nothing in the world, and leaves the error with the executor. If nobody
    -- asks for that cleaner again or reads its result until its next reconciliation, and
    -- `RemoveEntries` is not called, that reconciliation writes the text of the error as the
    -- failure message of the cleaner, next to what the schedule sets. There the cleaner that is
    -- found has the name that was asked for and its finalizer but not the old one, is not being
    -- deleted, its patch helper can be made, it has a next start time, and its schedule gives the
    -- one after it.
    pub failed_selection_is_reported :
        (pool : System) (n : ℕ) (e : GoError) (later : List Event) (name : String)
        (cleaner c : Cleaner) (world world' : World) (helper : s.Helper) (first next : Time)
        → LastRun pool n name
        → get_cleaner name world ≡ found cleaner
        → select_resources o lua i cluster cleaner ≡ err e
        → All (Spares name) later
        → c.name ≡ name
        → s.get_cleaner name world' ≡ found c
        → s.new_helper c s.client ≡ ok helper
        → c.deletion_timestamp ≡ none
        → f.contains_finalizer c.finalizers cleaner_finalizer ≡ true
        → f.contains_finalizer c.finalizers old_finalizer ≡ false
        → get_next_schedule_time parse c clock.scheduling ≡ ok next
        → c.status.next_schedule_time ≡ some first
        → let after = step pool (finish n (some e)) in
          let m = (run after later).manager in
          let due = should_schedule c.status.last_run_time first jitter clock.deciding in
          (turn o lua i cluster w messaging files g keys stamp pool n world ≡ some (after, world))
          × ((reconcile f s parse jitter others clock name m world').2
              ≡ (s.patch helper
                  (stamped c (some (error_text e)) due clock.scheduling next)
                  world').1)
    failed_selection_is_reported pool n e later name cleaner c world world' helper first next run
          got failed spares named there h stays new old g' at =
        (
          turn-failed pool n name cleaner world e run got failed,
          run_outcome_is_written f s parse jitter others clock pool n (some e) later name world' c
              helper first next run spares named there h stays new old g' at,
        )
