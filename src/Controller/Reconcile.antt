-- ===== src/Controller/Reconcile.antt =====
-- internal/controller/cleaner_controller.go: `Reconcile` and what it calls beside `schedule`. The
-- readings of the clock are arguments.
pub mod Deletion
pub mod Completion
pub mod Status
pub mod Delays
pub mod Requeue
pub mod Due
pub mod Pool
pub mod Served
pub mod Outcomes
pub mod Failures
use k8s_cleaner.Common.{
  String, Bool, true, false, Option, none, some, List, GoError, errorf, wrapf, error_text, Outcome,
  ok, err, panic, if◌then◌else◌,
}
use k8s_cleaner.Common.Int.{ℤ, ◌-ℤ◌, saturate}
use k8s_cleaner.Api.{Time, Cleaner}
use k8s_cleaner.Executor.Manager.{
  Manager, Result, ResultStatus, processed, in_progress, failed, unavailable, get_result,
  remove_entries,
}
use k8s_cleaner.Executor.Services.{Got, found, missing, unreadable}
use k8s_cleaner.Controller.Finalizers.{
  Finalizers, cleaner_finalizer, old_finalizer, Reconciled, drop_finalizer, remove_old_finalizer,
  reload, add_finalizer, after_delete, remove_report, finish_delete, reconcile_delete,
}
use k8s_cleaner.Controller.Schedule.{Next, Scheduled, schedule}
use k8s_cleaner.Controller.Scope.{
  Server, CleanerScope, new_cleaner_scope, close, set_failure_message,
}

-- The failure message that a result of the executor leaves.
unfoldable pub message_of : Result → Option String
unfolding error_text
message_of r = elim r.err [ none ↦ none | some e ↦ some (error_text e) ]

unfoldable pub record_result : Result → Cleaner → Cleaner
unfolding message_of set_failure_message
record_result r c = elim r.result_status [
  | unavailable ↦ c
  | processed ↦ set_failure_message (message_of r) c
  | in_progress ↦ set_failure_message (message_of r) c
  | failed ↦ set_failure_message (message_of r) c
]

-- The three readings of the clock, in the order in which they are made: by `reconcileNormal`, by
-- `schedule` and by `shouldSchedule`.
pub record Clock : Type 0 where
  pub started : Time
  pub scheduling : Time
  pub deciding : Time

-- The end of `reconcileNormal`, after `schedule`.
unfoldable pub after_schedule : {World : Type 0} → Time → World → Scheduled → Reconciled World
unfolding set_failure_message error_text
after_schedule started w d = elim d.result [
  | ok next_run ↦ record {
    cleaner = d.cleaner;
    manager = d.manager;
    world = w;
    result = ok (some (saturate (next_run -ℤ started)));
  }
  | err e ↦ record {
    cleaner = set_failure_message (some (error_text e)) d.cleaner;
    manager = d.manager;
    world = w;
    result = err e;
  }
  | panic ↦ record { cleaner = d.cleaner; manager = d.manager; world = w; result = panic }
]

-- `CleanerReconciler.JitterWindowInSeconds`, with the libraries that `schedule` uses.
module _ (f : Finalizers) {World : Type 0} (s : Server World) (parse : String → Outcome Next)
    (jitter : ℤ) (others : Manager → Manager) where
  -- `reconcileNormal` from `GetResult` on; `others` is what other goroutines do to the manager
  -- between the two calls of the executor.
  unfoldable pub consult : Clock → Cleaner → Manager → World → Reconciled World
  unfolding get_result record_result schedule after_schedule
  consult clock c m w =
      let (r, m') = get_result m c.name in
      after_schedule clock.started w
        (schedule parse (others m') (record_result r c) jitter clock.scheduling clock.deciding)

  unfoldable pub with_finalizer :
      Clock → Manager → (Outcome (Unit {0}) × Cleaner) × World → Reconciled World
  unfolding consult
  with_finalizer clock m ((ok u, c), w) = consult clock c m w
  with_finalizer clock m ((err e, c), w) = record {
    cleaner = c;
    manager = m;
    world = w;
    result = err e;
  }
  with_finalizer clock m ((panic, c), w) = record {
    cleaner = c;
    manager = m;
    world = w;
    result = panic;
  }

  -- `reconcileNormal`
  unfoldable pub reconcile_normal : Clock → Cleaner → Manager → World → Reconciled World
  unfolding with_finalizer add_finalizer remove_old_finalizer
  reconcile_normal clock c m w =
      with_finalizer clock m (add_finalizer f s (remove_old_finalizer f c) cleaner_finalizer w)

  -- `!cleaner.DeletionTimestamp.IsZero()`
  unfoldable pub reconcile_found : Clock → Cleaner → Manager → World → Reconciled World
  unfolding reconcile_delete reconcile_normal
  reconcile_found clock c m w = elim c.deletion_timestamp [
    | some t ↦ reconcile_delete f s c m w
    | none ↦ reconcile_normal clock c m w
  ]

  -- The deferred call: an error of `Close` takes the place of what is returned.
  abbrev pub after_close : Outcome (Option ℤ) → Outcome (Unit {0}) → Outcome (Option ℤ)
  after_close result (ok u) = result
  after_close panic (err e) = panic
  after_close (ok r) (err e) = err e
  after_close (err e') (err e) = err e
  after_close result panic = panic

  unfoldable pub close_scope : CleanerScope s → Reconciled World → Reconciled World
  unfolding close
  close_scope scope r =
      let (closed, w) = close s (record scope { cleaner = r.cleaner }) r.world in
      record r { world = w; result = after_close r.result closed }

  -- `Reconcile` of the cleaner that was read
  unfoldable pub reconcile_scoped :
      Clock → Manager → World → Cleaner → Outcome (CleanerScope s) → Reconciled World
  unfolding reconcile_found close_scope
  reconcile_scoped clock m w c (ok scope) = close_scope scope (reconcile_found clock c m w)
  reconcile_scoped clock m w c (err e) = record {
    cleaner = c;
    manager = m;
    world = w;
    result = err (wrapf "unable to create profileScope scope" e);
  }
  reconcile_scoped clock m w c panic = record {
    cleaner = c;
    manager = m;
    world = w;
    result = panic;
  }

  -- What the caller of `Reconcile` and the rest of the program see of it.
  abbrev outside : Reconciled World → Outcome (Option ℤ) × Manager × World
  outside r = (r.result, r.manager, r.world)

  -- `Reconcile`
  unfoldable pub reconcile : Clock → String → Manager → World → Outcome (Option ℤ) × Manager × World
  unfolding reconcile_scoped new_cleaner_scope
  reconcile clock name m w = elim (Server.get_cleaner s name w) [
    | missing e ↦ (ok none, m, w)
    | unreadable e ↦ (err (wrapf "Failed to fetch Cleaner" e), m, w)
    | found c ↦ outside (
        reconcile_scoped clock m w c (
          new_cleaner_scope s (record {
            client = some (Server.client s);
            cleaner = some c;
            controller_name = "cleaner";
          })))
  ]
