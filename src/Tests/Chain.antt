-- ===== src/Tests/Chain.antt =====
-- From the schedule to a worker and back to the status, at the cleaner and the server of Reconcile.
use k8s_cleaner.Common.{
  String, ◌≡◌, ◌≢◌, refl, Option, none, some, List, ok, ◌++◌, [], ◌∷◌, errorf, error_text, contains,
  count, eq_iff,
}
use k8s_cleaner.Common.Int.{pos, ◌+ℤ◌, ◌-ℤ◌, wrap64, scale}
use k8s_cleaner.Executor.Manager.{empty, process, take_job, drop_key}
use k8s_cleaner.Executor.Workers.{System, start, request, wake, finish, step, run}
use k8s_cleaner.Executor.Workers.Invariant.{workers_on}
use k8s_cleaner.Executor.Workers.Service.{ServedLater}
use k8s_cleaner.Executor.Workers.Answers.{LastRun}
use k8s_cleaner.Controller.Schedule.{
  get_next_schedule_time, earliest_time, too_many_missed, should_schedule,
}
use k8s_cleaner.Controller.Reconcile.{reconcile}
use k8s_cleaner.Controller.Reconcile.Pool.{meanwhile}
use k8s_cleaner.Controller.Reconcile.Due.{stamped}
use k8s_cleaner.Controller.Reconcile.Served.{after_request, due_cleaner_is_served}
use k8s_cleaner.Controller.Reconcile.Outcomes.{run_outcome_is_written}
use k8s_cleaner.Tests.Reconcile.{finalizers, server, due_now, at_two}
use k8s_cleaner.Tests.Times.{at, parse}
use k8s_cleaner.Api.{Cleaner}
use k8s_cleaner.Executor.Services.{found, missing}
use k8s_cleaner.Controller.Scope.{Server}
use k8s_cleaner.Executor.Turn.{turn}
use k8s_cleaner.Controller.Reconcile.Failures.{failed_selection_is_reported}
use k8s_cleaner.Tests.World.{items, flat_tables, interpreter, cluster, writes}
use k8s_cleaner.Tests.Outside.{messaging, files, cleaners, keys, broken}
use k8s_cleaner.Tests.Pipeline.{broken_selection}

nightly_is_not_weekly : ◌≢◌ {A = String} "weekly" "nightly"
nightly_is_not_weekly e = cc ((eq_iff "weekly" "nightly").1 e)

-- The only worker has looked for work before, and looks again during the reconciliation.
due_cleaner_is_served_example :
    ((reconcile finalizers server parse
        (pos 10)
        (meanwhile finalizers server parse
          (pos 10)
          at_two
          (run (start 1) (wake 0 ∷ []))
          (wake 0 ∷ []))
        at_two
        "nightly"
        (run (start 1) (wake 0 ∷ [])).manager
        (some due_now, [])).1
      ≡ (after_request (run (start 1) (wake 0 ∷ [])) "nightly" (wake 0 ∷ [])).manager)
    × ServedLater (after_request (run (start 1) (wake 0 ∷ [])) "nightly" (wake 0 ∷ [])) "nightly"
unfolding contains get_next_schedule_time earliest_time too_many_missed should_schedule ◌+ℤ◌ wrap64
    scale ◌-ℤ◌
due_cleaner_is_served_example =
    due_cleaner_is_served finalizers server parse (pos 10) at_two 1 (wake 0 ∷ []) (wake 0 ∷ [])
      (tt, tt) (tt, tt) "nightly" (some due_now, []) due_now tt (at 120) (at 180) refl refl refl
      refl refl refl refl refl refl

-- The cleaner was asked for, and the only worker serves it.
abbrev serving_nightly : System
serving_nightly = run (start 1) (request "nightly" ∷ wake 0 ∷ [])

serving_nightly-LastRun : LastRun serving_nightly 0 "nightly"
unfolding run step process take_job count workers_on start empty contains drop_key
serving_nightly-LastRun = record {
  served = refl;
  alone = refl;
  not_dirty = refl;
  not_queued = refl;
}

-- Its run fails, and another cleaner is asked for before it is reconciled.
run_outcome_is_written_example :
    let failure = errorf "script failed" in
    let pool = run (step serving_nightly (finish 0 (some failure))) (request "weekly" ∷ []) in
    (reconcile finalizers server parse
      (pos 10)
      (λ m. m)
      at_two
      "nightly"
      pool.manager
      (some due_now, [])).2
    ≡ (
      some (
          stamped due_now
            (some (error_text failure))
            (should_schedule none (at 120) (pos 10) (at 120))
            (at 120)
            (at 180)),
      [],
    )
unfolding contains get_next_schedule_time earliest_time too_many_missed ◌+ℤ◌ wrap64 scale ◌-ℤ◌
run_outcome_is_written_example =
    run_outcome_is_written finalizers server parse (pos 10) (λ m. m) at_two serving_nightly 0
      (some (errorf "script failed")) (request "weekly" ∷ []) "nightly" (some due_now, []) due_now
      tt (at 120) (at 180) serving_nightly-LastRun (nightly_is_not_weekly, tt) refl refl refl refl
      refl refl refl refl

-- A server next to the small cluster: it holds one cleaner, and notes the failure messages written.
abbrev due_broken : Cleaner
due_broken = record due_now { name = "broken" }

abbrev noted : Option String → List String
noted none = []
noted (some text) = text ∷ []

abbrev note_server : Server (List String)
note_server = record {
  Client = Unit;
  client = tt;
  get_cleaner = λ name w. found due_broken;
  update_cleaner = λ c w. ((ok tt, c), w);
  Report = String;
  get_report = λ name w. missing (errorf "not found");
  delete_report = λ report w. (ok tt, w);
  Helper = Unit;
  new_helper = λ c client. ok tt;
  patch = λ helper c w. (ok tt, w ++ noted c.status.failure_message);
}

abbrev serving_broken : System
serving_broken = run (start 1) (request "broken" ∷ wake 0 ∷ [])

serving_broken-LastRun : LastRun serving_broken 0 "broken"
unfolding run step process take_job count workers_on start empty contains drop_key
serving_broken-LastRun = record { served = refl; alone = refl; not_dirty = refl; not_queued = refl }

-- The script of the cleaner does not parse; the message is written, and "stale" is still there.
failed_selection_is_reported_example :
    let failure = errorf "syntax error" in
    let after = step serving_broken (finish 0 (some failure)) in
    (turn items flat_tables interpreter cluster writes messaging files cleaners keys "now"
        serving_broken 0
        ("stale" ∷ [])
      ≡ some (after, "stale" ∷ []))
    × ((reconcile finalizers note_server parse
          (pos 10)
          (λ m. m)
          at_two
          "broken"
          after.manager
          ("stale" ∷ [])).2
        ≡ "stale"
          ∷ noted
              (stamped due_broken
                (some (error_text failure))
                (should_schedule none (at 120) (pos 10) (at 120))
                (at 120)
                (at 180)).status.failure_message)
unfolding run contains get_next_schedule_time earliest_time too_many_missed ◌+ℤ◌ wrap64 scale ◌-ℤ◌
failed_selection_is_reported_example =
    failed_selection_is_reported items flat_tables interpreter cluster writes messaging files
      cleaners keys "now" finalizers note_server parse (pos 10) (λ m. m) at_two serving_broken 0
      (errorf "syntax error") [] "broken" broken due_broken ("stale" ∷ []) ("stale" ∷ []) tt
      (at 120) (at 180) serving_broken-LastRun refl broken_selection tt refl refl refl refl refl
      refl refl refl
