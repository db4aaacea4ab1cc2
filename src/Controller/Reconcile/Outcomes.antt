-- ===== src/Controller/Reconcile/Outcomes.antt =====
-- From a worker to the status: how a run ended, and what the next reconciliation writes.
use k8s_cleaner.Common.{
  ℕ, String, true, false, ◌||◌, ◌≡◌, ◌∙◌, sym, ap, subst, Option, none, some, List, All, GoError,
  Outcome, ok, contains,
}
use k8s_cleaner.Common.Int.{ℤ}
use k8s_cleaner.Api.{Time, Cleaner}
use k8s_cleaner.Executor.Manager.{Manager}
use k8s_cleaner.Executor.Services.{found}
use k8s_cleaner.Executor.Workers.{System, Event, finish, step, run}
use k8s_cleaner.Executor.Workers.Answers.{Answered, Spares, LastRun, finish-Answered, run-Answered}
use k8s_cleaner.Controller.Schedule.{Next, get_next_schedule_time, should_schedule}
use k8s_cleaner.Controller.Scope.{Server}
use k8s_cleaner.Controller.Finalizers.{Finalizers, cleaner_finalizer, old_finalizer}
use k8s_cleaner.Controller.Reconcile.{Clock, reconcile}
use k8s_cleaner.Controller.Reconcile.Status.{recorded, message_for, recorded-some}
use k8s_cleaner.Controller.Reconcile.Due.{told, stamped, requests_when_due}

told-Answered :
    (s : System) (c : Cleaner) (err : Option GoError)
    → Answered s c.name err
    → told s.manager c ≡ message_for err
told-Answered s c err a =
    ap
      (λ r.
        recorded r (contains s.in_progress c.name || contains s.job_queue c.name)
          c.status.failure_message)
      a.result
    ∙ recorded-some err _ _

module _ (f : Finalizers) {World : Type 0} (s : Server World) (parse : String → Outcome Next)
    (jitter : ℤ) (others : Manager → Manager) (clock : Clock) where
  -- A worker that serves a cleaner alone is done, with an error or not; nobody has asked for another run
  -- of that cleaner, and until its next reconciliation nobody does, or reads its result, while
  -- requests of others come and go and workers serve them (`RemoveEntries` is not called). Then that
  -- reconciliation writes the cleaner with the text of that error as its failure message, or with none
  -- if there was no error, next to what the schedule sets. The cleaner that is found has the name that was
  -- asked for and its finalizer but not the old one, is not being deleted, its patch helper can be
  -- made, it has a next start time, and its schedule gives the one after it.
  pub run_outcome_is_written :
      (pool : System) (i : ℕ) (err : Option GoError) (later : List Event) (name : String)
      (w : World) (c : Cleaner) (helper : s.Helper) (first next : Time)
      → LastRun pool i name
      → All (Spares name) later
      → c.name ≡ name
      → s.get_cleaner name w ≡ found c
      → s.new_helper c s.client ≡ ok helper
      → c.deletion_timestamp ≡ none
      → f.contains_finalizer c.finalizers cleaner_finalizer ≡ true
      → f.contains_finalizer c.finalizers old_finalizer ≡ false
      → get_next_schedule_time parse c clock.scheduling ≡ ok next
      → c.status.next_schedule_time ≡ some first
      → let m = (run (step pool (finish i err)) later).manager in
        let due = should_schedule c.status.last_run_time first jitter clock.deciding in
        (reconcile f s parse jitter others clock name m w).2
        ≡ (s.patch helper (stamped c (message_for err) due clock.scheduling next) w).1
  run_outcome_is_written pool i err later name w c helper first next last spares named there h stays
        new old g at =
      let after = run (step pool (finish i err)) later in
      let answered =
        run-Answered (step pool (finish i err)) later name err spares
          (finish-Answered pool i name err last) in
      (requests_when_due f s parse jitter others clock name after.manager w c helper first next
        there h stays new old g at).1
      ∙ ap
          (λ (message : Option String).
            (s.patch helper
              (stamped c message
                (should_schedule c.status.last_run_time first jitter clock.deciding)
                clock.scheduling next)
              w).1)
          (told-Answered after c err (subst (λ n. Answered after n err) (sym named) answered))
