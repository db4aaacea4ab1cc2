-- ===== src/Controller/Reconcile/Served.antt =====
-- From the schedule to a worker: a reconciliation of a cleaner that is due, and the pool.
use k8s_cleaner.Common.{
  ℕ, String, true, false, ◌≡◌, ◌∙◌, sym, ap, subst, none, some, List, [], ◌∷◌, ◌++◌, All, Outcome,
  ok,
}
use k8s_cleaner.Common.Int.{ℤ}
use k8s_cleaner.Api.{Time, Cleaner}
use k8s_cleaner.Executor.Services.{found}
use k8s_cleaner.Executor.Workers.{System, Event, request, poll, start, step, run}
use k8s_cleaner.Executor.Workers.Overlap.{run-append}
use k8s_cleaner.Executor.Workers.Invariant.{Inv, NoRemoval, run-Inv, step-Inv, run-start-Inv}
use k8s_cleaner.Executor.Workers.Service.{ServedLater, request-ServedLater}
use k8s_cleaner.Controller.Schedule.{Next, get_next_schedule_time, should_schedule}
use k8s_cleaner.Controller.Scope.{Server}
use k8s_cleaner.Controller.Finalizers.{Finalizers, cleaner_finalizer, old_finalizer}
use k8s_cleaner.Controller.Reconcile.{Clock, reconcile}
use k8s_cleaner.Controller.Reconcile.Due.{requests_when_due}
use k8s_cleaner.Controller.Reconcile.Pool.{meanwhile}

-- The pool after the calls of the reconciliation, with the events of others between them.
abbrev pub after_request : System → String → List Event → System
after_request pool name es = run pool (poll name ∷ es ++ request name ∷ [])

after_request-step :
    (pool : System) (name : String) (es : List Event)
    → after_request pool name es ≡ step (run (step pool (poll name)) es) (request name)
unfolding run
after_request-step pool name es = run-append (step pool (poll name)) es (request name ∷ [])

after_request-ServedLater :
    (pool : System) (name : String) (es : List Event)
    → Inv pool name
    → All NoRemoval es
    → ServedLater (after_request pool name es) name
after_request-ServedLater pool name es v h =
    subst (λ (s : System). ServedLater s name) (sym (after_request-step pool name es))
      (request-ServedLater _ name (
        step-Inv _ (request name) name tt
          (run-Inv (step pool (poll name)) es name h (step-Inv pool (poll name) name tt v))))

module _ (f : Finalizers) {World : Type 0} (s : Server World) (parse : String → Outcome Next)
    (jitter : ℤ) (clock : Clock) (n : ℕ) (history es : List Event) where
  -- A reconciliation of a cleaner that is due leaves the executor as a call of `GetResult`, the
  -- events of others and a call of `Process` leave the pool, and then the cleaner is served: either
  -- it stands in the queue, and an idle worker serves it after as many turns as requests stand
  -- before it, however those end and whichever runs and results are asked for before each turn, if
  -- no other worker acts and `RemoveEntries` is not called; or a worker serves it now, and it
  -- stands in the queue like that when the worker is done, with an error or not. The pool has run
  -- from its start without `RemoveEntries`, and there is none among the events of others. The
  -- cleaner that is found has the name that was asked for, it has its finalizer and not the old
  -- one, is not being deleted, its patch helper can be made, its schedule gives a time, and it has
  -- a next start time, which `shouldSchedule` says is due.
  pub due_cleaner_is_served :
      All NoRemoval history
      → All NoRemoval es
      → (name : String) (w : World) (c : Cleaner) (helper : s.Helper) (first next : Time)
      → c.name ≡ name
      → s.get_cleaner name w ≡ found c
      → s.new_helper c s.client ≡ ok helper
      → c.deletion_timestamp ≡ none
      → f.contains_finalizer c.finalizers cleaner_finalizer ≡ true
      → f.contains_finalizer c.finalizers old_finalizer ≡ false
      → get_next_schedule_time parse c clock.scheduling ≡ ok next
      → c.status.next_schedule_time ≡ some first
      → should_schedule c.status.last_run_time first jitter clock.deciding ≡ true
      → let pool = run (start n) history in
        let others = meanwhile f s parse jitter clock pool es in
        ((reconcile f s parse jitter others clock name pool.manager w).1
          ≡ (after_request pool name es).manager)
        × ServedLater (after_request pool name es) name
  unfolding step meanwhile
  due_cleaner_is_served quiet calm name w c helper first next named there h stays new old g at due =
      let pool = run (start n) history in
      let others = meanwhile f s parse jitter clock pool es in
      let asked =
        requests_when_due f s parse jitter others clock name pool.manager w c helper first next
          there h stays new old g at in
      (
        asked.0
            ∙ rw (due, named)
                (ap (λ (x : System). x.manager) (sym (after_request-step pool name es))),
        after_request-ServedLater pool name es (run-start-Inv n history name quiet) calm,
      )
