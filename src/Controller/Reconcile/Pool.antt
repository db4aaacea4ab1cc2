-- ===== src/Controller/Reconcile/Pool.antt =====
-- A reconciliation next to the workers: the calls that it makes of the executor, as events of the pool.
use k8s_cleaner.Common.{
  String, Bool-cases, ◌≡◌, refl, sym, ◌∙◌, ap, inl, inr, ◌⊎◌, none, some, List, [], ◌∷◌, ◌++◌,
  Outcome, ok, err, panic, arith,
}
use k8s_cleaner.Common.Int.{ℤ}
use k8s_cleaner.Api.{Time, Cleaner}
use k8s_cleaner.Executor.Manager.{Manager, Result, process, get_result, remove_entries}
use k8s_cleaner.Executor.Services.{Got, found, missing, unreadable}
use k8s_cleaner.Executor.Workers.{System, Event, request, poll, forget, step, run}
use k8s_cleaner.Executor.Workers.Overlap.{run-append}
use k8s_cleaner.Controller.Schedule.{Next, Scheduled, schedule}
use k8s_cleaner.Controller.Scope.{Server, CleanerScope, set_failure_message}
use k8s_cleaner.Controller.Finalizers.{
  Finalizers, Reconciled, cleaner_finalizer, old_finalizer, remove_report, drop_finalizer,
  remove_old_finalizer, reload, add_finalizer, reconcile_delete,
}
use k8s_cleaner.Controller.Reconcile.Deletion.{delete-world}
use k8s_cleaner.Controller.Reconcile.{
  Clock, record_result, after_schedule, consult, with_finalizer, reconcile_normal, reconcile_found,
  close_scope, reconcile_scoped, reconcile,
}

-- The events of a reconciliation of `name`, with those of others, `es`, between its calls.
pub data Calls (name : String) (es : List Event) : List Event → Type 0 where
  -- it ends before it calls the executor
  silent : Calls name es []
  -- the cleaner is being deleted
  forgets : Calls name es (forget name ∷ [])
  -- the result of the last run is read, and no other is asked for
  polls : Calls name es (poll name ∷ es)
  -- and another one is
  requests : Calls name es (poll name ∷ es ++ request name ∷ [])

-- What the API documents: an object that is found by a name has that name, and an update keeps it.
pub record Named {World : Type 0} (s : Server World) : Type 0 where
  pub found_by_name :
      (name : String) (w : World) (c : Cleaner) → s.get_cleaner name w ≡ found c → c.name ≡ name
  pub update_keeps_name : (c : Cleaner) (w : World) → (s.update_cleaner c w).0.1.name ≡ c.name

record_result-name : (r : Result) (c : Cleaner) → (record_result r c).name ≡ c.name
unfolding record_result set_failure_message
record_result-name r c = ground arith

after_schedule-manager :
    {World : Type 0} (started : Time) (w : World) (d : Scheduled)
    → (after_schedule started w d).manager ≡ d.manager
unfolding after_schedule
after_schedule-manager started w d = ground arith

schedule-manager :
    (parse : String → Outcome Next) (m : Manager) (c : Cleaner) (j : ℤ) (now check : Time)
    → ((schedule parse m c j now check).manager ≡ m)
      ⊎ ((schedule parse m c j now check).manager ≡ process m c.name)
unfolding schedule
schedule-manager parse m c j now check = ground arith

module _ (f : Finalizers) {World : Type 0} (s : Server World) (parse : String → Outcome Next)
    (jitter : ℤ) (clock : Clock) (pool : System) (es : List Event) where
  -- What the events of others do to the manager.
  unfoldable pub meanwhile : Manager → Manager
  meanwhile m = (run (record pool { manager = m }) es).manager

  -- The manager after some calls of a reconciliation of `name`.
  pub record Made (name : String) (m : Manager) : Type 0 where
    pub calls : List Event
    pub allowed : Calls name es calls
    pub reached : m ≡ (run pool calls).manager

  consult-Made :
      (name : String) (c : Cleaner) (w : World)
      → c.name ≡ name
      → Made name (consult f s parse jitter meanwhile clock c pool.manager w).manager
  unfolding consult meanwhile run step
  consult-Made name c w e =
      let r = (get_result pool.manager c.name).0 in
      let m = meanwhile (get_result pool.manager c.name).1 in
      let d = schedule parse m (record_result r c) jitter clock.scheduling clock.deciding in
      elim (schedule-manager parse m (record_result r c) jitter clock.scheduling clock.deciding) [
        | inl h ↦ record {
          calls = poll name ∷ es;
          allowed = polls;
          reached = after_schedule-manager clock.started w d ∙ h ∙ rw e refl;
        }
        | inr h ↦ record {
          calls = poll name ∷ es ++ request name ∷ [];
          allowed = requests;
          reached =
              after_schedule-manager clock.started w d
              ∙ h
              ∙ rw (record_result-name r c, e)
                  (ap (λ (x : System). x.manager)
                    (sym (run-append (step pool (poll name)) es (request name ∷ []))));
        }
      ]

  not_called : (name : String) → Made name pool.manager
  unfolding run
  not_called name = record { calls = []; allowed = silent; reached = refl }

  with_finalizer-Made :
      (name : String) (p : (Outcome (Unit {0}) × Cleaner) × World)
      → p.0.1.name ≡ name
      → Made name (with_finalizer f s parse jitter meanwhile clock pool.manager p).manager
  unfolding with_finalizer
  with_finalizer-Made name ((ok u, c), w) e = consult-Made name c w e
  with_finalizer-Made name ((err x, c), w) e = not_called name
  with_finalizer-Made name ((panic, c), w) e = not_called name

  module _ (named : Named s) where
    reload-name :
        (q : (Outcome (Unit {0}) × Cleaner) × World) → (reload f s q).0.1.name ≡ q.0.1.name
    unfolding reload
    reload-name ((err x, c), w) = refl
    reload-name ((panic, c), w) = refl
    reload-name ((ok u, c), w) = go (s.get_cleaner c.name w) refl
      where
        go :
            (g : Got Cleaner)
            → s.get_cleaner c.name w ≡ g
            → (reload f s ((ok u, c), w)).0.1.name ≡ c.name
        go (found c') g = rw (g, reload) (named.found_by_name c.name w c' g)
        go (missing x) g = rw (g, reload) refl
        go (unreadable x) g = rw (g, reload) refl

    add_finalizer-name :
        (c : Cleaner) (finalizer : String) (w : World)
        → (add_finalizer f s c finalizer w).0.1.name ≡ c.name
    unfolding add_finalizer
    add_finalizer-name c finalizer w =
        elim (Bool-cases (f.contains_finalizer c.finalizers finalizer)) [
          | inl e ↦ rw e refl
          | inr e ↦
              let c' = record c { finalizers = f.add c.finalizers finalizer } in
              rw e (reload-name (s.update_cleaner c' w) ∙ named.update_keeps_name c' w)
        ]

    old-name : (c : Cleaner) → (remove_old_finalizer f c).name ≡ c.name
    unfolding remove_old_finalizer drop_finalizer
    old-name c = elim (Bool-cases (f.contains_finalizer c.finalizers old_finalizer)) [
      | inl e ↦ rw e refl
      | inr e ↦ rw e refl
    ]

    delete-Made :
        (name : String) (c : Cleaner) (w : World)
        → c.name ≡ name
        → Made name (reconcile_delete f s c pool.manager w).manager
    unfolding run step
    delete-Made name c w e = record {
      calls = forget name ∷ [];
      allowed = forgets;
      reached =
          (delete-world f s pool.manager c w (remove_report f s c w) refl).1
          ∙ ap (remove_entries pool.manager) e;
    }

    normal-Made :
        (name : String) (c : Cleaner) (w : World)
        → c.name ≡ name
        → Made name (reconcile_normal f s parse jitter meanwhile clock c pool.manager w).manager
    unfolding reconcile_normal
    normal-Made name c w e =
        with_finalizer-Made name (add_finalizer f s (remove_old_finalizer f c) cleaner_finalizer w)
          (add_finalizer-name (remove_old_finalizer f c) cleaner_finalizer w ∙ old-name c ∙ e)

    found-Made :
        (name : String) (c : Cleaner) (w : World)
        → c.name ≡ name
        → Made name (reconcile_found f s parse jitter meanwhile clock c pool.manager w).manager
    unfolding reconcile_found
    found-Made name c w e =
        elim c.deletion_timestamp
          as (λ t.
            Made name
              (elim t as (λ _. Reconciled World) [
                | some d ↦ reconcile_delete f s c pool.manager w
                | none ↦ reconcile_normal f s parse jitter meanwhile clock c pool.manager w
              ]).manager) [ some t ↦ delete-Made name c w e | none ↦ normal-Made name c w e ]

    scoped-Made :
        (name : String) (c : Cleaner) (w : World) (o : Outcome (CleanerScope s))
        → c.name ≡ name
        → Made name (reconcile_scoped f s parse jitter meanwhile clock pool.manager w c o).manager
    unfolding reconcile_scoped close_scope
    scoped-Made name c w (ok scope) e = found-Made name c w e
    scoped-Made name c w (err x) e = not_called name
    scoped-Made name c w panic e = not_called name

    -- A reconciliation of `name` does to the pool what one of four runs of events does: none; a call of
    -- `RemoveEntries`; a call of `GetResult` and then what others do meanwhile; or the same with a call
    -- of `Process` at the end. Each call is for `name`, and at most one of them asks for a run. What is
    -- found by a name has that name, and an update keeps it.
    pub reconcile_calls :
        (name : String) (w : World)
        → Made name (reconcile f s parse jitter meanwhile clock name pool.manager w).1
    unfolding reconcile
    reconcile_calls name w = go (s.get_cleaner name w) refl
      where
        go :
            (g : Got Cleaner)
            → s.get_cleaner name w ≡ g
            → Made name (reconcile f s parse jitter meanwhile clock name pool.manager w).1
        go (found c) g = rw (g, reconcile) (scoped-Made name c w _ (named.found_by_name name w c g))
        go (missing x) g = rw (g, reconcile) (not_called name)
        go (unreadable x) g = rw (g, reconcile) (not_called name)
