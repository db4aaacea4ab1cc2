-- ===== src/Controller/Finalizers.antt =====
-- internal/controller/cleaner_controller.go: the finalizers of a cleaner, and `reconcileDelete`. The
-- finalizer functions of controller-runtime are parameters.
use k8s_cleaner.Common.{
  String, Bool, Option, none, List, errorf, Outcome, ok, err, panic, if◌then◌else◌,
}
use k8s_cleaner.Common.Int.{ℤ}
use k8s_cleaner.Api.{Cleaner}
use k8s_cleaner.Executor.Manager.{Manager, remove_entries}
use k8s_cleaner.Executor.Services.{found, missing, unreadable}
use k8s_cleaner.Controller.Scope.{Server}

-- `ContainsFinalizer`, `AddFinalizer` and `RemoveFinalizer` of controllerutil, on the finalizers of
-- an object.
pub record Finalizers : Type 0 where
  pub contains_finalizer : List String → String → Bool
  pub add : List String → String → List String
  pub remove : List String → String → List String

-- `CleanerFinalizer`
abbrev pub cleaner_finalizer : String
cleaner_finalizer = "projectsveltos.io/cleaner-finalizer"

abbrev pub old_finalizer : String
old_finalizer = "cleanerfinalizer.projectsveltos.io"

-- Where a reconciliation stands: the cleaner in memory, the shared manager, the world, and what is
-- returned; `none` is the empty `Result`, and `some d` asks for a requeue after `d`.
pub record Reconciled (World : Type 0) : Type 0 where
  pub cleaner : Cleaner
  pub manager : Manager
  pub world : World
  pub result : Outcome (Option ℤ)

-- `removeQueuedJobs`
abbrev pub remove_queued_jobs : Cleaner → Manager → Manager
remove_queued_jobs c m = remove_entries m c.name

module _ (f : Finalizers) where
  open f use {contains_finalizer, add, remove}

  -- `RemoveFinalizer` if `ContainsFinalizer`
  unfoldable pub drop_finalizer : String → Cleaner → Cleaner
  drop_finalizer name c =
      if contains_finalizer c.finalizers name
      then record c { finalizers = remove c.finalizers name }
      else c

  -- `removeOldFinalizer`
  unfoldable pub remove_old_finalizer : Cleaner → Cleaner
  unfolding drop_finalizer
  remove_old_finalizer c = drop_finalizer old_finalizer c

  module _ {World : Type 0} (s : Server World) where
    open s use {get_cleaner, update_cleaner, get_report, delete_report}

    -- The `Get` after an `Update` that succeeded; one that fails leaves the object as it is.
    unfoldable pub reload :
        (Outcome (Unit {0}) × Cleaner) × World → (Outcome (Unit {0}) × Cleaner) × World
    reload ((err e, c), w) = ((err e, c), w)
    reload ((panic, c), w) = ((panic, c), w)
    reload ((ok u, c), w) = elim (get_cleaner c.name w) [
      | found c' ↦ ((ok tt, c'), w)
      | missing e ↦ ((err e, c), w)
      | unreadable e ↦ ((err e, c), w)
    ]

    -- `addFinalizer`: the outcome and the object in memory
    unfoldable pub add_finalizer : Cleaner → String → World → (Outcome (Unit {0}) × Cleaner) × World
    unfolding reload
    add_finalizer c name w =
        if contains_finalizer c.finalizers name
        then ((ok tt, c), w)
        else reload (update_cleaner (record c { finalizers = add c.finalizers name }) w)

    abbrev pub after_delete : Outcome (Unit {0}) × World → Outcome (Unit {0}) × World
    after_delete (ok u, w) = (err (errorf "report instance still present"), w)
    after_delete (err e, w) = (err e, w)
    after_delete (panic, w) = (panic, w)

    -- `removeReport`
    unfoldable pub remove_report : Cleaner → World → Outcome (Unit {0}) × World
    remove_report c w = elim (get_report c.name w) [
      | missing e ↦ (ok tt, w)
      | unreadable e ↦ (err e, w)
      | found report ↦ after_delete (delete_report report w)
    ]

    unfoldable pub finish_delete : Cleaner → Manager → Outcome (Unit {0}) × World → Reconciled World
    unfolding drop_finalizer
    finish_delete c m (ok u, w) = record {
      cleaner = drop_finalizer cleaner_finalizer c;
      manager = m;
      world = w;
      result = ok none;
    }
    finish_delete c m (err e, w) = record { cleaner = c; manager = m; world = w; result = err e }
    finish_delete c m (panic, w) = record { cleaner = c; manager = m; world = w; result = panic }

    -- `reconcileDelete`
    unfoldable pub reconcile_delete : Cleaner → Manager → World → Reconciled World
    unfolding finish_delete remove_report remove_entries
    reconcile_delete c m w = finish_delete c (remove_queued_jobs c m) (remove_report c w)
