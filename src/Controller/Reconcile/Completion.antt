-- ===== src/Controller/Reconcile/Completion.antt =====
-- The deletion of a cleaner from its first reconciliation to the one that removes the finalizer.
use k8s_cleaner.Common.{
  String, false, ◌≡◌, refl, Option, none, some, GoError, errorf, Outcome, ok, err,
}
use k8s_cleaner.Common.Int.{ℤ}
use k8s_cleaner.Api.{Cleaner, Time}
use k8s_cleaner.Executor.Manager.{Manager, remove_entries}
use k8s_cleaner.Executor.Services.{found, missing}
use k8s_cleaner.Controller.Scope.{Server, close, new_cleaner_scope}
use k8s_cleaner.Controller.Reconcile.{Clock, reconcile, reconcile_scoped, close_scope, after_close}
use k8s_cleaner.Controller.Finalizers.{
  Finalizers, Reconciled, cleaner_finalizer, drop_finalizer, reconcile_delete,
}
use k8s_cleaner.Controller.Schedule.{Next}
use k8s_cleaner.Controller.Reconcile.Deletion.{
  Removes, drop_finalizer-gone, drop_finalizer-rest, delete-missing, delete-present,
  reconcile_found-delete,
}

module _ (f : Finalizers) {World : Type 0} (s : Server World) (parse : String → Outcome Next)
    (jitter : ℤ) (others : Manager → Manager) where
  -- What a reconciliation returns and leaves, after `reconcileDelete`.
  written_back : s.Helper → Reconciled World → Outcome (Option ℤ) × Manager × World
  written_back helper r =
      let (patched, w) = s.patch helper r.cleaner r.world in
      (after_close f s parse jitter others r.result patched, r.manager, w)

  reconcile-delete :
      (clock : Clock) (name : String) (m : Manager) (w : World) (c : Cleaner) (t : Time)
      (helper : s.Helper)
      → s.get_cleaner name w ≡ found c
      → c.deletion_timestamp ≡ some t
      → s.new_helper c s.client ≡ ok helper
      → reconcile f s parse jitter others clock name m w
        ≡ written_back helper (reconcile_delete f s c m w)
  unfolding written_back reconcile reconcile_scoped close_scope close new_cleaner_scope
  reconcile-delete clock name m w c t helper g d h =
      rw (g, h, reconcile, new_cleaner_scope)
        (rw (reconcile_found-delete f s parse jitter others clock c m w t d) refl)

  -- A cleaner that is being deleted, and whose report is there, loses its finalizer in two reconciliations. The
  -- first one deletes the report and returns an error, so that there is another; it writes the
  -- cleaner back as it was read. The next one that finds the report missing writes the cleaner back
  -- without the finalizer, and with all else as it was read, and returns no error unless that write
  -- does. Each takes the cleaner out of the executor as `RemoveEntries` does. The cleaner is there
  -- each time, its patch helper can be made, the report can be deleted, and the first write
  -- succeeds; a finalizer that is removed is gone.
  pub deletion_completes :
      Removes f
      → (clock clock' : Clock) (name : String) (m m' : Manager) (w w' w₁ w₂ : World) (c : Cleaner)
        (t : Time) (helper : s.Helper) (report : s.Report) (u u' : Unit {0}) (e : GoError)
      → c.deletion_timestamp ≡ some t
      → s.new_helper c s.client ≡ ok helper
      → s.get_cleaner name w ≡ found c
      → s.get_report c.name w ≡ found report
      → s.delete_report report w ≡ (ok u, w')
      → s.patch helper c w' ≡ (ok u', w₁)
      → s.get_cleaner name w₂ ≡ found c
      → s.get_report c.name w₂ ≡ missing e
      → let first = reconcile f s parse jitter others clock name m w in
        let second = reconcile f s parse jitter others clock' name m' w₂ in
        let released = drop_finalizer f cleaner_finalizer c in
        (first ≡ (err (errorf "report instance still present"), remove_entries m c.name, w₁))
        × (second.0 ≡ after_close f s parse jitter others (ok none) (s.patch helper released w₂).0)
        × (second.1 ≡ remove_entries m' c.name)
        × (second.2 ≡ (s.patch helper released w₂).1)
        × (f.contains_finalizer released.finalizers cleaner_finalizer ≡ false)
        × (record released { finalizers = c.finalizers } ≡ c)
  unfolding written_back
  deletion_completes removes clock clock' name m m' w w' w₁ w₂ c t helper report u u' e d h g r x p
        g' r' =
      (
        rw
            (
              reconcile-delete clock name m w c t helper g d h,
              delete-present f s m c w w' report u r x,
              written_back,
              p,
            )
            refl,
        rw (reconcile-delete clock' name m' w₂ c t helper g' d h, delete-missing f s m' c w₂ e r')
            refl,
        rw (reconcile-delete clock' name m' w₂ c t helper g' d h, delete-missing f s m' c w₂ e r')
            refl,
        rw (reconcile-delete clock' name m' w₂ c t helper g' d h, delete-missing f s m' c w₂ e r')
            refl,
        drop_finalizer-gone f removes cleaner_finalizer c,
        drop_finalizer-rest f cleaner_finalizer c,
      )
