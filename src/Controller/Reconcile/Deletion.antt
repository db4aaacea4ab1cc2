-- ===== src/Controller/Reconcile/Deletion.antt =====
-- The reconciliation of a cleaner that is being deleted: its report goes first, its finalizer last.
use k8s_cleaner.Common.{
  String, false, Bool-cases, ◌≡◌, ◌≢◌, refl, ap, inl, inr, none, some, List, GoError, errorf,
  Outcome, ok, err, panic,
}
use k8s_cleaner.Common.Int.{ℤ}
use k8s_cleaner.Api.{Cleaner, Time}
use k8s_cleaner.Executor.Manager.{Manager, remove_entries}
use k8s_cleaner.Executor.Services.{Got, found, missing, unreadable}
use k8s_cleaner.Controller.Scope.{Server, close, new_cleaner_scope}
use k8s_cleaner.Controller.Reconcile.{
  Clock, reconcile, reconcile_scoped, reconcile_found, close_scope,
}
use k8s_cleaner.Controller.Finalizers.{
  Finalizers, Reconciled, cleaner_finalizer, drop_finalizer, remove_report, reconcile_delete,
}
use k8s_cleaner.Controller.Schedule.{Next}

-- What controllerutil documents: a finalizer that was removed is not there.
abbrev pub Removes : Finalizers → Type 0
Removes f =
    (names : List String) (name : String) → f.contains_finalizer (f.remove names name) name ≡ false

-- What the API documents: after a deletion that succeeds, an object without finalizers of its own,
-- as a report is, is not found.
abbrev DeletesReports : {World : Type 0} → Server World → Type 0
DeletesReports {World} s =
    (name : String) (report : s.Report) (w w' : World) (u : Unit {0})
    → s.get_report name w ≡ found report
    → s.delete_report report w ≡ (ok u, w')
    → (e : GoError) × (s.get_report name w' ≡ missing e)

pub drop_finalizer-gone :
    (f : Finalizers)
    → Removes f
    → (name : String) (c : Cleaner)
    → f.contains_finalizer (drop_finalizer f name c).finalizers name ≡ false
unfolding drop_finalizer
drop_finalizer-gone f removes name c = elim (Bool-cases (f.contains_finalizer c.finalizers name)) [
  | inl e ↦ rw e (removes c.finalizers name)
  | inr e ↦ rw e e
]

pub drop_finalizer-rest :
    (f : Finalizers) (name : String) (c : Cleaner)
    → record (drop_finalizer f name c) { finalizers = c.finalizers } ≡ c
unfolding drop_finalizer
drop_finalizer-rest f name c = elim (Bool-cases (f.contains_finalizer c.finalizers name)) [
  | inl e ↦ rw e refl
  | inr e ↦ rw e refl
]

module _ (f : Finalizers) {World : Type 0} (s : Server World) (m : Manager) where
  -- The outcomes of a reconciliation, by what the server answers for the report.
  pub delete-missing :
      (c : Cleaner) (w : World) (e : GoError)
      → s.get_report c.name w ≡ missing e
      → reconcile_delete f s c m w ≡ record {
        cleaner = drop_finalizer f cleaner_finalizer c;
        manager = remove_entries m c.name;
        world = w;
        result = ok none;
      }
  unfolding reconcile_delete remove_report
  delete-missing c w e g = rw (g, reconcile_delete, remove_report) refl

  pub delete-present :
      (c : Cleaner) (w w' : World) (report : s.Report) (u : Unit {0})
      → s.get_report c.name w ≡ found report
      → s.delete_report report w ≡ (ok u, w')
      → reconcile_delete f s c m w ≡ record {
        cleaner = c;
        manager = remove_entries m c.name;
        world = w';
        result = err (errorf "report instance still present");
      }
  unfolding reconcile_delete remove_report
  delete-present c w w' report u g d = rw (g, d, reconcile_delete, remove_report) refl

  delete-unreadable :
      (c : Cleaner) (w : World) (e : GoError)
      → s.get_report c.name w ≡ unreadable e
      → (reconcile_delete f s c m w).cleaner ≡ c
  unfolding reconcile_delete remove_report
  delete-unreadable c w e g = rw (g, reconcile_delete, remove_report) refl

  delete-found :
      (c : Cleaner) (w : World) (report : s.Report) (r : Outcome (Unit {0}) × World)
      → s.get_report c.name w ≡ found report
      → s.delete_report report w ≡ r
      → (reconcile_delete f s c m w).cleaner ≡ c
  unfolding reconcile_delete remove_report
  delete-found c w report (ok u, w') g d = rw (g, d, reconcile_delete, remove_report) refl
  delete-found c w report (err e, w') g d = rw (g, d, reconcile_delete, remove_report) refl
  delete-found c w report (panic, w') g d = rw (g, d, reconcile_delete, remove_report) refl

  keeps_finalizers :
      (c : Cleaner) (w : World)
      → ((e : GoError) → s.get_report c.name w ≢ missing e)
      → (reconcile_delete f s c m w).cleaner ≡ c
  keeps_finalizers c w there = go (s.get_report c.name w) refl
    where
      go : (g : Got s.Report) → s.get_report c.name w ≡ g → (reconcile_delete f s c m w).cleaner ≡ c
      go (found report) g = delete-found c w report (s.delete_report report w) g refl
      go (missing e) g = absurd (there e g)
      go (unreadable e) g = delete-unreadable c w e g

  pub delete-world :
      (c : Cleaner) (w : World) (r : Outcome (Unit {0}) × World)
      → remove_report f s c w ≡ r
      → ((reconcile_delete f s c m w).world ≡ r.1)
        × ((reconcile_delete f s c m w).manager ≡ remove_entries m c.name)
  unfolding reconcile_delete
  delete-world c w (ok u, w') e = (rw (e, reconcile_delete) refl, rw (e, reconcile_delete) refl)
  delete-world c w (err x, w') e = (rw (e, reconcile_delete) refl, rw (e, reconcile_delete) refl)
  delete-world c w (panic, w') e = (rw (e, reconcile_delete) refl, rw (e, reconcile_delete) refl)

module _ (f : Finalizers) {World : Type 0} (s : Server World) (m : Manager) where
  -- `reconcileDelete` that deletes the report returns an error, and changes nothing else in the world;
  -- the next one is then done: it finds no report, removes the finalizer and nothing else, changes
  -- nothing in the world, and returns no error. A finalizer that is removed is gone, and so is a
  -- report after a deletion that succeeds.
  second_deletion_finishes :
      Removes f
      → DeletesReports s
      → (c : Cleaner) (m' : Manager) (w w' : World) (report : s.Report) (u : Unit {0})
      → s.get_report c.name w ≡ found report
      → s.delete_report report w ≡ (ok u, w')
      → ((reconcile_delete f s c m w).result ≡ err (errorf "report instance still present"))
        × ((reconcile_delete f s c m w).world ≡ w')
        × (let r = reconcile_delete f s c m' w' in
            (r.result ≡ ok none)
            × (r.world ≡ w')
            × (f.contains_finalizer r.cleaner.finalizers cleaner_finalizer ≡ false)
            × (record r.cleaner { finalizers = c.finalizers } ≡ c))
  second_deletion_finishes removes deletes c m' w w' report u g d =
      let (e, gone) = deletes c.name report w w' u g d in
      (
        ap (λ (r : Reconciled World). r.result) (delete-present f s m c w w' report u g d),
        ap (λ (r : Reconciled World). r.world) (delete-present f s m c w w' report u g d),
        rw (delete-missing f s m' c w' e gone) (
          refl,
          refl,
          drop_finalizer-gone f removes cleaner_finalizer c,
          drop_finalizer-rest f cleaner_finalizer c,
        ),
      )

pub reconcile_found-delete :
    (f : Finalizers) {World : Type 0} (s : Server World) (parse : String → Outcome Next)
    (jitter : ℤ) (others : Manager → Manager) (clock : Clock) (c : Cleaner) (m : Manager)
    (w : World) (t : Time)
    → c.deletion_timestamp ≡ some t
    → reconcile_found f s parse jitter others clock c m w ≡ reconcile_delete f s c m w
unfolding reconcile_found
reconcile_found-delete f s parse jitter others clock c m w t d = simp (d, reconcile_found)

-- A reconciliation of a cleaner that is being deleted writes it back as it was read, with all its
-- finalizers, if the server does not answer that its report is missing: also if the report cannot be
-- read or deleted, and if it has just been deleted. The manager is left as `RemoveEntries` leaves it,
-- and the world as `removeReport` and the final patch do. The cleaner is there, and its patch helper
-- can be made.
pub finalizer_outlives_report :
    (f : Finalizers) {World : Type 0} (s : Server World) (parse : String → Outcome Next)
    (jitter : ℤ) (others : Manager → Manager) (clock : Clock) (name : String) (m : Manager)
    (w : World) (c : Cleaner) (t : Time) (helper : s.Helper)
    → s.get_cleaner name w ≡ found c
    → c.deletion_timestamp ≡ some t
    → s.new_helper c s.client ≡ ok helper
    → ((e : GoError) → s.get_report c.name w ≢ missing e)
    → let r = reconcile f s parse jitter others clock name m w in
      (r.1 ≡ remove_entries m c.name) × (r.2 ≡ (s.patch helper c (remove_report f s c w).1).1)
unfolding reconcile reconcile_scoped reconcile_found close_scope close new_cleaner_scope
finalizer_outlives_report f s parse jitter others clock name m w c t helper g d h there =
    rw (g, h, reconcile, new_cleaner_scope)
      (rw
        (
          reconcile_found-delete f s parse jitter others clock c m w t d,
          keeps_finalizers f s m c w there,
        )
        (
          (delete-world f s m c w (remove_report f s c w) refl).1,
          rw (delete-world f s m c w (remove_report f s c w) refl).0 refl,
        ))
