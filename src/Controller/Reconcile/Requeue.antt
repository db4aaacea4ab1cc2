-- ===== src/Controller/Reconcile/Requeue.antt =====
-- When a reconciliation asks to be called again, and until when.
use k8s_cleaner.Common.{
  String, true, false, ◌≡◌, refl, sym, ap, subst, inl, inr, ◌⊎◌, Bool-cases, Option, none, some,
  Outcome, ok, err, panic, arith,
}
use k8s_cleaner.Common.Int.{ℤ, pos, ◌-ℤ◌, ◌≤ℤ◌, ◌<ℤ◌, saturate, int_laws}
use k8s_cleaner.Api.{Time, Cleaner}
use k8s_cleaner.Executor.Manager.{Manager}
use k8s_cleaner.Executor.Services.{Got, found, missing, unreadable}
use k8s_cleaner.Controller.Schedule.{Next}
use k8s_cleaner.Controller.Scope.{Server, CleanerScope}
use k8s_cleaner.Controller.Reconcile.{
  Clock, after_close, reconcile_normal, reconcile_found, close_scope, reconcile_scoped, reconcile,
}
use k8s_cleaner.Controller.Finalizers.{
  Finalizers, Reconciled, cleaner_finalizer, drop_finalizer, remove_old_finalizer, reload,
  add_finalizer, finish_delete, reconcile_delete,
}
use k8s_cleaner.Controller.Reconcile.Delays.{Waits, Asks, Asks-map, Uses, with_finalizer-Asks}

saturate-pos : (z : ℤ) → pos 0 <ℤ z → pos 0 <ℤ saturate z
unfolding saturate
saturate-pos z h = ground arith

module _ (f : Finalizers) {World : Type 0} (s : Server World) (parse : String → Outcome Next)
    (jitter : ℤ) (others : Manager → Manager) (clock : Clock) where
  open f use {contains_finalizer, add}
  open s use {get_cleaner, update_cleaner}

  old-spec : (c : Cleaner) → (remove_old_finalizer f c).spec ≡ c.spec
  unfolding remove_old_finalizer drop_finalizer
  old-spec c = ground arith

  -- The cleaner with its finalizer, for the update.
  abbrev pub with_added : Cleaner → Cleaner
  with_added c =
      let old = remove_old_finalizer f c in
      record old { finalizers = add old.finalizers cleaner_finalizer }

  -- The cleaner whose schedule counts, when `c` was read in the world `w`: itself, as far as its spec
  -- goes, or what was read back after the finalizer was added to it.
  pub data Read (c : Cleaner) (w : World) : Cleaner → Type 0 where
    had_finalizer :
        {used : Cleaner}
        → contains_finalizer (remove_old_finalizer f c).finalizers cleaner_finalizer ≡ true
        → used.spec ≡ c.spec
        → Read c w used
    read_back :
        {c' used : Cleaner} {w' : World} {u : Unit {0}}
        → contains_finalizer (remove_old_finalizer f c).finalizers cleaner_finalizer ≡ false
        → update_cleaner (with_added c) w ≡ ((ok u, c'), w')
        → get_cleaner c'.name w' ≡ found used
        → Read c w used

  pub record Requeues (c : Cleaner) (w : World) (d : ℤ) : Type 0 where
    pub alive : c.deletion_timestamp ≡ none
    pub used : Cleaner
    pub read : Read c w used
    pub waits : Waits parse clock used d

  reload-found :
      (p : (Outcome (Unit {0}) × Cleaner) × World) (g : Got Cleaner)
      → get_cleaner p.0.1.name p.1 ≡ g
      → (reload f s p).0.0 ≡ ok tt
      → (p.0.0 ≡ ok tt) × (g ≡ found (reload f s p).0.1)
  unfolding reload
  reload-found ((ok u, c), w) (found c') e = rw (e, reload) (λ h. (refl, refl))
  reload-found ((ok u, c), w) (missing x) e = rw (e, reload) (λ h. absurd (cc h))
  reload-found ((ok u, c), w) (unreadable x) e = rw (e, reload) (λ h. absurd (cc h))
  reload-found ((err x, c), w) g e = λ h. absurd (cc h)
  reload-found ((panic, c), w) g e = λ h. absurd (cc h)

  add_finalizer-Read :
      (c : Cleaner) (w : World)
      → let p = add_finalizer f s (remove_old_finalizer f c) cleaner_finalizer w in
        p.0.0 ≡ ok tt → Read c w p.0.1
  unfolding add_finalizer
  add_finalizer-Read c w =
      let old = remove_old_finalizer f c in
      let sent = update_cleaner (with_added c) w in
      elim (Bool-cases (contains_finalizer old.finalizers cleaner_finalizer)) [
        | inl e ↦ rw e (λ h. had_finalizer e (old-spec c))
        | inr e ↦ rw e (λ h.
            let (updated, got) = reload-found sent _ refl h in
            read_back e (ap (λ o. ((o, sent.0.1), sent.1)) updated) got)
      ]

  finish_delete-Asks :
      (p : ℤ → Type 0) (c : Cleaner) (m : Manager) (r : Outcome (Unit {0}) × World)
      → Asks p (finish_delete f s c m r).result
  unfolding Asks finish_delete
  finish_delete-Asks p c m (ok u, w) = tt
  finish_delete-Asks p c m (err e, w) = tt
  finish_delete-Asks p c m (panic, w) = tt

  found-Asks :
      (c : Cleaner) (m : Manager) (w : World)
      → Asks (Requeues c w) (reconcile_found f s parse jitter others clock c m w).result
  unfolding reconcile_found reconcile_normal reconcile_delete
  found-Asks c m w = go c.deletion_timestamp refl
    where
      go :
          (t : Option Time)
          → c.deletion_timestamp ≡ t
          → Asks
              (Requeues c w)
              (elim t as (λ _. Reconciled World) [
                | some d ↦ reconcile_delete f s c m w
                | none ↦ reconcile_normal f s parse jitter others clock c m w
              ]).result
      go (some d) e = finish_delete-Asks (Requeues c w) c _ _
      go none e =
          Asks-map {p = Uses f s parse jitter others clock (Read c w)} {q = Requeues c w} _
            (λ d a. record { alive = e; used = a.0; read = a.1; waits = a.2 })
            (with_finalizer-Asks f s parse jitter others clock (Read c w) m _
              (add_finalizer-Read c w))

  after_close-Asks :
      (p : ℤ → Type 0) (r : Outcome (Option ℤ)) (closed : Outcome (Unit {0}))
      → Asks p r
      → Asks p (after_close f s parse jitter others r closed)
  unfolding Asks
  after_close-Asks p r (ok u) a = a
  after_close-Asks p panic (err e) a = tt
  after_close-Asks p (ok r) (err e) a = tt
  after_close-Asks p (err e') (err e) a = tt
  after_close-Asks p r panic a = tt

  scoped-Asks :
      (m : Manager) (w : World) (c : Cleaner) (o : Outcome (CleanerScope s))
      → Asks (Requeues c w) (reconcile_scoped f s parse jitter others clock m w c o).result
  unfolding reconcile_scoped close_scope
  scoped-Asks m w c (ok scope) = after_close-Asks _ _ _ (found-Asks c m w)
  scoped-Asks m w c (err e) = unfold Asks in tt
  scoped-Asks m w c panic = unfold Asks in tt

  -- The cleaner was read, and the delay is until its next start time.
  abbrev Reads : String → World → ℤ → Type 0
  Reads name w d = (c : Cleaner) × (get_cleaner name w ≡ found c) × Requeues c w d

  reconcile-Asks :
      (name : String) (m : Manager) (w : World)
      → Asks (Reads name w) (reconcile f s parse jitter others clock name m w).0
  unfolding reconcile Asks
  reconcile-Asks name m w = go (s.get_cleaner name w) refl
    where
      go :
          (g : Got Cleaner)
          → s.get_cleaner name w ≡ g
          → Asks (Reads name w) (reconcile f s parse jitter others clock name m w).0
      go (found c) g =
          rw (g, reconcile)
            (Asks-map {p = Requeues c w} {q = Reads name w} _ (λ d a. (c, g, a))
              (scoped-Asks m w c _))
      go (missing e) g = rw (g, reconcile, Asks) tt
      go (unreadable e) g = rw (g, reconcile, Asks) tt

  -- A reconciliation that asks to be called again has read a cleaner that is not being deleted, and
  -- does so at the next start time of its schedule, or of the schedule that was read back after the
  -- finalizer was added, counted from the beginning of the reconciliation. The delay is positive,
  -- unless the cron library answered with the zero time, which it documents for a schedule that has
  -- no next start time; the clock does not go back meanwhile.
  pub requeue_positive :
      (zero_time : Time)
      → ((text : String) (next : Next)
          → parse text ≡ ok next
          → (t : Time) → (t <ℤ next t) ⊎ (next t ≡ zero_time))
      → clock.started ≤ℤ clock.scheduling
      → (name : String) (m : Manager) (w : World) (d : ℤ)
      → (reconcile f s parse jitter others clock name m w).0 ≡ ok (some d)
      → (c : Cleaner) × (get_cleaner name w ≡ found c)
        × (r : Requeues c w d) × ((pos 0 <ℤ d) ⊎ (r.waits.next clock.scheduling ≡ zero_time))
  unfolding Asks
  requeue_positive zero_time starts forward name m w d e =
      let (c, g, r) = subst (Asks (Reads name w)) e (reconcile-Asks name m w) in
      (
        c,
        g,
        r,
        elim (starts r.used.spec.schedule r.waits.next r.waits.parsed clock.scheduling) [
          | inl grows ↦ inl (
              subst (λ (z : ℤ). pos 0 <ℤ z) (sym r.waits.until)
                (saturate-pos (r.waits.next clock.scheduling -ℤ clock.started)
                  (omega (int_laws, grows))))
          | inr never ↦ inr never
        ],
      )
