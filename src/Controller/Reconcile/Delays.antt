-- ===== src/Controller/Reconcile/Delays.antt =====
-- The delays until a start time, and which results of a reconciliation ask for one.
use k8s_cleaner.Common.{
  String, Bool, true, false, ◌≡◌, refl, sym, ◌∙◌, ap, subst, inl, inr, Option, none, some, GoError,
  wrapf, Outcome, ok, err, panic, Outcome-cases, if◌then◌else◌, arith,
}
use k8s_cleaner.Common.Int.{ℤ, ◌-ℤ◌, saturate}
use k8s_cleaner.Api.{Time, Cleaner, CleanerSpec}
use k8s_cleaner.Executor.Manager.{
  Manager, Result, unavailable, processed, in_progress, failed, get_result,
}
use k8s_cleaner.Controller.Schedule.{Next, Scheduled, get_next_schedule_time, schedule}
use k8s_cleaner.Controller.Schedule.Missed.{next_schedule_time-eq}
use k8s_cleaner.Controller.Scope.{Server}
use k8s_cleaner.Controller.Reconcile.{Clock, record_result, with_finalizer, after_schedule, consult}
use k8s_cleaner.Controller.Finalizers.{Finalizers}

ok_of_if : (b : Bool) (x : GoError) (t u : Time) → (if b then err x else ok t) ≡ ok u → u ≡ t
ok_of_if true x t u e = cc
ok_of_if false x t u e = cc

next-eq-ok :
    (parse : String → Outcome Next) (c : Cleaner) (now t : Time)
    → get_next_schedule_time parse c now ≡ ok t
    → (next : Next) × (parse c.spec.schedule ≡ ok next) × (t ≡ next now)
unfolding get_next_schedule_time
next-eq-ok parse c now t e = elim (Outcome-cases (parse c.spec.schedule)) [
  | inl (next, p) ↦
      (next, p, ok_of_if _ _ (next now) t (sym (next_schedule_time-eq parse next c now p) ∙ e))
  | inr (inl (x, p)) ↦
      let q : get_next_schedule_time parse c now ≡ err (wrapf "unparseable schedule" x) =
        rw (p, get_next_schedule_time) refl in
      absurd (cc (sym q ∙ e))
  | inr (inr p) ↦
      let q : get_next_schedule_time parse c now ≡ panic = rw (p, get_next_schedule_time) refl in
      absurd (cc (sym q ∙ e))
]

pub schedule-result :
    (parse : String → Outcome Next) (m : Manager) (c : Cleaner) (j : ℤ) (now check : Time)
    → (schedule parse m c j now check).result ≡ get_next_schedule_time parse c now
unfolding schedule
schedule-result parse m c j now check = ground arith

record_result-spec : (r : Result) (c : Cleaner) → (record_result r c).spec ≡ c.spec
unfolding record_result
record_result-spec r c =
    elim r.result_status
      as (λ t. (record_result (record r { result_status = t }) c).spec ≡ c.spec) [
        | unavailable ↦ refl
        | processed ↦ refl
        | in_progress ↦ refl
        | failed ↦ refl
      ]

-- What holds of the argument of a result that asks for a requeue.
unfoldable pub Asks : (ℤ → Type 0) → Outcome (Option ℤ) → Type 0
Asks p (ok (some d)) = p d
Asks p (ok none) = Unit
Asks p (err e) = Unit
Asks p panic = Unit

pub Asks-map :
    {p q : ℤ → Type 0} (r : Outcome (Option ℤ)) → ((d : ℤ) → p d → q d) → Asks p r → Asks q r
unfolding Asks
Asks-map (ok (some d)) h a = h d a
Asks-map (ok none) h a = tt
Asks-map (err e) h a = tt
Asks-map panic h a = tt

module _ (parse : String → Outcome Next) (clock : Clock) where
  -- A delay that ends at the start time of the cleaner after the reading of the clock by `schedule`.
  pub record Waits (used : Cleaner) (d : ℤ) : Type 0 where
    pub next : Next
    pub parsed : parse used.spec.schedule ≡ ok next
    pub until : d ≡ saturate (next clock.scheduling -ℤ clock.started)

  requeue_of : Outcome Time → Outcome (Option ℤ)
  requeue_of (ok t) = ok (some (saturate (t -ℤ clock.started)))
  requeue_of (err e) = err e
  requeue_of panic = panic

  after_schedule-result :
      {World : Type 0} (w : World) (x : Scheduled) (r : Outcome Time)
      → x.result ≡ r
      → (after_schedule clock.started w x).result ≡ requeue_of r
  unfolding after_schedule requeue_of
  after_schedule-result w x (ok t) e = rw e refl
  after_schedule-result w x (err y) e = rw e refl
  after_schedule-result w x panic e = rw e refl

  requeue_of-Asks :
      (c : Cleaner) (r : Outcome Time)
      → get_next_schedule_time parse c clock.scheduling ≡ r
      → Asks (Waits c) (requeue_of r)
  unfolding requeue_of Asks
  requeue_of-Asks c (ok t) e =
      let (next, p, u) = next-eq-ok parse c clock.scheduling t e in
      record { next = next; parsed = p; until = ap (λ (x : Time). saturate (x -ℤ clock.started)) u }
  requeue_of-Asks c (err y) e = tt
  requeue_of-Asks c panic e = tt

  Waits-spec : (c c' : Cleaner) (d : ℤ) → c'.spec ≡ c.spec → Waits c' d → Waits c d
  Waits-spec c c' d e h = record {
    next = h.next;
    parsed = subst (λ (x : CleanerSpec). parse x.schedule ≡ ok h.next) e h.parsed;
    until = h.until;
  }

module _ (f : Finalizers) {World : Type 0} (s : Server World) (parse : String → Outcome Next)
    (jitter : ℤ) (others : Manager → Manager) (clock : Clock) where
  consult-Asks :
      (c : Cleaner) (m : Manager) (w : World)
      → Asks (Waits parse clock c) (consult f s parse jitter others clock c m w).result
  unfolding consult
  consult-Asks c m w =
      let recorded = record_result (get_result m c.name).0 c in
      Asks-map _
        (λ d. Waits-spec parse clock c recorded d (record_result-spec (get_result m c.name).0 c))
        (subst (Asks (Waits parse clock recorded))
          (sym (
            after_schedule-result parse clock w _ _
              (schedule-result parse _ _ jitter clock.scheduling clock.deciding)))
          (requeue_of-Asks parse clock recorded _ refl))

  abbrev pub Uses : (Cleaner → Type 0) → ℤ → Type 0
  Uses used d = (c : Cleaner) × used c × Waits parse clock c d

  pub with_finalizer-Asks :
      (used : Cleaner → Type 0) (m : Manager) (p : (Outcome (Unit {0}) × Cleaner) × World)
      → (p.0.0 ≡ ok tt → used p.0.1)
      → Asks (Uses used) (with_finalizer f s parse jitter others clock m p).result
  unfolding Asks with_finalizer
  with_finalizer-Asks used m ((ok u, c), w) h =
      Asks-map {p = Waits parse clock c} {q = Uses used} _ (λ d a. (c, h refl, a))
        (consult-Asks c m w)
  with_finalizer-Asks used m ((err e, c), w) h = tt
  with_finalizer-Asks used m ((panic, c), w) h = tt
