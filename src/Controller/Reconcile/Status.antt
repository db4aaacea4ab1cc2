-- ===== src/Controller/Reconcile/Status.antt =====
-- What a reconciliation leaves in the status of a cleaner.
use k8s_cleaner.Common.{
  String, Bool, true, false, ◌||◌, ◌≡◌, ap, refl, ◌∙◌, Option, none, some, GoError, error_text,
  Outcome, ok, err, panic, contains, lookup, arith,
}
use k8s_cleaner.Common.Int.{ℤ}
use k8s_cleaner.Api.{Time, Cleaner}
use k8s_cleaner.Executor.Manager.{Manager, Result, get_result}
use k8s_cleaner.Executor.Manager.Status.{answer, get_result-answer}
use k8s_cleaner.Controller.Schedule.{
  Next, Scheduled, get_next_schedule_time, earliest_time, schedule,
}
use k8s_cleaner.Controller.Scope.{Server, set_failure_message}
use k8s_cleaner.Controller.Reconcile.{
  Clock, record_result, after_schedule, consult, with_finalizer, reconcile_normal,
}
use k8s_cleaner.Controller.Finalizers.{
  Finalizers, cleaner_finalizer, remove_old_finalizer, add_finalizer,
}
use k8s_cleaner.Controller.Reconcile.Delays.{schedule-result}

-- The message by the stored result of the cleaner, if any, and by whether it is served or queued.
pub recorded : Option (Option GoError) → Bool → Option String → Option String
recorded (some none) busy old = none
recorded (some (some e)) busy old = some (error_text e)
recorded none true old = none
recorded none false old = old

-- The failure message for the end of a run.
abbrev pub message_for : Option GoError → Option String
message_for none = none
message_for (some e) = some (error_text e)

pub recorded-some :
    (err : Option GoError) (busy : Bool) (old : Option String)
    → recorded (some err) busy old ≡ message_for err
unfolding recorded
recorded-some none busy old = refl
recorded-some (some e) busy old = refl

-- An error of the schedule takes the place of the message.
pub overruled : Outcome Time → Option String → Option String
overruled (ok t) message = message
overruled (err e) message = some (error_text e)
overruled panic message = message

pub record_result-answer :
    (r : Option (Option GoError)) (busy : Bool) (c : Cleaner)
    → record_result (answer r busy) c
      ≡ set_failure_message (recorded r busy c.status.failure_message) c
unfolding record_result recorded answer
record_result-answer (some none) busy c = refl
record_result-answer (some (some e)) busy c = refl
record_result-answer none true c = refl
record_result-answer none false c = refl

record_result-recorded :
    (r : Option (Option GoError)) (busy : Bool) (c : Cleaner)
    → (record_result (answer r busy) c).status.failure_message
      ≡ recorded r busy c.status.failure_message
unfolding set_failure_message
record_result-recorded r busy c =
    ap (λ (d : Cleaner). d.status.failure_message) (record_result-answer r busy c)

record_result-keeps :
    (parse : String → Outcome Next) (r : Result) (c : Cleaner) (now : Time)
    → get_next_schedule_time parse (record_result r c) now ≡ get_next_schedule_time parse c now
unfolding record_result get_next_schedule_time earliest_time
record_result-keeps parse r c now = ground arith

schedule-keeps_message :
    (parse : String → Outcome Next) (m : Manager) (c : Cleaner) (j : ℤ) (now check : Time)
    → (schedule parse m c j now check).cleaner.status.failure_message ≡ c.status.failure_message
unfolding schedule
schedule-keeps_message parse m c j now check = ground arith

after_schedule-overruled :
    {World : Type 0} (started : Time) (w : World) (x : Scheduled) (r : Outcome Time)
    → x.result ≡ r
    → (after_schedule started w x).cleaner.status.failure_message
      ≡ overruled r x.cleaner.status.failure_message
unfolding after_schedule overruled
after_schedule-overruled started w x (ok t) e = rw e refl
after_schedule-overruled started w x (err y) e = rw e refl
after_schedule-overruled started w x panic e = rw e refl

module _ (f : Finalizers) {World : Type 0} (s : Server World) (parse : String → Outcome Next)
    (jitter : ℤ) (others : Manager → Manager) (clock : Clock) where
  consult-message :
      (c : Cleaner) (m : Manager) (w : World)
      → (consult f s parse jitter others clock c m w).cleaner.status.failure_message
        ≡ overruled (get_next_schedule_time parse c clock.scheduling) (
            recorded
              (lookup c.name m.results)
              (contains m.in_progress c.name || contains m.job_queue c.name)
              c.status.failure_message)
  unfolding consult
  consult-message c m w =
      let r = (get_result m c.name).0 in
      after_schedule-overruled clock.started w _ _
        (schedule-result parse _ (record_result r c) jitter clock.scheduling clock.deciding)
      ∙ rw
          (
            record_result-keeps parse r c clock.scheduling,
            schedule-keeps_message parse (others (get_result m c.name).1) (record_result r c) jitter
                clock.scheduling clock.deciding,
            get_result-answer m c.name,
            record_result-recorded (lookup c.name m.results)
                (contains m.in_progress c.name || contains m.job_queue c.name) c,
          )
          refl

  normal-consult :
      (c : Cleaner) (m : Manager) (w : World)
      → f.contains_finalizer (remove_old_finalizer f c).finalizers cleaner_finalizer ≡ true
      → reconcile_normal f s parse jitter others clock c m w
        ≡ consult f s parse jitter others clock (remove_old_finalizer f c) m w
  unfolding reconcile_normal add_finalizer with_finalizer
  normal-consult c m w e = rw e refl

  -- The failure message after a reconciliation of a cleaner that has its finalizer, and is not being
  -- deleted: the text of the error of the last run, if the executor holds such a result; none, if it
  -- holds a result without an error, or has none yet for a run that waits or is under way; and the
  -- old message, if the executor knows of no run. An error of the schedule takes its place in each
  -- case.
  pub failure_message_reports :
      (c : Cleaner) (m : Manager) (w : World)
      → f.contains_finalizer (remove_old_finalizer f c).finalizers cleaner_finalizer ≡ true
      → let c' = remove_old_finalizer f c in
        (reconcile_normal f s parse jitter others clock c m w).cleaner.status.failure_message
        ≡ overruled (get_next_schedule_time parse c' clock.scheduling) (
            recorded
              (lookup c'.name m.results)
              (contains m.in_progress c'.name || contains m.job_queue c'.name)
              c'.status.failure_message)
  failure_message_reports c m w e =
      rw (normal-consult c m w e) (consult-message (remove_old_finalizer f c) m w)
