-- ===== src/Tests/Reconcile.antt =====
-- Reconciliations of one cleaner: the API server holds it, and the names of the reports.
use k8s_cleaner.Common.{
  String, Bool, true, false, inl, inr, ◌⊎◌, Bool-cases, ◌≡◌, refl, ap, sym, ◌∙◌, eq_iff, subst,
  Option, none, some, List, [], ◌∷◌, ◌++◌, GoError, errorf, ok, err, contains, lookup, ◌||◌, ◌==◌,
  ◌*◌, if◌then◌else◌,
}
use k8s_cleaner.Common.Int.{pos, ◌+ℤ◌, ◌-ℤ◌, wrap64, scale, saturate, ◌<ℤ◌, int_laws}
use k8s_cleaner.Api.{Cleaner, Time}
use k8s_cleaner.Executor.Manager.{empty, process, get_result, remove_entries}
use k8s_cleaner.Executor.Services.{Got, found, missing}
use k8s_cleaner.Controller.Schedule.{
  Next, second, get_next_schedule_time, earliest_time, too_many_missed, should_schedule, schedule,
}
use k8s_cleaner.Controller.Schedule.Missed.{Later}
use k8s_cleaner.Controller.Scope.{Server}
use k8s_cleaner.Controller.Reconcile.{Clock, reconcile_normal, reconcile}
use k8s_cleaner.Controller.Finalizers.{
  Finalizers, cleaner_finalizer, drop_finalizer, remove_old_finalizer, remove_report,
}
use k8s_cleaner.Controller.Reconcile.Deletion.{Removes, finalizer_outlives_report}
use k8s_cleaner.Controller.Reconcile.Completion.{deletion_completes}
use k8s_cleaner.Controller.Reconcile.Requeue.{Requeues, requeue_positive}
use k8s_cleaner.Executor.Workers.{start, wake}
use k8s_cleaner.Controller.Reconcile.Pool.{Named, Made, meanwhile, reconcile_calls}
use k8s_cleaner.Controller.Reconcile.Due.{told, stamped, requests_when_due}
use k8s_cleaner.Controller.Reconcile.Status.{recorded, overruled, failure_message_reports}
use k8s_cleaner.Tests.World.{without}
use k8s_cleaner.Tests.Times.{at, every_minute, every_minute-Later, parse, nightly}

abbrev pub finalizers : Finalizers
finalizers = record {
  contains_finalizer = contains;
  add = λ names name. names ++ name ∷ [];
  remove = λ names name. without name names;
}

not_in_without : (name : String) (names : List String) → contains (without name names) name ≡ false
unfolding contains without
not_in_without name [] = refl
not_in_without name (n ∷ names) = elim (Bool-cases (n == name)) [
  | inl e ↦ rw e (not_in_without name names)
  | inr e ↦ rw (e, contains, e) (not_in_without name names)
]

finalizers-Removes : Removes finalizers
finalizers-Removes names name = not_in_without name names

abbrev pub World : Type 0
World = Option Cleaner × List String

abbrev gone : GoError
gone = errorf "not found"

abbrev there : String → Bool → Got String
there name b = if b then found name else missing gone

-- The cleaner, if it has the name.
abbrev named_so : Cleaner → Bool → Got Cleaner
named_so c b = if b then found c else missing gone

abbrev stored : String → Option Cleaner → Got Cleaner
stored name none = missing gone
stored name (some c) = named_so c (c.name == name)

abbrev pub server : Server World
server = record {
  Client = Unit;
  client = tt;
  get_cleaner = λ name w. stored name w.0;
  update_cleaner = λ c w. ((ok tt, c), (some c, w.1));
  Report = String;
  get_report = λ name w. there name (contains w.1 name);
  delete_report = λ report w. (ok tt, (w.0, without report w.1));
  Helper = Unit;
  new_helper = λ c client. ok tt;
  patch = λ helper c w. (ok tt, (some c, w.1));
}

-- The cleaner with its finalizer and another one, and the same when it is being deleted.
abbrev kept : Cleaner
kept = record nightly { finalizers = "backup" ∷ cleaner_finalizer ∷ [] }

abbrev leaving : Cleaner
leaving = record kept { deletion_timestamp = some (at 80) }

abbrev before : World
before = (some leaving, "nightly" ∷ [])

abbrev clock : Clock
clock = record { started = at 90; scheduling = at 90; deciding = at 90 }

deletion_completes_example :
    let first = reconcile finalizers server parse (pos 10) (λ m. m) clock "nightly" empty before in
    let second =
      reconcile finalizers server parse
        (pos 10)
        (λ m. m)
        clock
        "nightly"
        empty
        (some leaving, []) in
    let released = drop_finalizer finalizers cleaner_finalizer leaving in
    (first ≡ (
      err (errorf "report instance still present"),
      remove_entries empty "nightly",
      (some leaving, []),
    ))
    × (second.0 ≡ ok none)
    × (second.1 ≡ remove_entries empty "nightly")
    × (second.2 ≡ (some released, []))
    × (contains released.finalizers cleaner_finalizer ≡ false)
    × (record released { finalizers = leaving.finalizers } ≡ leaving)
unfolding contains without
deletion_completes_example =
    deletion_completes finalizers server parse (pos 10) (λ m. m) finalizers-Removes clock clock
      "nightly" empty empty before (some leaving, []) (some leaving, []) (some leaving, []) leaving
      (at 80) tt "nightly" tt tt gone refl refl refl refl refl refl refl refl

finalizer_outlives_report_example :
    let r = reconcile finalizers server parse (pos 10) (λ m. m) clock "nightly" empty before in
    (r.1 ≡ remove_entries empty "nightly")
    × (r.2 ≡ (server.patch tt leaving (remove_report finalizers server leaving before).1).1)
unfolding contains
finalizer_outlives_report_example =
    finalizer_outlives_report finalizers server parse (pos 10) (λ m. m) clock "nightly" empty before
      leaving (at 80) tt refl refl refl (λ e h. absurd (cc h))

same_next :
    (b : Bool) (e : GoError) (next : Next)
    → (if b then ok every_minute else err e) ≡ ok next
    → every_minute ≡ next
same_next true e next h = cc h
same_next false e next h = absurd (cc h)

-- The zero time of cron, which this parser never gives.
parse-starts :
    (text : String) (next : Next)
    → parse text ≡ ok next
    → (t : Time) → (t <ℤ next t) ⊎ (next t ≡ at 0)
parse-starts text next e t = inl (
    subst Later (same_next (text == "* * * * *") (errorf "unexpected text") next e)
      every_minute-Later t)

requeue_positive_example :
    (c : Cleaner) × (server.get_cleaner "nightly" (some kept, []) ≡ found c)
    × (r : Requeues finalizers server parse
        (pos 10)
        (λ m. m)
        clock
        c
        (some kept, [])
        (pos (60 * second)))
    × ((pos 0 <ℤ pos (60 * second)) ⊎ (r.waits.next clock.scheduling ≡ at 0))
unfolding reconcile contains get_result schedule get_next_schedule_time earliest_time
    too_many_missed should_schedule lookup saturate ◌-ℤ◌ ◌+ℤ◌ wrap64 scale empty
requeue_positive_example =
    requeue_positive finalizers server parse (pos 10) (λ m. m) clock (at 0) parse-starts
      (omega int_laws) "nightly" empty (some kept, []) (pos (60 * second)) refl

failure_message_reports_example :
    let c' = remove_old_finalizer finalizers kept in
    (reconcile_normal finalizers server parse
      (pos 10)
      (λ m. m)
      clock
      kept
      (process empty "nightly")
      (some kept, [])).cleaner.status.failure_message
    ≡ overruled (get_next_schedule_time parse c' (at 90)) (
        recorded
          (lookup c'.name (process empty "nightly").results)
          (contains (process empty "nightly").in_progress c'.name
            || contains (process empty "nightly").job_queue c'.name)
          c'.status.failure_message)
unfolding contains remove_old_finalizer
failure_message_reports_example =
    failure_message_reports finalizers server parse (pos 10) (λ m. m) clock kept
      (process empty "nightly") (some kept, []) refl

-- The cleaner two minutes after its creation, when its first run is due.
abbrev pub due_now : Cleaner
due_now = record kept { status = record kept.status { next_schedule_time = some (at 120) } }

abbrev pub at_two : Clock
at_two = record { started = at 120; scheduling = at 120; deciding = at 120 }

requests_when_due_example :
    let due = should_schedule none (at 120) (pos 10) (at 120) in
    let polled = (get_result empty "nightly").1 in
    let r =
      reconcile finalizers server parse
        (pos 10)
        (λ m. m)
        at_two
        "nightly"
        empty
        (some due_now, []) in
    let written = stamped due_now (told empty due_now) due (at 120) (at 180) in
    (r.1 ≡ (if due then process polled "nightly" else polled))
    × (r.2 ≡ (some written, []))
    × (r.0 ≡ ok (some (saturate (at 180 -ℤ at 120))))
unfolding contains get_next_schedule_time earliest_time too_many_missed ◌+ℤ◌ wrap64 scale ◌-ℤ◌
requests_when_due_example =
    requests_when_due finalizers server parse (pos 10) (λ m. m) at_two "nightly" empty
      (some due_now, []) due_now tt (at 120) (at 180) refl refl refl refl refl refl refl

same_cleaner : (c d : Cleaner) (b : Bool) → named_so c b ≡ found d → (b ≡ true) × (c ≡ d)
same_cleaner c d true e = (refl, cc e)
same_cleaner c d false e = absurd (cc e)

found_as :
    (name : String) (o : Option Cleaner) (c : Cleaner) → stored name o ≡ found c → c.name ≡ name
found_as name none c e = absurd (cc e)
found_as name (some d) c e =
    let (b, same) = same_cleaner d c (d.name == name) e in
    ap (λ (x : Cleaner). x.name) (sym same) ∙ (eq_iff d.name name).0 b

server-Named : Named server
server-Named = record {
  found_by_name = λ name w c e. found_as name w.0 c e;
  update_keeps_name = λ c w. refl;
}

-- While the cleaner is reconciled, the only worker looks for work.
reconcile_calls_example :
    Made finalizers server parse
      (pos 10)
      at_two
      (start 1)
      (wake 0 ∷ [])
      "nightly"
      (reconcile finalizers server parse
        (pos 10)
        (meanwhile finalizers server parse (pos 10) at_two (start 1) (wake 0 ∷ []))
        at_two
        "nightly"
        (start 1).manager
        (some due_now, [])).1
reconcile_calls_example =
    reconcile_calls finalizers server parse (pos 10) at_two (start 1) (wake 0 ∷ []) server-Named
      "nightly" (some due_now, [])
