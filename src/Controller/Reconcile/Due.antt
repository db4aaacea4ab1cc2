-- ===== src/Controller/Reconcile/Due.antt =====
-- A whole reconciliation of a cleaner that stays: what it asks of the executor, and what it writes back.
use k8s_cleaner.Common.{
  String, Bool, true, false, ◌||◌, ◌≡◌, refl, ◌∙◌, Option, none, some, Outcome, ok, contains,
  lookup, if◌then◌else◌,
}
use k8s_cleaner.Common.Int.{ℤ, ◌-ℤ◌, saturate}
use k8s_cleaner.Api.{Time, Cleaner}
use k8s_cleaner.Executor.Manager.{Manager, process, get_result}
use k8s_cleaner.Executor.Manager.Status.{get_result-answer}
use k8s_cleaner.Executor.Services.{found}
use k8s_cleaner.Controller.Schedule.{
  Next, get_next_schedule_time, earliest_time, should_schedule, schedule,
}
use k8s_cleaner.Controller.Scope.{Server, close, new_cleaner_scope, set_failure_message}
use k8s_cleaner.Controller.Reconcile.{
  Clock, after_schedule, consult, with_finalizer, reconcile_normal, reconcile_found, after_close,
  close_scope, reconcile_scoped, reconcile,
}
use k8s_cleaner.Controller.Finalizers.{
  Finalizers, Reconciled, cleaner_finalizer, old_finalizer, drop_finalizer, remove_old_finalizer,
  add_finalizer,
}
use k8s_cleaner.Controller.Reconcile.Status.{recorded, record_result-answer}

-- The message that the executor's knowledge of the cleaner leaves.
abbrev pub told : Manager → Cleaner → Option String
told m c =
    recorded (lookup c.name m.results)
      (contains m.in_progress c.name || contains m.job_queue c.name) c.status.failure_message

-- The cleaner with its next start time, and with this run, if it was asked for.
pub stamped : Cleaner → Option String → Bool → Time → Time → Cleaner
stamped c message due now next = record c {
  status = record {
    next_schedule_time = some next;
    last_run_time = if due then some now else c.status.last_run_time;
    failure_message = message;
  };
}

schedule-stamped :
    (parse : String → Outcome Next) (m : Manager) (c : Cleaner) (j : ℤ)
    (now check start next : Time) (due : Bool)
    → get_next_schedule_time parse c now ≡ ok next
    → c.status.next_schedule_time ≡ some start
    → should_schedule c.status.last_run_time start j check ≡ due
    → schedule parse m c j now check ≡ record {
      manager = if due then process m c.name else m;
      cleaner = stamped c c.status.failure_message due now next;
      result = ok next;
    }
unfolding schedule stamped
schedule-stamped parse m c j now check start next true g n d = rw (g, schedule, n, d) refl
schedule-stamped parse m c j now check start next false g n d = rw (g, schedule, n, d) refl

module _ (f : Finalizers) {World : Type 0} (s : Server World) (parse : String → Outcome Next)
    (jitter : ℤ) (others : Manager → Manager) (clock : Clock) where
  -- What `reconcileNormal` leaves in memory, if the run is due or not.
  settled : Manager → World → Cleaner → Time → Bool → Reconciled World
  settled m w c next due =
      let polled = others (get_result m c.name).1 in
      record {
        cleaner = stamped c (told m c) due clock.scheduling next;
        manager = if due then process polled c.name else polled;
        world = w;
        result = ok (some (saturate (next -ℤ clock.started)));
      }

  consult-settled :
      (m : Manager) (w : World) (c : Cleaner) (next start : Time) (due : Bool)
      → get_next_schedule_time parse c clock.scheduling ≡ ok next
      → c.status.next_schedule_time ≡ some start
      → should_schedule c.status.last_run_time start jitter clock.deciding ≡ due
      → consult f s parse jitter others clock c m w ≡ settled m w c next due
  unfolding consult settled after_schedule stamped set_failure_message get_next_schedule_time
      earliest_time
  consult-settled m w c next start due g n d =
      let heard =
        record_result-answer (lookup c.name m.results)
          (contains m.in_progress c.name || contains m.job_queue c.name) c in
      rw
        (
          get_result-answer m c.name,
          heard,
          schedule-stamped parse (others (get_result m c.name).1) (set_failure_message (told m c) c)
              jitter clock.scheduling clock.deciding start next due (message-keeps (told m c) c ∙ g)
              n d,
        )
        refl
    where
      message-keeps :
          (message : Option String) (x : Cleaner)
          → get_next_schedule_time parse (set_failure_message message x) clock.scheduling
            ≡ get_next_schedule_time parse x clock.scheduling
      message-keeps message x = refl

  normal-consult :
      (c : Cleaner) (m : Manager) (w : World)
      → f.contains_finalizer c.finalizers cleaner_finalizer ≡ true
      → f.contains_finalizer c.finalizers old_finalizer ≡ false
      → reconcile_normal f s parse jitter others clock c m w
        ≡ consult f s parse jitter others clock c m w
  unfolding reconcile_normal remove_old_finalizer drop_finalizer add_finalizer with_finalizer
  normal-consult c m w new old = rw (old, new) refl

  stays-consult :
      (m : Manager) (w : World) (c : Cleaner)
      → c.deletion_timestamp ≡ none
      → f.contains_finalizer c.finalizers cleaner_finalizer ≡ true
      → f.contains_finalizer c.finalizers old_finalizer ≡ false
      → reconcile_found f s parse jitter others clock c m w
        ≡ consult f s parse jitter others clock c m w
  unfolding reconcile_found
  stays-consult m w c stays new old = found-normal ∙ normal-consult c m w new old
    where
      found-normal :
          reconcile_found f s parse jitter others clock c m w
          ≡ reconcile_normal f s parse jitter others clock c m w
      found-normal = simp (stays, reconcile_found)

  -- A reconciliation of a cleaner that has its finalizer and not the old one, is not being deleted, has
  -- a next start time and a schedule that gives the one after it: it asks the executor for a run of
  -- the cleaner exactly if that start time is due by `shouldSchedule`, and calls the executor for
  -- nothing else but the result of the last run; it writes back the cleaner with the next start time,
  -- the reading of the clock as its last run if one was asked for, and the message of the executor;
  -- and it asks to be called again when the next start time has come, unless the final patch fails,
  -- whose error it returns. The cleaner is there, and its patch helper can be made.
  pub requests_when_due :
      (name : String) (m : Manager) (w : World) (c : Cleaner) (helper : s.Helper)
      (start next : Time)
      → s.get_cleaner name w ≡ found c
      → s.new_helper c s.client ≡ ok helper
      → c.deletion_timestamp ≡ none
      → f.contains_finalizer c.finalizers cleaner_finalizer ≡ true
      → f.contains_finalizer c.finalizers old_finalizer ≡ false
      → get_next_schedule_time parse c clock.scheduling ≡ ok next
      → c.status.next_schedule_time ≡ some start
      → let due = should_schedule c.status.last_run_time start jitter clock.deciding in
        let polled = others (get_result m c.name).1 in
        let r = reconcile f s parse jitter others clock name m w in
        let (patched, w') = s.patch helper (stamped c (told m c) due clock.scheduling next) w in
        (r.1 ≡ (if due then process polled c.name else polled))
        × (r.2 ≡ w')
        × (r.0
            ≡ after_close f s parse jitter others
                (ok (some (saturate (next -ℤ clock.started))))
                patched)
  unfolding reconcile reconcile_scoped close_scope close new_cleaner_scope settled
  requests_when_due name m w c helper start next there h stays new old g n =
      rw (there, h, reconcile, new_cleaner_scope)
        (rw
          (
            stays-consult m w c stays new old,
            consult-settled m w c next start
                (should_schedule c.status.last_run_time start jitter clock.deciding) g n refl,
          )
          (refl, refl, refl))
