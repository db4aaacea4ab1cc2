-- ===== src/Tests/Times.antt =====
-- The schedule at concrete times, for a job that runs every minute.
use k8s_cleaner.Common.{
  ℕ, ◌+◌, ◌*◌, String, ◌≡◌, ◌↔◌, refl, none, some, [], Outcome, ok, err, errorf, true, arith, ◌==◌,
  if◌then◌else◌,
}
use k8s_cleaner.Common.Int.{
  pos, negsuc, ◌+ℤ◌, ◌-ℤ◌, wrap64, scale, saturate, ◌≤ℤ◌, ◌<ℤ◌, ltb_ℤ, int_laws,
}
use k8s_cleaner.Api.{Time, Cleaner, scan}
use k8s_cleaner.Controller.Schedule.{
  Next, second, get_next_schedule_time, earliest_time, too_many_missed, should_schedule, schedule,
}
use k8s_cleaner.Executor.Manager.{empty, process}
use k8s_cleaner.Controller.Schedule.Repeat.{early_run_repeats}
use Prim.Native.Nat.{◌/◌}
use k8s_cleaner.Controller.Schedule.Missed.{Later, Spaced, start_time, next_schedule_time_exact}
use k8s_cleaner.Controller.Schedule.Jitter.{Rested, should_schedule_iff}

-- The instant `s` seconds after the origin.
abbrev pub at : ℕ → Time
at s = pos (s * second)

abbrev pub every_minute : Next
every_minute t = t +ℤ at 60

abbrev pub parse : String → Outcome Next
parse s = if s == "* * * * *" then ok every_minute else err (errorf "unexpected text")

pub every_minute-Later : Later every_minute
every_minute-Later t = omega int_laws

every_minute-Spaced : Spaced (60 * second) every_minute
every_minute-Spaced t = omega int_laws

-- A cleaner that was created at the origin and never ran, with a deadline of 100 minutes.
abbrev pub nightly : Cleaner
nightly = record {
  name = "nightly";
  finalizers = [];
  creation_timestamp = at 0;
  deletion_timestamp = none;
  spec = record {
    resource_policy_set = record { resource_selectors = []; aggregated_selection = "" };
    action = scan;
    delete_options = none;
    transform = "";
    schedule = "* * * * *";
    starting_deadline_seconds = some (pos 6000);
    notifications = [];
    store_resource_path = "";
  };
  status = record { next_schedule_time = none; last_run_time = none; failure_message = none };
}

next_schedule_time_exact_example :
    (get_next_schedule_time parse nightly (at 90) ≡ (
      if ltb_ℤ (start_time every_minute 101 (earliest_time nightly (at 90))) (at 90)
      then err (errorf "too many missed start times")
      else ok (every_minute (at 90))))
    × (at 90 <ℤ every_minute (at 90))
next_schedule_time_exact_example =
    next_schedule_time_exact parse every_minute nightly (at 90) refl every_minute-Later

should_schedule_iff_example : (should_schedule (some (at 60)) (at 120) (pos 10) (at 115) ≡ true) ↔ (
    (at 120 ≤ℤ at 115 +ℤ pos (second * 10)) × Rested (some (at 60)) (at 115 +ℤ pos (second * 10)))
should_schedule_iff_example = should_schedule_iff (some (at 60)) (at 120) (at 115) 10 (omega arith)

-- The whole minutes.
abbrev minutely : Next
minutely (pos t) = pos ((t / (60 * second) + 1) * (60 * second))
minutely (negsuc n) = pos 0

abbrev parse_minutely : String → Outcome Next
parse_minutely s = if s == "* * * * *" then ok minutely else err (errorf "unexpected text")

-- A cleaner that last ran after one minute, and is due after two.
abbrev waiting : Cleaner
waiting = record nightly {
  status = record nightly.status {
    last_run_time = some (at 60);
    next_schedule_time = some (at 120);
  };
}

-- The first call comes after 105 seconds, the second after 121.
early_run_repeats_example :
    (schedule parse_minutely empty
      (schedule parse_minutely empty waiting (pos 15) (at 105) (at 105)).cleaner
      (pos 15)
      (at 120)
      (at 121)).manager
    ≡ (if ltb_ℤ (at 121 +ℤ pos (second * 15)) (at 105 +ℤ pos (30 * second))
        then empty
        else process empty "nightly")
unfolding schedule get_next_schedule_time earliest_time too_many_missed should_schedule ◌+ℤ◌ wrap64
    scale saturate ◌-ℤ◌
early_run_repeats_example =
    early_run_repeats parse_minutely 15 empty empty waiting (at 120) (at 105) (at 105) (at 120)
      (at 121) (at 180) (omega arith) refl refl refl refl (omega int_laws)
