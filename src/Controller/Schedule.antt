-- ===== src/Controller/Schedule.antt =====
-- internal/controller/cleaner_controller.go: `getNextScheduleTime`, `shouldSchedule` and `schedule`.
-- `time.Now()` is an argument, one for each call. The cron library is a parameter.
pub mod Missed
pub mod Jitter
pub mod Repeat
use k8s_cleaner.Common.{
  ℕ, zero, suc, ◌*◌, String, Bool, true, false, not, Option, none, some, GoError, errorf, wrapf,
  Outcome, ok, err, panic, if◌then◌else◌,
}
use k8s_cleaner.Common.Int.{ℤ, pos, ◌+ℤ◌, ◌-ℤ◌, scale, ltb_ℤ, wrap64, saturate}
use k8s_cleaner.Api.{Time, Cleaner}
use k8s_cleaner.Executor.Manager.{Manager, process}
use k8s_cleaner.Controller.Scope.{set_last_run_time, set_next_schedule_time}

-- `time.Second`
abbrev pub second : ℕ
second = 1000000000

-- `time.Duration(n) * time.Second`
unfoldable pub seconds : ℤ → ℤ
seconds n = wrap64 (scale second n)

-- `-time.Second * time.Duration(n)`
unfoldable pub minus_seconds : ℤ → ℤ
minus_seconds n = wrap64 (pos 0 -ℤ scale second n)

-- `sched.Next` of a parsed schedule.
abbrev pub Next : Type 0
Next = Time → Time

-- The earliest time from which missed start times are counted.
unfoldable pub earliest_time : Cleaner → Time → Time
unfolding minus_seconds
earliest_time cleaner now =
    let earliest : Time = elim cleaner.status.last_run_time [
      | some t ↦ t
      | none ↦ cleaner.creation_timestamp
    ] in
    elim cleaner.spec.starting_deadline_seconds [
      | none ↦ earliest
      | some n ↦
          let deadline = now +ℤ minus_seconds n in
          if ltb_ℤ earliest deadline then deadline else earliest
    ]

-- `maxNumberOfFailures`
abbrev pub max_number_of_failures : ℕ
max_number_of_failures = 100

-- The loop over missed start times from `t` on: does it end by `starts > maxNumberOfFailures`? The
-- first argument is `maxNumberOfFailures - starts`.
unfoldable pub too_many_missed : ℕ → Next → Time → Time → Bool
too_many_missed zero next now t = if ltb_ℤ t now then true else false
too_many_missed (suc left) next now t =
    let rest = too_many_missed left next now (next t) in if ltb_ℤ t now then rest else false

module _ (parse_standard : String → Outcome Next) where
  -- `getNextScheduleTime`
  unfoldable pub get_next_schedule_time : Cleaner → Time → Outcome Time
  get_next_schedule_time cleaner now = elim (parse_standard cleaner.spec.schedule) [
    | err e ↦ err (wrapf "unparseable schedule" e)
    | panic ↦ panic
    | ok next ↦
        if too_many_missed max_number_of_failures next now (next (earliest_time cleaner now))
        then err (errorf "too many missed start times")
        else ok (next now)
  ]

-- `shouldSchedule`, at the time `now` and with the jitter window in seconds. The caller has tested
-- that the next schedule time is set.
unfoldable pub should_schedule : Option Time → Time → ℤ → Time → Bool
unfolding seconds
should_schedule last_run_time next_schedule_time jitter now =
    let now' = now +ℤ seconds jitter in
    if ltb_ℤ now' next_schedule_time then false else elim last_run_time [
      | none ↦ true
      | some last ↦ not (ltb_ℤ (saturate (now' -ℤ last)) (pos (30 * second)))
    ]

pub record Scheduled : Type 0 where
  pub manager : Manager
  pub cleaner : Cleaner
  pub result : Outcome Time

module _ (parse_standard : String → Outcome Next) where
  -- `schedule`: `now` is its own reading of the clock, `check` that of `shouldSchedule`.
  unfoldable pub schedule : Manager → Cleaner → ℤ → Time → Time → Scheduled
  schedule m cleaner jitter now check = elim (get_next_schedule_time parse_standard cleaner now) [
    | err e ↦ record { manager = m; cleaner = cleaner; result = err e }
    | panic ↦ record { manager = m; cleaner = cleaner; result = panic }
    | ok next_run ↦
        let keep : Scheduled = record {
          manager = m;
          cleaner =
              set_next_schedule_time (some next_run)
                (set_last_run_time cleaner.status.last_run_time cleaner);
          result = ok next_run;
        } in
        elim cleaner.status.next_schedule_time [
          | none ↦ keep
          | some t ↦
              if should_schedule cleaner.status.last_run_time t jitter check
              then record {
                manager = process m cleaner.name;
                cleaner =
                    set_next_schedule_time (some next_run) (set_last_run_time (some now) cleaner);
                result = ok next_run;
              }
              else keep
        ]
  ]
