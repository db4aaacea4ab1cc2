-- ===== src/Controller/Schedule/Repeat.antt =====
-- `schedule` called twice: first early, within the jitter window before a start time, and then again
-- for the same start time.
use k8s_cleaner.Common.{
  ℕ, ◌*◌, ◌≤◌, String, Bool, true, false, not, Bool-cases, inl, inr, ◌≡◌, refl, ◌∙◌, some, Outcome,
  ok, arith, if◌then◌else◌,
}
use k8s_cleaner.Common.Int.{ℤ, pos, ◌+ℤ◌, ◌≤ℤ◌, max_int64, ltb_ℤ, lt_of_ltb_ℤ, le_of_ltb_ℤ}
use k8s_cleaner.Api.{Time, Cleaner}
use k8s_cleaner.Executor.Manager.{Manager, process}
use k8s_cleaner.Controller.Schedule.{
  Next, second, get_next_schedule_time, should_schedule, schedule,
}
use k8s_cleaner.Controller.Schedule.Jitter.{should_schedule_iff}

module _ (parse : String → Outcome Next) (j : ℤ) where
  -- What a call leaves when the cleaner has a next schedule time.
  schedule-due :
      (m : Manager) (c : Cleaner) (now check start next_run : Time) (b : Bool)
      → get_next_schedule_time parse c now ≡ ok next_run
      → c.status.next_schedule_time ≡ some start
      → should_schedule c.status.last_run_time start j check ≡ b
      → ((schedule parse m c j now check).manager ≡ (if b then process m c.name else m))
        × ((schedule parse m c j now check).cleaner.name ≡ c.name)
        × ((schedule parse m c j now check).cleaner.status.last_run_time
            ≡ (if b then some now else c.status.last_run_time))
        × ((schedule parse m c j now check).cleaner.status.next_schedule_time ≡ some next_run)
  unfolding schedule
  schedule-due m c now check start next_run true g n d = ground arith
  schedule-due m c now check start next_run false g n d = ground arith

not_rested :
    (last start now : Time) (n : ℕ)
    → second * n ≤ max_int64
    → start ≤ℤ now +ℤ pos (second * n)
    → should_schedule (some last) start (pos n) now
      ≡ not (ltb_ℤ (now +ℤ pos (second * n)) (last +ℤ pos (30 * second)))
not_rested last start now n fits due =
    elim (Bool-cases (ltb_ℤ (now +ℤ pos (second * n)) (last +ℤ pos (30 * second)))) [
      | inr e ↦ rw e (
          (should_schedule_iff (some last) start now n fits).1
            (due, le_of_ltb_ℤ (now +ℤ pos (second * n)) (last +ℤ pos (30 * second)) e))
      | inl e ↦ rw e (elim (Bool-cases (should_schedule (some last) start (pos n) now)) [
        | inr f ↦ f
        | inl f ↦ absurd (
            omega (
              arith,
              ((should_schedule_iff (some last) start now n fits).0 f).1,
              lt_of_ltb_ℤ (now +ℤ pos (second * n)) (last +ℤ pos (30 * second)) e,
            ))
      ])
    ]

-- A run that is asked for within the jitter window before its start time `start`, by a call that reads
-- the clock at `now`, is asked for a second time, for the same start time, by the next call, which
-- reads `check` when it decides, exactly if `check` with the window added lies 30 seconds or more
-- after `now`; with the default window of 15 seconds, if 15 seconds lie between them. The window fits
-- an `int64`; the schedule gives `start` to the first call, and some start time to the second, which
-- gets the cleaner as the first leaves it, with `start` within the window.
pub early_run_repeats :
    (parse : String → Outcome Next) (n : ℕ) (m m' : Manager) (c : Cleaner)
    (start now first now' check t : Time)
    → second * n ≤ max_int64
    → c.status.next_schedule_time ≡ some start
    → get_next_schedule_time parse c now ≡ ok start
    → should_schedule c.status.last_run_time start (pos n) first ≡ true
    → get_next_schedule_time parse (schedule parse m c (pos n) now first).cleaner now' ≡ ok t
    → start ≤ℤ check +ℤ pos (second * n)
    → (schedule parse m' (schedule parse m c (pos n) now first).cleaner (pos n) now' check).manager
      ≡ (if ltb_ℤ (check +ℤ pos (second * n)) (now +ℤ pos (30 * second))
          then m'
          else process m' c.name)
early_run_repeats parse n m m' c start now first now' check t fits next g d g' due =
    let (_, name, last, again) =
      schedule-due parse (pos n) m c now first start start true g next d in
    let last' : c'.status.last_run_time ≡ some now = last in
    let rest : should_schedule c'.status.last_run_time start (pos n) check ≡ not early =
      rw last' (not_rested now start check n fits due) in
    (schedule-due parse (pos n) m' c' now' check start t (not early) g' again rest).0
    ∙ rw name (if_not early)
  where
    c' : Cleaner
    c' = (schedule parse m c (pos n) now first).cleaner

    early : Bool
    early = ltb_ℤ (check +ℤ pos (second * n)) (now +ℤ pos (30 * second))

    if_not :
        (b : Bool)
        → (if not b then process m' c.name else m') ≡ (if b then m' else process m' c.name)
    if_not true = refl
    if_not false = refl
