-- ===== src/Controller/Schedule/Missed.antt =====
-- `getNextScheduleTime`: when the loop over missed start times gives up.
use k8s_cleaner.Common.{
  ℕ, zero, suc, ◌*◌, ◌≤◌, String, true, false, ◌≡◌, refl, ◌∙◌, inl, inr, errorf, some, Outcome, ok,
  err, arith, Bool-cases, if◌then◌else◌,
}
use k8s_cleaner.Common.Int.{
  ℤ, pos, pos_part, neg_part, ◌-ℤ◌, scale, wrap64, max_int64, ◌+ℤ◌, ◌≤ℤ◌, ◌<ℤ◌, ltb_ℤ, lt_of_ltb_ℤ,
  le_of_ltb_ℤ, ltb_ℤ_of_le, int_laws,
}
use k8s_cleaner.Api.{Time, Cleaner}
use k8s_cleaner.Controller.Schedule.{
  Next, second, minus_seconds, max_number_of_failures, too_many_missed, earliest_time,
  get_next_schedule_time,
}

-- The start time that lies `i` schedules after `t`.
pub start_time : Next → ℕ → Time → Time
start_time next zero t = t
start_time next (suc i) t = start_time next i (next t)

-- `sched.Next`: the next start time is strictly later.
abbrev pub Later : Next → Type 0
Later next = (t : Time) → t <ℤ next t

start_time-le : (next : Next) → Later next → (i : ℕ) (t : Time) → t ≤ℤ start_time next i t
unfolding start_time
start_time-le next h zero t = omega arith
start_time-le next h (suc i) t = omega (arith, h t, start_time-le next h i (next t))

-- The loop gives up exactly when the last start time that it may look at is before now.
too_many_missed-true :
    (next : Next)
    → Later next
    → (left : ℕ) (now t : Time) → start_time next left t <ℤ now
    → too_many_missed left next now t ≡ true
unfolding too_many_missed start_time
too_many_missed-true next h zero now t lt = ground arith
too_many_missed-true next h (suc left) now t lt = ground (
  arith,
  too_many_missed-true next h left now (next t) lt,
  start_time-le next h left (next t),
  h t,
)

too_many_missed-false :
    (next : Next) (left : ℕ) (now t : Time)
    → now ≤ℤ start_time next left t
    → too_many_missed left next now t ≡ false
unfolding too_many_missed start_time
too_many_missed-false next zero now t le = ground arith
too_many_missed-false next (suc left) now t le =
    ground (arith, too_many_missed-false next left now (next t) le)

too_many_missed-eq :
    (next : Next)
    → Later next
    → (left : ℕ) (now t : Time)
    → too_many_missed left next now t ≡ ltb_ℤ (start_time next left t) now
too_many_missed-eq next h left now t = elim (Bool-cases (ltb_ℤ (start_time next left t) now)) [
  | inl e ↦ rw e (too_many_missed-true next h left now t (lt_of_ltb_ℤ _ now e))
  | inr e ↦ rw e (too_many_missed-false next left now t (le_of_ltb_ℤ _ now e))
]

module _ (parse : String → Outcome Next) (next : Next) (cleaner : Cleaner) (now : Time) where
  pub next_schedule_time-eq :
      parse cleaner.spec.schedule ≡ ok next
      → get_next_schedule_time parse cleaner now ≡ (
          if too_many_missed max_number_of_failures next now (next (earliest_time cleaner now))
          then err (errorf "too many missed start times")
          else ok (next now))
  unfolding get_next_schedule_time
  next_schedule_time-eq p = rw (p, get_next_schedule_time) refl

  -- For a schedule that parses and whose start times grow: if the 101st start time after the
  -- earliest time is before now, the result is an error; otherwise it is the first start time after
  -- now, which lies in the future.
  pub next_schedule_time_exact :
      parse cleaner.spec.schedule ≡ ok next
      → Later next
      → (get_next_schedule_time parse cleaner now ≡ (
          if ltb_ℤ (start_time next 101 (earliest_time cleaner now)) now
          then err (errorf "too many missed start times")
          else ok (next now)))
        × (now <ℤ next now)
  unfolding start_time
  next_schedule_time_exact p h =
      (next_schedule_time-eq p ∙ rw (too_many_missed-eq next h 100 now _) refl, h now)

-- Start times that lie at least `gap` apart.
abbrev pub Spaced : ℕ → Next → Type 0
Spaced gap next = (t : Time) → t +ℤ pos gap ≤ℤ next t

start_time-spaced :
    (gap : ℕ) (next : Next)
    → Spaced gap next
    → (i : ℕ) (t : Time) → t +ℤ pos (i * gap) ≤ℤ start_time next i t
unfolding start_time
start_time-spaced gap next h zero t = omega int_laws
start_time-spaced gap next h (suc i) t =
    omega (int_laws, h t, start_time-spaced gap next h i (next t))

-- `if deadline.After(earliest) { earliest = deadline }`
later-le : (a b : ℤ) → b ≤ℤ (if ltb_ℤ a b then b else a)
later-le a b = elim (Bool-cases (ltb_ℤ a b)) [
  | inl e ↦ rw e (omega arith)
  | inr e ↦ rw e (ground arith)
]

minus_seconds_parts :
    (d : ℕ)
    → second * d ≤ max_int64
    → (pos_part (minus_seconds (pos d)) ≡ 0) × (neg_part (minus_seconds (pos d)) ≡ second * d)
unfolding minus_seconds scale ◌-ℤ◌ wrap64
minus_seconds_parts d h = ground arith

earliest_time-after_deadline :
    (cleaner : Cleaner) (now : Time) (d : ℕ)
    → cleaner.spec.starting_deadline_seconds ≡ some (pos d)
    → second * d ≤ max_int64
    → now ≤ℤ earliest_time cleaner now +ℤ pos (second * d)
unfolding earliest_time
earliest_time-after_deadline cleaner now d e h =
    rw (e, earliest_time)
      (omega (int_laws, later-le _ (now +ℤ minus_seconds (pos d)), minus_seconds_parts d h))

-- A starting deadline that spans at most 101 gaps between start times keeps the loop from giving
-- up, whenever the last run was.
deadline_suffices :
    (parse : String → Outcome Next) (next : Next) (cleaner : Cleaner) (now : Time) (d gap : ℕ)
    → parse cleaner.spec.schedule ≡ ok next
    → Later next
    → Spaced gap next
    → cleaner.spec.starting_deadline_seconds ≡ some (pos d)
    → second * d ≤ max_int64
    → second * d ≤ 101 * gap
    → get_next_schedule_time parse cleaner now ≡ ok (next now)
deadline_suffices parse next cleaner now d gap p later spaced e fits short =
    (next_schedule_time_exact parse next cleaner now p later).0 ∙ rw not_before refl
  where
    not_before : ltb_ℤ (start_time next 101 (earliest_time cleaner now)) now ≡ false
    not_before = ltb_ℤ_of_le (start_time next 101 (earliest_time cleaner now)) now (
        omega (
          int_laws,
          start_time-spaced gap next spaced 101 (earliest_time cleaner now),
          earliest_time-after_deadline cleaner now d e fits,
        ))
