-- ===== src/Controller/Schedule/Jitter.antt =====
-- `shouldSchedule`: the jitter window and the 30 seconds during which a run is not repeated.
use k8s_cleaner.Common.{
  ℕ, ◌+◌, ◌*◌, ◌≤◌, ◌<◌, Bool, true, false, not, Bool-cases, inl, inr, ◌≡◌, refl, ◌↔◌, Option, none,
  some, arith, if◌then◌else◌,
}
use k8s_cleaner.Common.Int.{
  ℤ, pos, pos_part, neg_part, ◌+ℤ◌, ◌-ℤ◌, ◌≤ℤ◌, scale, wrap64, saturate, max_int64, ltb_ℤ,
  lt_of_ltb_ℤ, le_of_ltb_ℤ, ltb_ℤ_of_le, int_laws,
}
use k8s_cleaner.Api.{Time}
use k8s_cleaner.Controller.Schedule.{second, seconds, should_schedule}

pub seconds_parts :
    (j : ℕ)
    → second * j ≤ max_int64
    → (pos_part (seconds (pos j)) ≡ second * j) × (neg_part (seconds (pos j)) ≡ 0)
unfolding seconds scale wrap64
seconds_parts j h = ground arith

saturate-lt : (z : ℤ) → ltb_ℤ (saturate z) (pos (30 * second)) ≡ ltb_ℤ z (pos (30 * second))
unfolding saturate
saturate-lt z = ground arith

-- The last run, if any, lies 30 seconds back from `t` or more.
abbrev pub Rested : Option Time → Time → Type 0
Rested none t = Unit
Rested (some last) t = last +ℤ pos (30 * second) ≤ℤ t

rested : Option Time → Time → Bool
rested none t = true
rested (some last) t = not (ltb_ℤ (t -ℤ last) (pos (30 * second)))

rested_iff : (last : Option Time) (t : Time) → (rested last t ≡ true) ↔ Rested last t
unfolding rested
rested_iff none t = (λ _. tt, λ _. refl)
rested_iff (some last) t = (
  λ h. omega (int_laws, le_of_ltb_ℤ (t -ℤ last) (pos (30 * second)) (ground arith)),
  λ h. rw (ltb_ℤ_of_le (t -ℤ last) (pos (30 * second)) (omega int_laws)) refl,
)

should_schedule-eq :
    (last : Option Time) (next now : Time) (j : ℤ)
    → should_schedule last next j now
      ≡ (if ltb_ℤ (now +ℤ seconds j) next then false else rested last (now +ℤ seconds j))
unfolding should_schedule rested
should_schedule-eq none next now j = refl
should_schedule-eq (some last) next now j = rw (saturate-lt (now +ℤ seconds j -ℤ last)) refl

-- The decision in terms of times, for a jitter window of `j` seconds that fits an `int64`: it is
-- yes exactly when the next schedule time has come within the window, and the last run, if any, lies
-- at least 30 seconds back from the end of the window.
pub should_schedule_iff :
    (last : Option Time) (next now : Time) (j : ℕ)
    → second * j ≤ max_int64
    → (should_schedule last next (pos j) now ≡ true)
      ↔ ((next ≤ℤ now +ℤ pos (second * j)) × Rested last (now +ℤ pos (second * j)))
should_schedule_iff last next now j h =
    rw (should_schedule-eq last next now (pos j), seconds-eq)
      (let t = now +ℤ pos (second * j) in
        elim (Bool-cases (ltb_ℤ t next)) [
          | inl early ↦ rw early (λ e. cc, λ p. absurd (omega (arith, lt_of_ltb_ℤ t next early)))
          | inr due ↦ rw due (
            λ e. (le_of_ltb_ℤ t next due, (rested_iff last t).0 e),
            λ p. (rested_iff last t).1 p.1,
          )
        ])
  where
    seconds-eq : seconds (pos j) ≡ pos (second * j)
    seconds-eq = let (p, n) = seconds_parts j h in ground arith

-- With a jitter window below 15 seconds, a run that was asked for early, within the window before
-- its schedule time, is not asked for again when that time comes: `asked` is the clock reading that
-- `schedule` stores as the last run time, `first` that of the decision, and `j` twice with the delay
-- between the two is below 30 seconds.
early_run_not_repeated :
    (last : Option Time) (next asked first again : Time) (j delay : ℕ)
    → second * j ≤ max_int64
    → should_schedule last next (pos j) first ≡ true
    → first ≤ℤ asked +ℤ pos delay
    → again ≤ℤ next
    → second * (2 * j) + delay < 30 * second
    → should_schedule (some asked) next (pos j) again ≡ false
early_run_not_repeated last next asked first again j delay fits yes_ close before short =
    elim (Bool-cases (should_schedule (some asked) next (pos j) again)) [
      | inr e ↦ e
      | inl e ↦ absurd (
          omega (
            int_laws,
            ((should_schedule_iff last next first j fits).0 yes_).0,
            ((should_schedule_iff (some asked) next again j fits).0 e).1,
          ))
    ]

-- With a jitter window of 30 seconds or more the guard against back-to-back runs never holds: once
-- the schedule time has come within the window, the answer is yes although a run was asked for at
-- this very moment, or at any time before.
wide_window_never_rests :
    (last next now : Time) (j : ℕ)
    → second * j ≤ max_int64
    → 30 ≤ j
    → last ≤ℤ now
    → next ≤ℤ now +ℤ pos (second * j)
    → should_schedule (some last) next (pos j) now ≡ true
wide_window_never_rests last next now j fits wide past due =
    (should_schedule_iff (some last) next now j fits).1 (due, omega int_laws)
