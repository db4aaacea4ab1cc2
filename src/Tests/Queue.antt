-- ===== src/Tests/Queue.antt =====
-- The request queue and its workers at concrete inputs.
use k8s_cleaner.Common.{
  ◌+◌, ◌≤◌, GoError, Option, get_elem?, String, ◌≡◌, ◌≢◌, refl, none, some, List, [], ◌∷◌, All,
  count, contains, lookup, delete, insert, index_of, errorf, inr, eq_iff,
}
use k8s_cleaner.Executor.Manager.{
  status_string, Manager, drop_key, process, store_result, get_result, remove_entries,
}
use k8s_cleaner.Executor.Manager.Request.{view, asked, done, told, refinement}
use k8s_cleaner.Executor.Workers.{System, Event, request, poll, wake, finish, start, step, run}
use k8s_cleaner.Executor.Workers.Invariant.{Inv, NoRemoval, workers_on, run-start-Inv}
use k8s_cleaner.Executor.Workers.Exclusion.{PoliteRun, no_overlap}
use k8s_cleaner.Executor.Workers.Overlap.{overlap}
use k8s_cleaner.Executor.Workers.Order.{Fifo, served_in, fifo}
use k8s_cleaner.Executor.Workers.Progress.{turns, served_after_turns}
use k8s_cleaner.Executor.Workers.Removal.{
  Replaced, removal, remove_entries_keeps, never_served_again,
}

-- Two requests, of which one comes again while it is served.
abbrev busy_day : List Event
busy_day =
    request "a"
    ∷ request "b"
    ∷ wake 0
    ∷ wake 1
    ∷ request "a"
    ∷ finish 0 none
    ∷ poll "a"
    ∷ wake 0
    ∷ finish 1 (some (errorf "no such kind"))
    ∷ poll "b"
    ∷ finish 0 none
    ∷ poll "a"
    ∷ []

-- Two requests that wait, one of which is served as well, and an old result.
abbrev loaded : Manager
loaded = record {
  dirty = "a" ∷ "b" ∷ [];
  in_progress = "a" ∷ [];
  job_queue = "b" ∷ [];
  results = ("c", none) ∷ [];
}

run-busy_day : run (start 2) busy_day ≡ record {
  manager = record { dirty = []; in_progress = []; job_queue = []; results = [] };
  workers = none ∷ none ∷ [];
}
unfolding run step start lookup contains index_of drop_key delete insert
run-busy_day = refl

run-start-Inv_example : Inv (run (start 2) busy_day) "a"
run-start-Inv_example =
    run-start-Inv 2 busy_day "a"
      (tt, (tt, (tt, (tt, (tt, (tt, (tt, (tt, (tt, (tt, (tt, (tt, tt))))))))))))

refinement_example :
    (view (process loaded "c") "c" ≡ asked (view loaded "c"))
    × (view (store_result loaded "c" none) "c" ≡ done none (view loaded "c"))
    × (view (get_result loaded "c").1 "c" ≡ told (view loaded "c"))
refinement_example = refinement loaded "c" "c" none

fifo_example : Fifo (start 2) (run (start 2) busy_day) (served_in (start 2) busy_day)
fifo_example =
    fifo (start 2) busy_day
      (tt, (tt, (tt, (tt, (tt, (tt, (tt, (tt, (tt, (tt, (tt, (tt, tt))))))))))))

abbrev polite_day : List Event
polite_day = request "a" ∷ request "b" ∷ wake 0 ∷ wake 1 ∷ request "a" ∷ []

polite_day-PoliteRun : PoliteRun (start 2) polite_day
unfolding run step start contains
polite_day-PoliteRun = (inr refl, (inr refl, (tt, (tt, (inr refl, tt)))))

no_overlap_example :
    let s = run (start 2) polite_day in
    (workers_on "a" s.workers ≤ 1) × (count "a" s.job_queue + workers_on "a" s.workers ≤ 1)
no_overlap_example = no_overlap 2 polite_day "a" polite_day-PoliteRun

overlap_example :
    (es : List Event) × All NoRemoval es × (workers_on "a" (run (start 3) es).workers ≡ 3)
overlap_example = overlap 2 "a"

remove_entries_keeps_example :
    let m = remove_entries loaded "a" in
    Replaced "a" "b" loaded.job_queue m.job_queue
    × Replaced "a" "b" loaded.dirty m.dirty
    × Replaced "a" "b" loaded.in_progress m.in_progress
    × (lookup "b" m.results ≡ lookup "b" loaded.results)
remove_entries_keeps_example = remove_entries_keeps loaded "a" "b"

abbrev asking_again : List Event
asking_again = request "b" ∷ wake 0 ∷ wake 1 ∷ poll "b" ∷ request "b" ∷ wake 0 ∷ []

a_is_not_b : ◌≢◌ {A = String} "a" "b"
a_is_not_b e = cc ((eq_iff "a" "b").1 e)

never_served_again_example :
    workers_on "b" (run (run (start 2) (removal "a" "b")) asking_again).workers ≡ 0
never_served_again_example =
    never_served_again "a" "b" asking_again a_is_not_b (tt, (tt, (tt, (tt, (tt, (tt, tt))))))

-- What is printed for a request that was just made.
printed : status_string (get_result (process loaded "c") "c").0.result_status ≡ "in-progress"
unfolding status_string get_result process contains lookup delete
printed = refl

-- A worker that finds two requests, and others that come meanwhile.
abbrev two_requests : System
two_requests = run (start 1) (request "a" ∷ request "b" ∷ [])

abbrev first_turn : List (List Event × Option GoError)
first_turn = (request "c" ∷ poll "a" ∷ [], some (errorf "gone")) ∷ []

served_after_turns_example :
    get_elem? (run two_requests (turns 0 first_turn (request "a" ∷ []))).workers 0 ≡ some (some "b")
unfolding run step start process contains delete
served_after_turns_example =
    served_after_turns two_requests 0 "b" first_turn (request "a" ∷ []) ((tt, (tt, tt)), tt)
      (tt, tt) (record { idle = refl; place = refl })
