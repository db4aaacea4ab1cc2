-- ===== src/Tests/Backing.antt =====
-- A queue of two requests in an array that is full, and what follows when a worker takes one.
use k8s_cleaner.Common.{
  ◌+◌, ◌≡◌, refl, some, List, [], ◌∷◌, eqb, arith, errorf, get_elem?, if◌then◌else◌, contains,
}
use k8s_cleaner.Executor.Manager.{empty, process}
use k8s_cleaner.Executor.Workers.{System, Event, start, request, forget, wake, finish, step, run}
use k8s_cleaner.Executor.Queue.{JobQueue, read, contents, deref, take_front, queue_run}
use k8s_cleaner.Executor.Queue.Workers.{run_ops, worker_keeps_name}

abbrev two_waiting : System
two_waiting = run (start 2) (request "a" ∷ request "b" ∷ [])

abbrev full_array : JobQueue
full_array = record {
  arrays = λ a j. if eqb j 0 then "a" else "b";
  next_array = 1;
  array = 0;
  first = 0;
  len = 2;
  capacity = 2;
}

-- The queue moves to a new array, its other request is taken, and the first one ends.
abbrev busy : List Event
busy =
    request "c"
    ∷ forget "b"
    ∷ wake 1
    ∷ request "a"
    ∷ finish 1 (some (errorf "timeout"))
    ∷ wake 1
    ∷ []

worker_keeps_name_example :
    let (p, rest) = take_front full_array in
    let woken = step two_waiting (wake 0) in
    let later = queue_run (λ n. n + n) rest (run_ops woken busy) in
    (get_elem? woken.workers 0 ≡ some (some "a"))
    × (deref later p ≡ "a")
    × (contents later ≡ (run woken busy).job_queue)
unfolding read start run step process empty contains
worker_keeps_name_example =
    worker_keeps_name (λ n. n + n) (λ n. omega arith) two_waiting full_array 0 "a" ("b" ∷ []) busy
      (record { array_there = omega arith; fits = omega arith }) refl refl refl
