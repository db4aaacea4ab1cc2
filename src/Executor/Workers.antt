-- ===== src/Executor/Workers.antt =====
-- internal/controller/executor/worker.go, `processRequests`: a pool of workers around the manager.
-- The callers of the manager and the workers interleave in any order, each holding the mutex for
-- one operation, so a run of the program is a list of events.
pub mod Invariant
pub mod Overlap
pub mod Exclusion
pub mod Stranded
pub mod Removal
pub mod Order
pub mod Progress
pub mod Service
pub mod Answers
use k8s_cleaner.Common.{
  GoError, ℕ, String, Option, none, some, List, [], ◌∷◌, get_elem?, set, replicate,
}
use k8s_cleaner.Executor.Manager.{
  Manager, empty, process, take_job, store_result, get_result, remove_entries,
}

-- The manager and, for each worker, its `cleanerName`: nil, or the request that it serves.
pub record System : Type 0 where
  pub manager : Manager
  pub open manager use *
  pub workers : List (Option String)

-- `startWorkloadWorkers`
unfoldable pub start : ℕ → System
unfolding empty
start n = record { manager = empty; workers = replicate n none }

pub data Event : Type 0 where
  -- a call of `Process`
  request : String → Event
  -- a call of `GetResult`
  poll : String → Event
  -- a call of `RemoveEntries`
  forget : String → Event
  -- the timer of worker i fires
  wake : ℕ → Event
  -- `processCleanerInstance` returns in worker i, with this error
  finish : ℕ → Option GoError → Event

-- The request is taken by worker i.
assign : System → ℕ → Option (String × Manager) → System
assign s i none = s
assign s i (some (key, m)) = record { manager = m; workers = set s.workers i (some key) }

-- Worker i in its `select`: a worker that serves a request is not there.
on_wake : System → ℕ → Option (Option String) → System
unfolding take_job assign
on_wake s i (some none) = assign s i (take_job s.manager)
on_wake s i _ = s

-- Worker i after `processCleanerInstance`: the result is stored and `cleanerName` is nil again.
on_finish : System → ℕ → Option GoError → Option (Option String) → System
unfolding store_result
on_finish s i err (some (some key)) = record {
  manager = store_result s.manager key err;
  workers = set s.workers i none;
}
on_finish s i err _ = s

-- An event that cannot happen, such as the timer of a worker that is busy, changes nothing.
unfoldable pub step : System → Event → System
unfolding process get_result remove_entries on_wake on_finish
step s (request key) = record s { manager = process s.manager key }
step s (poll key) = record s { manager = (get_result s.manager key).1 }
step s (forget key) = record s { manager = remove_entries s.manager key }
step s (wake i) = on_wake s i (get_elem? s.workers i)
step s (finish i err) = on_finish s i err (get_elem? s.workers i)

unfoldable pub run : System → List Event → System
run s [] = s
run s (e ∷ es) = run (step s e) es
