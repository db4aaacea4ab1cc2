-- ===== src/Executor/Manager.antt =====
-- internal/controller/executor/client.go and the queue half of worker.go: the request queue that
-- the reconcilers and the workers share. Each operation runs under the mutex of the manager, so it
-- is one function from state to state.
pub mod Slices
pub mod Effects
pub mod Status
pub mod Request
use k8s_cleaner.Common.{
  ℕ, suc, ◌-◌, String, Bool, true, false, Option, none, some, List, [], ◌∷◌, ◌++◌, Assoc, GoError,
  errorf, lookup, delete, insert, length, get_or, set, take, contains, index_of, if◌then◌else◌,
}

pub record Manager : Type 0 where
  -- requests that wait to be served
  pub dirty : List String
  -- requests that a worker is serving
  pub in_progress : List String
  -- requests in the order in which workers take them
  pub job_queue : List String
  -- `map[string]error`: a missing key, a nil error, or an error
  pub results : Assoc (Option GoError)

-- What `startWorkloadWorkers` sets up before it starts the workers.
unfoldable pub empty : Manager
empty = record { dirty = []; in_progress = []; job_queue = []; results = [] }

-- `s[i] = s[len(s)-1]; return s[:len(s)-1]`: what the caller's slice holds afterwards, and what is
-- returned. Go panics when `i` is out of range; all callers pass an index that a loop found.
unfoldable pub remove_from_slice : List String → ℕ → List String × List String
remove_from_slice s i =
    let s' = set s i (get_or s (length s - 1) "") in (s', take (length s - 1) s')

-- `for i := range s { if s[i] == key { s = removeFromSlice(s, i); break } }`
unfoldable pub drop_key : String → List String → List String
unfolding remove_from_slice index_of
drop_key key s = elim (index_of key s) [ none ↦ s | some i ↦ (remove_from_slice s i).1 ]

-- The same loop with the result of the call thrown away, as `RemoveEntries` has it.
unfoldable pub overwrite_key : String → List String → List String
unfolding remove_from_slice index_of
overwrite_key key s = elim (index_of key s) [ none ↦ s | some i ↦ (remove_from_slice s i).0 ]

-- `Manager.Process`
unfoldable pub process : Manager → String → Manager
process m key =
    if contains m.dirty key
    then m
    else (let added = record m { results = delete key m.results; dirty = m.dirty ++ key ∷ [] } in
        if contains added.in_progress key
        then added
        else record added { job_queue = added.job_queue ++ key ∷ [] })

-- The critical section of `processRequests`: take the front of the queue, if there is one.
unfoldable pub take_job : Manager → Option (String × Manager)
take_job m = elim m.job_queue [
  | [] ↦ none
  | key ∷ rest ↦ some (
    key,
    record m {
      job_queue = rest;
      in_progress = m.in_progress ++ key ∷ [];
      dirty = drop_key key m.dirty;
    },
  )
]

-- `storeResult`
unfoldable pub store_result : Manager → String → Option GoError → Manager
store_result m key err =
    let done = record m {
      in_progress = drop_key key m.in_progress;
      results = insert key err m.results;
    } in
    elim (index_of key done.dirty) [
      | none ↦ done
      | some i ↦ record done {
        job_queue = done.job_queue ++ key ∷ [];
        dirty = (remove_from_slice done.dirty i).1;
        results = delete key done.results;
      }
    ]

pub record ResponseParams : Type 0 where
  pub cleaner_name : String
  pub err : Option GoError

-- What `getRequestStatus` returns beside the new state: a response, nil without an error, or an
-- error.
pub data RequestStatus : Type 0 where
  response : ResponseParams → RequestStatus
  pending : RequestStatus
  unknown : GoError → RequestStatus

-- `getRequestStatus`
unfoldable pub get_request_status : Manager → String → RequestStatus × Manager
get_request_status m key = elim (lookup key m.results) [
  | some e ↦ (
    response (record { cleaner_name = key; err = e }),
    record m { results = delete key m.results },
  )
  | none ↦
      if contains m.in_progress key
      then (pending, m)
      else if contains m.job_queue key
      then (pending, m)
      else (unknown (errorf "request has not been processed nor is currently queued"), m)
]

-- `ResultStatus`
pub data ResultStatus : Type 0 where
  processed in_progress failed unavailable : ResultStatus

-- `ResultStatus.String`
unfoldable pub status_string : ResultStatus → String
status_string processed = "processed"
status_string in_progress = "in-progress"
status_string failed = "failed"
status_string unavailable = "unavailable"

pub record Result : Type 0 where
  pub result_status : ResultStatus
  pub err : Option GoError

-- `Manager.GetResult`, which maps the answer of `getRequestStatus`.
unfoldable pub result_of : RequestStatus → Result
result_of (unknown e) = record { result_status = ResultStatus.unavailable; err = none }
result_of pending = record { result_status = ResultStatus.in_progress; err = none }
result_of (response r) = elim r.err [
  | none ↦ record { result_status = ResultStatus.processed; err = none }
  | some e ↦ record { result_status = ResultStatus.failed; err = some e }
]

unfoldable pub get_result : Manager → String → Result × Manager
unfolding get_request_status result_of
get_result m key = let (status, m') = get_request_status m key in (result_of status, m')

-- `Manager.RemoveEntries`
unfoldable pub remove_entries : Manager → String → Manager
remove_entries m key = record m {
  in_progress = overwrite_key key m.in_progress;
  dirty = overwrite_key key m.dirty;
  job_queue = overwrite_key key m.job_queue;
  results = delete key m.results;
}
