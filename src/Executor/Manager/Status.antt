-- ===== src/Executor/Manager/Status.antt =====
-- The answers of `GetResult`.
use k8s_cleaner.Common.{
  GoError, ◌+◌, ◌<◌, String, ◌≡◌, none, some, true, false, Option, [], ◌∷◌, ◌++◌, ◌||◌, Bool,
  count-snoc, arith, count, contains, contains_of_count, count-contains, lookup, lookup-delete,
  ◌==◌, eq_iff, eq_refl, if◌then◌else◌,
}
use k8s_cleaner.Executor.Manager.{Manager, Result, ResultStatus, get_result, process, store_result}
use k8s_cleaner.Executor.Manager.Effects.{lookup-store_result, count-job_queue-store_result}

-- The answer that the state of a request determines, and the results map that is left.
unfoldable pub answer : Option (Option GoError) → Bool → Result
answer (some none) b = record { result_status = ResultStatus.processed; err = none }
answer (some (some e)) b = record { result_status = ResultStatus.failed; err = some e }
answer none true = record { result_status = ResultStatus.in_progress; err = none }
answer none false = record { result_status = ResultStatus.unavailable; err = none }

-- `GetResult` reports the stored result if there is one, `InProgress` while the request is served or
-- queued, and `Unavailable` otherwise.
pub get_result-answer :
    (m : Manager) (k : String)
    → (get_result m k).0
      ≡ answer (lookup k m.results) (contains m.in_progress k || contains m.job_queue k)
unfolding get_result answer
get_result-answer m k = ground arith

-- A result is delivered once: reading it removes it, and touches no other request.
pub lookup-get_result :
    (m : Manager) (k j : String)
    → lookup j (get_result m k).1.results ≡ (if k == j then none else lookup j m.results)
unfolding get_result
lookup-get_result m k j = ground (arith, lookup-delete k j m.results, eq_iff k j)

-- What a worker stores is what the next `GetResult` reports, unless the request has come again
-- meanwhile: then it is queued, and reported as in progress.
get_result-store_result :
    (m : Manager) (k : String) (err : Option GoError)
    → (get_result (store_result m k err) k).0
      ≡ (if contains m.dirty k then answer none true else answer (some err) false)
unfolding answer
get_result-store_result m k err = rw (get_result-answer (store_result m k err) k) (
    ground (
      arith,
      lookup-store_result m k err k,
      eq_refl k,
      count-job_queue-store_result m k err k,
      contains_of_count k (store_result m k err).job_queue,
    ))

-- Right after `Process` a request is reported as in progress, in any manager where a dirty request
-- has no result and is queued or in progress.
get_result-process :
    (m : Manager) (k : String)
    → (0 < count k m.dirty → 0 < count k m.job_queue + count k m.in_progress)
    → (0 < count k m.dirty → lookup k m.results ≡ none)
    → (get_result (process m k) k).0 ≡ answer none true
unfolding process answer
get_result-process m k pending unanswered = rw (get_result-answer (process m k) k) (
    ground (
      arith,
      eq_refl k,
      lookup-delete k k m.results,
      count-contains k m.dirty,
      count-snoc k k m.job_queue,
      contains_of_count k m.job_queue,
      contains_of_count k m.in_progress,
      contains_of_count k (m.job_queue ++ k ∷ []),
    ))
