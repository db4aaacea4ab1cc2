-- ===== src/Executor/Manager/Effects.antt =====
-- What `storeResult` does to each field of the manager, on both branches at once.
use k8s_cleaner.Common.{
  GoError, ◌+◌, String, ◌≡◌, inl, inr, none, some, Option, arith, count, count-snoc, one_if,
  contains, index_of, index_of-none, index_of-some, lookup, lookup-delete, lookup-insert, insert,
  ◌==◌, if◌then◌else◌, Option-cases,
}
use k8s_cleaner.Executor.Manager.{Manager, store_result, drop_key}

module _ (m : Manager) (k : String) (err : Option GoError) where
  pub dirty-store_result : (store_result m k err).dirty ≡ drop_key k m.dirty
  unfolding store_result drop_key
  dirty-store_result = ground arith

  pub in_progress-store_result : (store_result m k err).in_progress ≡ drop_key k m.in_progress
  unfolding store_result
  in_progress-store_result = ground arith

  -- The request goes back to the queue exactly when it was dirty.
  pub count-job_queue-store_result :
      (j : String)
      → count j (store_result m k err).job_queue
        ≡ (if contains m.dirty k then count j m.job_queue + one_if k j else count j m.job_queue)
  unfolding store_result
  count-job_queue-store_result j = elim (Option-cases (index_of k m.dirty)) [
    | inl e ↦ ground (arith, index_of-none k m.dirty e)
    | inr (i, e) ↦ ground (arith, index_of-some k m.dirty e, count-snoc j k m.job_queue)
  ]

  -- Otherwise its result is kept.
  pub lookup-store_result :
      (j : String)
      → lookup j (store_result m k err).results
        ≡ (if k == j then (if contains m.dirty k then none else some err) else lookup j m.results)
  unfolding store_result
  lookup-store_result j = elim (Option-cases (index_of k m.dirty)) [
    | inl e ↦ ground (arith, index_of-none k m.dirty e, lookup-insert k j err m.results)
    | inr (i, e) ↦ ground (
      arith,
      index_of-some k m.dirty e,
      lookup-insert k j err m.results,
      lookup-delete k j (insert k err m.results),
    )
  ]
