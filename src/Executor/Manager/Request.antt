-- ===== src/Executor/Manager/Request.antt =====
-- The manager as one request sees it: an abstract machine for each request, which the operations
-- implement, each on its own key and on no other.
use k8s_cleaner.Common.{
  GoError, ℕ, ◌+◌, ◌-◌, String, ◌≡◌, refl, ap, Option, none, some, List, ◌∷◌, [], ◌++◌, arith,
  count, count-cons, count-snoc, count-contains, count-not_contains, lookup, lookup-delete, ltb,
  ◌==◌, eq_iff, if◌then◌else◌,
}
use k8s_cleaner.Executor.Manager.{Manager, drop_key, process, take_job, store_result, get_result}
use k8s_cleaner.Executor.Manager.Slices.{count-drop_key}
use k8s_cleaner.Executor.Manager.Effects.{
  dirty-store_result, in_progress-store_result, count-job_queue-store_result, lookup-store_result,
}

-- How often the request stands in each slice, and its result.
pub record Request : Type 0 where
  pub waiting : ℕ
  pub queued : ℕ
  pub served : ℕ
  pub result : Option (Option GoError)

abbrev pub view : Manager → String → Request
view m k = record {
  waiting = count k m.dirty;
  queued = count k m.job_queue;
  served = count k m.in_progress;
  result = lookup k m.results;
}

-- A request that waits already is dropped; one that is served waits; any other is queued too.
abbrev pub asked : Request → Request
asked r =
    if ltb 0 r.waiting
    then r
    else if ltb 0 r.served
    then record r { waiting = 1; result = none }
    else record r { waiting = 1; result = none; queued = r.queued + 1 }

abbrev pub taken : Request → Request
taken r = record r { waiting = r.waiting - 1; queued = r.queued - 1; served = r.served + 1 }

-- A request that waits is queued again, and any other gets its result.
abbrev pub done : Option GoError → Request → Request
done err r =
    if ltb 0 r.waiting
    then record r {
      waiting = r.waiting - 1;
      queued = r.queued + 1;
      served = r.served - 1;
      result = none;
    }
    else record r { served = r.served - 1; result = some err }

abbrev pub told : Request → Request
told r = record r { result = none }

-- `Process` is the abstract `asked` on its own request.
pub view-process :
    (m : Manager) (k j : String)
    → view (process m k) j ≡ (if k == j then asked (view m j) else view m j)
unfolding process
view-process m k j = ground (
  arith,
  count-snoc j k m.dirty,
  count-snoc j k m.job_queue,
  count-contains k m.dirty,
  count-contains k m.in_progress,
  count-not_contains k m.dirty,
  count-not_contains k m.in_progress,
  lookup-delete k j m.results,
  eq_iff k j,
)

-- A worker takes the front of the queue, which is the abstract `taken` on that request.
pub view-take_job :
    (m : Manager) (k j : String) (q : List String)
    → m.job_queue ≡ k ∷ q
    → (m' : Manager) × (take_job m ≡ some (k, m'))
      × (m'.job_queue ≡ q)
      × (view m' j ≡ (if k == j then taken (view m j) else view m j))
unfolding take_job
view-take_job m k j q e = (
  record m { job_queue = q; in_progress = m.in_progress ++ k ∷ []; dirty = drop_key k m.dirty },
  ground arith,
  refl,
  ground (
    arith,
    count-snoc j k m.in_progress,
    count-drop_key k j m.dirty,
    count-cons j k q,
    eq_iff k j,
    ap (count j) e,
  ),
)

-- `storeResult` is the abstract `done` on its own request.
pub view-store_result :
    (m : Manager) (k j : String) (err : Option GoError)
    → view (store_result m k err) j ≡ (if k == j then done err (view m j) else view m j)
view-store_result m k j err = ground (
  arith,
  dirty-store_result m k err,
  in_progress-store_result m k err,
  count-job_queue-store_result m k err j,
  lookup-store_result m k err j,
  count-drop_key k j m.dirty,
  count-drop_key k j m.in_progress,
  count-contains k m.dirty,
  count-not_contains k m.dirty,
  eq_iff k j,
)

-- The operations of the queue implement the abstract machine of each request: `Process`,
-- `storeResult` and `GetResult` are `asked`, `done` and `told` on their own key, and leave the view
-- of every other request as it was.
pub refinement :
    (m : Manager) (k j : String) (err : Option GoError)
    → (view (process m k) j ≡ (if k == j then asked (view m j) else view m j))
      × (view (store_result m k err) j ≡ (if k == j then done err (view m j) else view m j))
      × (view (get_result m k).1 j ≡ (if k == j then told (view m j) else view m j))
unfolding get_result
refinement m k j err = (
  view-process m k j,
  view-store_result m k j err,
  ground (arith, lookup-delete k j m.results, eq_iff k j),
)
