-- ===== src/Executor/Workers/Invariant.antt =====
-- What holds between two events, for each request, as long as `RemoveEntries` is not called.
use k8s_cleaner.Common.{
  GoError, ℕ, zero, suc, ◌+◌, ◌≤◌, ◌<◌, String, ◌≡◌, refl, ap, Option, none, some, List, [], ◌∷◌,
  arith, count, count-cons, count-snoc, one_if, count-contains, count-not_contains, lookup,
  lookup-delete, get_elem?, set, replicate, All, eq_iff,
}
use k8s_cleaner.Executor.Manager.Slices.{count-drop_key}
use k8s_cleaner.Executor.Manager.Effects.{
  dirty-store_result, in_progress-store_result, count-job_queue-store_result, lookup-store_result,
}
use k8s_cleaner.Executor.Workers.{
  System, Event, request, poll, forget, wake, finish, start, step, run,
}

abbrev pub serving : Option String → String → ℕ
serving none j = 0
serving (some k) j = one_if k j

-- How many workers serve the request.
unfoldable pub workers_on : String → List (Option String) → ℕ
workers_on j [] = 0
workers_on j (w ∷ ws) = serving w j + workers_on j ws

pub workers_on-set :
    (j : String) (ws : List (Option String)) (i : ℕ) (v w : Option String)
    → get_elem? ws i ≡ some v
    → workers_on j (set ws i w) + serving v j ≡ workers_on j ws + serving w j
unfolding workers_on
workers_on-set j [] i v w e = ground arith
workers_on-set j (x ∷ ws) zero v w e = ground arith
workers_on-set j (x ∷ ws) (suc i) v w e = ground (arith, workers_on-set j ws i v w e)

pub record Inv (s : System) (j : String) : Type 0 where
  -- the dirty set is a set
  pub dirty_once : count j s.dirty ≤ 1
  -- a request is in progress as often as workers serve it
  pub tracked : count j s.in_progress ≡ workers_on j s.workers
  -- a dirty request will be served again
  pub pending : 0 < count j s.dirty → 0 < count j s.job_queue + count j s.in_progress
  -- a dirty request has no result
  pub unanswered : 0 < count j s.dirty → lookup j s.results ≡ none

request-Inv : (s : System) (k j : String) → Inv s j → Inv (step s (request k)) j
unfolding step
request-Inv s k j v = ground (
  arith,
  count-snoc j k s.dirty,
  count-snoc j k s.job_queue,
  count-contains k s.dirty,
  count-contains k s.in_progress,
  count-not_contains k s.dirty,
  lookup-delete k j s.results,
  eq_iff k j,
)

poll-Inv : (s : System) (k j : String) → Inv s j → Inv (step s (poll k)) j
unfolding step
poll-Inv s k j v = ground (arith, lookup-delete k j s.results, eq_iff k j)

wake-Inv : (s : System) (i : ℕ) (j : String) → Inv s j → Inv (step s (wake i)) j
unfolding step
wake-Inv s i j v = go (get_elem? s.workers i) refl s.job_queue refl
  where
    go :
        (w : Option (Option String)) (e : get_elem? s.workers i ≡ w) (q : List String)
        (eq : s.job_queue ≡ q)
        → Inv (step s (wake i)) j
    go none e q eq = rw (e, step) v
    go (some (some x)) e q eq = rw (e, step) v
    go (some none) e [] eq = rw (e, eq, step) (ground arith)
    go (some none) e (k ∷ q) eq =
        rw (e, eq, step)
          (ground (
            arith,
            count-snoc j k s.in_progress,
            count-drop_key k j s.dirty,
            workers_on-set j s.workers i none (some k) e,
            eq_iff k j,
            ap (count j) eq,
            count-cons j k q,
          ))

finish-Inv :
    (s : System) (i : ℕ) (err : Option GoError) (j : String)
    → Inv s j
    → Inv (step s (finish i err)) j
unfolding step
finish-Inv s i err j v = go (get_elem? s.workers i) refl
  where
    go :
        (w : Option (Option String)) (e : get_elem? s.workers i ≡ w) → Inv (step s (finish i err)) j
    go none e = rw (e, step) v
    go (some none) e = rw (e, step) v
    go (some (some k)) e =
        rw (e, step)
          (ground (
            arith,
            dirty-store_result s.manager k err,
            in_progress-store_result s.manager k err,
            count-job_queue-store_result s.manager k err j,
            lookup-store_result s.manager k err j,
            count-drop_key k j s.dirty,
            count-drop_key k j s.in_progress,
            count-not_contains k s.dirty,
            workers_on-set j s.workers i (some k) none e,
            eq_iff k j,
          ))

-- The event is no call of `RemoveEntries`.
abbrev pub NoRemoval : Event → Type 0
NoRemoval (forget k) = ⊥
NoRemoval (request k) = Unit
NoRemoval (poll k) = Unit
NoRemoval (wake i) = Unit
NoRemoval (finish i err) = Unit

pub step-Inv : (s : System) (e : Event) (j : String) → NoRemoval e → Inv s j → Inv (step s e) j
step-Inv s (request k) j h v = request-Inv s k j v
step-Inv s (poll k) j h v = poll-Inv s k j v
step-Inv s (forget k) j h v = absurd h
step-Inv s (wake i) j h v = wake-Inv s i j v
step-Inv s (finish i err) j h v = finish-Inv s i err j v

pub run-Inv :
    (s : System) (es : List Event) (j : String) → All NoRemoval es → Inv s j → Inv (run s es) j
unfolding run
run-Inv s [] j h v = v
run-Inv s (e ∷ es) j h v = run-Inv (step s e) es j h.1 (step-Inv s e j h.0 v)

workers_on-replicate : (j : String) (n : ℕ) → workers_on j (replicate n none) ≡ 0
unfolding workers_on
workers_on-replicate j zero = refl
workers_on-replicate j (suc n) = omega (arith, workers_on-replicate j n)

pub start-Inv : (n : ℕ) (j : String) → Inv (start n) j
unfolding start count
start-Inv n j = ground (arith, workers_on-replicate j n)

-- After any history without `RemoveEntries`, for every request: the dirty set holds it once at
-- most; it is in progress as often as workers serve it; while it is dirty it is queued or in
-- progress, so it is never lost; and while it is dirty it has no result.
pub run-start-Inv :
    (n : ℕ) (es : List Event) (j : String) → All NoRemoval es → Inv (run (start n) es) j
run-start-Inv n es j h = run-Inv (start n) es j h (start-Inv n j)
