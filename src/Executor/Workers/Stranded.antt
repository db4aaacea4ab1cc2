-- ===== src/Executor/Workers/Stranded.antt =====
-- A request that the pool believes to be in progress, although no worker serves it.
use k8s_cleaner.Common.{
  GoError, ℕ, ◌<◌, String, ◌≡◌, refl, ap, Option, none, some, List, [], ◌∷◌, arith, count,
  count-cons, count-snoc, contains_of_count, get_elem?, eq_iff, All,
}
use k8s_cleaner.Executor.Manager.Slices.{count-drop_key}
use k8s_cleaner.Executor.Manager.Effects.{in_progress-store_result, count-job_queue-store_result}
use k8s_cleaner.Executor.Workers.{System, Event, request, poll, forget, wake, finish, step, run}
use k8s_cleaner.Executor.Workers.Invariant.{workers_on, workers_on-set, NoRemoval}

-- A request that stands in `inProgress` though no worker serves it and it is not queued.
pub record Stranded (s : System) (j : String) : Type 0 where
  pub blocked : 0 < count j s.in_progress
  pub unqueued : count j s.job_queue ≡ 0
  pub unserved : workers_on j s.workers ≡ 0

request-Stranded : (s : System) (k j : String) → Stranded s j → Stranded (step s (request k)) j
unfolding step
request-Stranded s k j v =
    ground (arith, count-snoc j k s.job_queue, contains_of_count j s.in_progress, eq_iff k j)

wake-Stranded : (s : System) (i : ℕ) (j : String) → Stranded s j → Stranded (step s (wake i)) j
unfolding step
wake-Stranded s i j v = go (get_elem? s.workers i) refl s.job_queue refl
  where
    go :
        (w : Option (Option String)) (e : get_elem? s.workers i ≡ w) (q : List String)
        (eq : s.job_queue ≡ q)
        → Stranded (step s (wake i)) j
    go none e q eq = rw (e, step) v
    go (some (some x)) e q eq = rw (e, step) v
    go (some none) e [] eq = rw (e, eq, step) (ground (arith, ap (count j) eq))
    go (some none) e (k ∷ q) eq =
        rw (e, eq, step)
          (ground (
            arith,
            count-snoc j k s.in_progress,
            workers_on-set j s.workers i none (some k) e,
            ap (count j) eq,
            count-cons j k q,
          ))

finish-Stranded :
    (s : System) (i : ℕ) (err : Option GoError) (j : String)
    → Stranded s j
    → Stranded (step s (finish i err)) j
unfolding step
finish-Stranded s i err j v = go (get_elem? s.workers i) refl
  where
    go :
        (w : Option (Option String)) (e : get_elem? s.workers i ≡ w)
        → Stranded (step s (finish i err)) j
    go none e = rw (e, step) v
    go (some none) e = rw (e, step) v
    go (some (some k)) e =
        rw (e, step)
          (ground (
            arith,
            in_progress-store_result s.manager k err,
            count-job_queue-store_result s.manager k err j,
            count-drop_key k j s.in_progress,
            workers_on-set j s.workers i (some k) none e,
            eq_iff k j,
          ))

step-Stranded :
    (s : System) (e : Event) (j : String) → NoRemoval e → Stranded s j → Stranded (step s e) j
unfolding step
step-Stranded s (request k) j h v = request-Stranded s k j v
step-Stranded s (poll k) j h v = ground arith
step-Stranded s (forget k) j h v = absurd h
step-Stranded s (wake i) j h v = wake-Stranded s i j v
step-Stranded s (finish i err) j h v = finish-Stranded s i err j v

-- A stranded request stays so, however often it is asked for, until `RemoveEntries` is called
-- again: no worker ever serves it.
pub run-Stranded :
    (s : System) (es : List Event) (j : String)
    → All NoRemoval es
    → Stranded s j
    → Stranded (run s es) j
unfolding run
run-Stranded s [] j h v = v
run-Stranded s (e ∷ es) j h v = run-Stranded (step s e) es j h.1 (step-Stranded s e j h.0 v)
