-- ===== src/Executor/Workers/Answers.antt =====
-- The result of a run stays until it is read, whatever the pool does for other requests.
use k8s_cleaner.Common.{
  GoError, ℕ, String, ◌≡◌, ◌≢◌, refl, Option, none, some, List, [], ◌∷◌, arith, All, get_elem?,
  count, count-snoc, count-cons, count-contains, eq_iff, eq_refl, lookup, lookup-delete, ap,
}
use k8s_cleaner.Executor.Manager.{process}
use k8s_cleaner.Executor.Manager.Slices.{count-drop_key}
use k8s_cleaner.Executor.Manager.Effects.{
  dirty-store_result, count-job_queue-store_result, lookup-store_result,
}
use k8s_cleaner.Executor.Workers.{System, Event, request, poll, forget, wake, finish, step, run}
use k8s_cleaner.Executor.Workers.Invariant.{workers_on, workers_on-set}

-- The run of `k` is over, and its result waits to be read.
pub record Answered (s : System) (k : String) (err : Option GoError) : Type 0 where
  pub clean : count k s.dirty ≡ 0
  pub unqueued : count k s.job_queue ≡ 0
  pub unserved : workers_on k s.workers ≡ 0
  pub result : lookup k s.results ≡ some err

-- The event is no call of the manager for `k`, nor a call of `RemoveEntries`.
abbrev pub Spares : String → Event → Type 0
Spares k (request x) = x ≢ k
Spares k (poll x) = x ≢ k
Spares k (forget x) = ⊥
Spares k (wake i) = Unit
Spares k (finish i err) = Unit

-- `k` is served by worker `i` alone, and nobody has asked for another run.
pub record LastRun (s : System) (i : ℕ) (k : String) : Type 0 where
  pub served : get_elem? s.workers i ≡ some (some k)
  pub alone : workers_on k s.workers ≡ 1
  pub not_dirty : count k s.dirty ≡ 0
  pub not_queued : count k s.job_queue ≡ 0

pub finish-Answered :
    (s : System) (i : ℕ) (k : String) (err : Option GoError)
    → LastRun s i k
    → Answered (step s (finish i err)) k err
unfolding step
finish-Answered s i k err l =
    rw (l.served, step)
      (ground (
        arith,
        dirty-store_result s.manager k err,
        count-job_queue-store_result s.manager k err k,
        lookup-store_result s.manager k err k,
        count-drop_key k k s.dirty,
        count-contains k s.dirty,
        workers_on-set k s.workers i (some k) none l.served,
        l.alone,
        l.not_dirty,
        l.not_queued,
        eq_refl k,
      ))

module _ (s : System) (k : String) (err : Option GoError) where
  request-Answered : (x : String) → x ≢ k → Answered s k err → Answered (step s (request x)) k err
  unfolding step process
  request-Answered x other a = ground (
    arith,
    count-snoc k x s.dirty,
    count-snoc k x s.job_queue,
    lookup-delete x k s.results,
    eq_iff x k,
    other,
  )

  poll-Answered : (x : String) → x ≢ k → Answered s k err → Answered (step s (poll x)) k err
  unfolding step
  poll-Answered x other a = ground (arith, lookup-delete x k s.results, eq_iff x k, other)

  wake-Answered : (i : ℕ) → Answered s k err → Answered (step s (wake i)) k err
  unfolding step
  wake-Answered i a = go (get_elem? s.workers i) refl s.job_queue refl
    where
      go :
          (w : Option (Option String)) (e : get_elem? s.workers i ≡ w) (q : List String)
          (eq : s.job_queue ≡ q)
          → Answered (step s (wake i)) k err
      go none e q eq = rw (e, step) a
      go (some (some x)) e q eq = rw (e, step) a
      go (some none) e [] eq = rw (e, eq, step) (ground (arith, a))
      go (some none) e (x ∷ q) eq =
          rw (e, eq, step)
            (ground (
              arith,
              a,
              count-drop_key x k s.dirty,
              workers_on-set k s.workers i none (some x) e,
              eq_iff x k,
              ap (count k) eq,
              count-cons k x q,
            ))

  finish-keeps :
      (i : ℕ) (err' : Option GoError) → Answered s k err → Answered (step s (finish i err')) k err
  unfolding step
  finish-keeps i err' a = go (get_elem? s.workers i) refl
    where
      go :
          (w : Option (Option String)) (e : get_elem? s.workers i ≡ w)
          → Answered (step s (finish i err')) k err
      go none e = rw (e, step) a
      go (some none) e = rw (e, step) a
      go (some (some x)) e =
          rw (e, step)
            (ground (
              arith,
              a,
              dirty-store_result s.manager x err',
              count-job_queue-store_result s.manager x err' k,
              lookup-store_result s.manager x err' k,
              count-drop_key x k s.dirty,
              workers_on-set k s.workers i (some x) none e,
              eq_iff x k,
            ))

step-Answered :
    (s : System) (e : Event) (k : String) (err : Option GoError)
    → Spares k e
    → Answered s k err
    → Answered (step s e) k err
step-Answered s (request x) k err h a = request-Answered s k err x h a
step-Answered s (poll x) k err h a = poll-Answered s k err x h a
step-Answered s (forget x) k err h a = absurd h
step-Answered s (wake i) k err h a = wake-Answered s k err i a
step-Answered s (finish i err') k err h a = finish-keeps s k err i err' a

pub run-Answered :
    (s : System) (es : List Event) (k : String) (err : Option GoError)
    → All (Spares k) es
    → Answered s k err
    → Answered (run s es) k err
unfolding run
run-Answered s [] k err h a = a
run-Answered s (e ∷ es) k err h a =
    run-Answered (step s e) es k err h.1 (step-Answered s e k err h.0 a)
