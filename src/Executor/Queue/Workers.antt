-- ===== src/Executor/Queue/Workers.antt =====
-- The queue in memory next to the pool: which writes each event makes.
use k8s_cleaner.Common.{
  GoError, ℕ, ◌≤◌, String, ◌≡◌, refl, ◌∙◌, sym, ap, Option, none, some, List, [], ◌∷◌, ◌++◌,
  contains, index_of, get_elem?, arith, Bool-cases, Option-cases, inl, inr, if◌then◌else◌,
}
use k8s_cleaner.Executor.Manager.{process, get_result, remove_entries, store_result}
use k8s_cleaner.Executor.Workers.{System, Event, request, poll, forget, wake, finish, step, run}
use k8s_cleaner.Executor.Workers.Progress.{woken}
use k8s_cleaner.Executor.Queue.{
  JobQueue, contents, deref, take_front, QueueOp, append_op, take_op, overwrite_op, queue_run,
  list_step, list_run,
}
use k8s_cleaner.Executor.Queue.Pointers.{IsPlaced, taken_name_stays}

-- What an event does to the queue.
ops_of : System → Event → List QueueOp
ops_of s (request key) =
    if contains s.dirty key
    then []
    else if contains s.in_progress key
    then []
    else append_op key ∷ []
ops_of s (poll key) = []
ops_of s (forget key) = overwrite_op key ∷ []
ops_of s (wake i) = elim (get_elem? s.workers i) [
  | some none ↦ take_op ∷ []
  | some (some key) ↦ []
  | none ↦ []
]
ops_of s (finish i err) = elim (get_elem? s.workers i) [
  | some (some key) ↦ elim (index_of key s.dirty) [ none ↦ [] | some j ↦ append_op key ∷ [] ]
  | some none ↦ []
  | none ↦ []
]

pub run_ops : System → List Event → List QueueOp
unfolding ops_of
run_ops s [] = []
run_ops s (e ∷ es) = ops_of s e ++ run_ops (step s e) es

list_run-append :
    (keys : List String) (ops more : List QueueOp)
    → list_run keys (ops ++ more) ≡ list_run (list_run keys ops) more
unfolding list_run
list_run-append keys [] more = refl
list_run-append keys (op ∷ ops) more = list_run-append (list_step keys op) ops more

wake-queue :
    (s : System) (i : ℕ) → (step s (wake i)).job_queue ≡ list_run s.job_queue (ops_of s (wake i))
unfolding step list_run list_step ops_of
wake-queue s i = go (get_elem? s.workers i) refl s.job_queue refl
  where
    go :
        (w : Option (Option String)) (e : get_elem? s.workers i ≡ w) (q : List String)
        (eq : s.job_queue ≡ q)
        → (step s (wake i)).job_queue ≡ list_run s.job_queue (ops_of s (wake i))
    go none e q eq = rw (e, step, ops_of) refl
    go (some (some x)) e q eq = rw (e, step, ops_of) refl
    go (some none) e [] eq = rw (e, eq, step, ops_of) refl
    go (some none) e (x ∷ q) eq = rw (e, eq, step, ops_of) refl

finish-queue :
    (s : System) (i : ℕ) (err : Option GoError)
    → (step s (finish i err)).job_queue ≡ list_run s.job_queue (ops_of s (finish i err))
unfolding step list_run list_step ops_of store_result
finish-queue s i err = go (get_elem? s.workers i) refl
  where
    go :
        (w : Option (Option String)) (e : get_elem? s.workers i ≡ w)
        → (step s (finish i err)).job_queue ≡ list_run s.job_queue (ops_of s (finish i err))
    go none e = rw (e, step, ops_of) refl
    go (some none) e = rw (e, step, ops_of) refl
    go (some (some x)) e = elim (Option-cases (index_of x s.dirty)) [
      | inl d ↦ rw (e, step, ops_of, d, store_result) refl
      | inr (j, d) ↦ rw (e, step, ops_of, d, store_result) refl
    ]

request-queue :
    (s : System) (key : String)
    → (step s (request key)).job_queue ≡ list_run s.job_queue (ops_of s (request key))
unfolding step list_run list_step ops_of process
request-queue s key = elim (Bool-cases (contains s.dirty key)) [
  | inl e ↦ rw e refl
  | inr e ↦ elim (Bool-cases (contains s.in_progress key)) [
    | inl f ↦ rw (e, f) refl
    | inr f ↦ rw (e, f) refl
  ]
]

step-queue : (s : System) (e : Event) → (step s e).job_queue ≡ list_run s.job_queue (ops_of s e)
unfolding step list_run list_step ops_of get_result remove_entries
step-queue s (request key) = request-queue s key
step-queue s (poll key) = ground arith
step-queue s (forget key) = refl
step-queue s (wake i) = wake-queue s i
step-queue s (finish i err) = finish-queue s i err

run-queue :
    (s : System) (es : List Event) → (run s es).job_queue ≡ list_run s.job_queue (run_ops s es)
unfolding run run_ops list_run
run-queue s [] = refl
run-queue s (e ∷ es) =
    run-queue (step s e) es
    ∙ ap (λ keys. list_run keys (run_ops (step s e) es)) (step-queue s e)
    ∙ sym (list_run-append s.job_queue (ops_of s e) (run_ops (step s e) es))

module _ (grow : ℕ → ℕ) (grows : (n : ℕ) → n ≤ grow n) where
  -- A worker takes the front of the queue and keeps a pointer into the queue's array. Whatever
  -- happens in the pool afterwards, in any order, the pointer leads to the name that the worker
  -- serves, and the slice reads as the queue of the manager, also when the queue moves to another
  -- array. The worker is idle before, and the slice reads as the manager's queue, which is not
  -- empty; its array is there and has room for it; and `append` makes a new array no smaller than
  -- it needs.
  pub worker_keeps_name :
      (s : System) (q : JobQueue) (i : ℕ) (name : String) (names : List String) (es : List Event)
      → IsPlaced q
      → contents q ≡ s.job_queue
      → s.job_queue ≡ name ∷ names
      → get_elem? s.workers i ≡ some none
      → let (p, rest) = take_front q in
        let woken = step s (wake i) in
        let later = queue_run grow rest (run_ops woken es) in
        (get_elem? woken.workers i ≡ some (some name))
        × (deref later p ≡ name)
        × (contents later ≡ (run woken es).job_queue)
  worker_keeps_name s q i name names es placed same e idle =
      let woken_s = step s (wake i) in
      let (serving, left) = woken s i name names idle e in
      let (held, read_as) =
        taken_name_stays grow grows q name names (run_ops woken_s es) placed (same ∙ e) in
      (
        serving,
        held,
        read_as
            ∙ ap (λ keys. list_run keys (run_ops woken_s es)) (sym left)
            ∙ sym (run-queue woken_s es),
      )
