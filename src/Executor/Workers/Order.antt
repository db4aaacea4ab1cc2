-- ===== src/Executor/Workers/Order.antt =====
-- Requests are served in the order in which they were queued.
use mathlib.Core.List.{append-nil, append_assoc}
use k8s_cleaner.Common.{
  GoError, ℕ, String, ◌≡◌, refl, sym, ◌∙◌, Option, none, some, List, [], ◌∷◌, ◌++◌, arith, All,
  get_elem?, inl, inr, index_of, Option-cases, Bool-cases, contains,
}
use k8s_cleaner.Executor.Manager.{Manager, take_job, store_result}
use k8s_cleaner.Executor.Workers.{System, Event, request, poll, forget, wake, finish, step, run}
use k8s_cleaner.Executor.Workers.Invariant.{NoRemoval}

-- The request that a worker takes.
abbrev picked : Option (String × Manager) → List String
picked none = []
picked (some (k, m)) = k ∷ []

abbrev picks : System → Option (Option String) → List String
picks s (some none) = picked (take_job s.manager)
picks s (some (some k)) = []
picks s none = []

-- The request that an event hands to a worker, if any.
abbrev pub served : System → Event → List String
served s (wake i) = picks s (get_elem? s.workers i)
served s (request k) = []
served s (poll k) = []
served s (forget k) = []
served s (finish i err) = []

-- The requests that a history hands to workers, in order.
pub served_in : System → List Event → List String
served_in s [] = []
served_in s (e ∷ es) = served s e ++ served_in (step s e) es

abbrev pub Fifo : System → System → List String → Type 0
Fifo s t taken = (new : List String) × (s.job_queue ++ new ≡ taken ++ t.job_queue)

request-Fifo : (s : System) (k : String) → Fifo s (step s (request k)) []
unfolding step
request-Fifo s k = elim (Bool-cases (contains s.dirty k)) [
  | inl e ↦ ([], rw e (append-nil s.job_queue))
  | inr e ↦ elim (Bool-cases (contains s.in_progress k)) [
    | inl f ↦ ([], rw (e, f) (append-nil s.job_queue))
    | inr f ↦ (k ∷ [], rw (e, f) refl)
  ]
]

wake-Fifo : (s : System) (i : ℕ) → Fifo s (step s (wake i)) (served s (wake i))
unfolding step
wake-Fifo s i = go (get_elem? s.workers i) refl s.job_queue refl
  where
    go :
        (w : Option (Option String)) (e : get_elem? s.workers i ≡ w) (q : List String)
        (eq : s.job_queue ≡ q)
        → Fifo s (step s (wake i)) (served s (wake i))
    go none e q eq = ([], rw (e, step) (append-nil s.job_queue))
    go (some (some x)) e q eq = ([], rw (e, step) (append-nil s.job_queue))
    go (some none) e [] eq = ([], rw (e, eq, step, take_job) refl)
    go (some none) e (k ∷ q) eq = ([], rw (e, eq, step, take_job) (append-nil (k ∷ q)))

finish-Fifo : (s : System) (i : ℕ) (err : Option GoError) → Fifo s (step s (finish i err)) []
unfolding step
finish-Fifo s i err = go (get_elem? s.workers i) refl
  where
    go :
        (w : Option (Option String)) (e : get_elem? s.workers i ≡ w)
        → Fifo s (step s (finish i err)) []
    go none e = ([], rw (e, step) (append-nil s.job_queue))
    go (some none) e = ([], rw (e, step) (append-nil s.job_queue))
    go (some (some k)) e = elim (Option-cases (index_of k s.dirty)) [
      | inl f ↦ ([], rw (e, f, step, store_result) (append-nil s.job_queue))
      | inr (n, f) ↦ (k ∷ [], rw (e, f, step, store_result) refl)
    ]

step-Fifo : (s : System) (e : Event) → NoRemoval e → Fifo s (step s e) (served s e)
unfolding step
step-Fifo s (request k) h = request-Fifo s k
step-Fifo s (poll k) h = ([], append-nil s.job_queue ∙ ground arith)
step-Fifo s (forget k) h = absurd h
step-Fifo s (wake i) h = wake-Fifo s i
step-Fifo s (finish i err) h = finish-Fifo s i err

Fifo-trans :
    (s t u : System) (xs ys : List String) → Fifo s t xs → Fifo t u ys → Fifo s u (xs ++ ys)
Fifo-trans s t u xs ys (a, p) (b, q) = (
  a ++ b,
  sym (append_assoc s.job_queue a b)
      ∙ rw (p, append_assoc xs t.job_queue b, q) (sym (append_assoc xs ys u.job_queue)),
)

-- In every history without `RemoveEntries`, the requests that workers take and then the queue that
-- is left are the queue at the start with what was added at its end: nobody is overtaken, and
-- nothing that was queued is lost.
pub fifo : (s : System) (es : List Event) → All NoRemoval es → Fifo s (run s es) (served_in s es)
unfolding run served_in
fifo s [] h = ([], append-nil s.job_queue)
fifo s (e ∷ es) h =
    Fifo-trans s (step s e) (run (step s e) es) (served s e) (served_in (step s e) es)
      (step-Fifo s e h.0) (fifo (step s e) es h.1)
