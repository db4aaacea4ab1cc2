-- ===== src/Executor/Workers/Exclusion.antt =====
-- When the same request is never processed by two workers at once.
use k8s_cleaner.Common.{
  GoError, ℕ, ◌+◌, ◌≤◌, String, ◌≡◌, refl, ap, ◌⊎◌, Option, none, some, List, [], ◌∷◌, arith, count,
  count-cons, count-snoc, count-contains, count-not_contains, contains, get_elem?, eq_iff, true,
  false,
}
use k8s_cleaner.Executor.Manager.Slices.{count-drop_key}
use k8s_cleaner.Executor.Manager.Effects.{in_progress-store_result, count-job_queue-store_result}
use k8s_cleaner.Executor.Workers.{
  System, Event, request, poll, forget, wake, finish, start, step, run,
}
use k8s_cleaner.Executor.Workers.Invariant.{
  workers_on, workers_on-set, Inv, NoRemoval, step-Inv, start-Inv,
}

-- The caller asks for a request only when it is dirty already or not queued, and never calls
-- `RemoveEntries`.
abbrev pub Polite : System → Event → Type 0
Polite s (request k) = (contains s.dirty k ≡ true) ⊎ (contains s.job_queue k ≡ false)
Polite s (poll k) = Unit
Polite s (forget k) = ⊥
Polite s (wake i) = Unit
Polite s (finish i err) = Unit

abbrev pub PoliteRun : System → List Event → Type 0
PoliteRun s [] = Unit
PoliteRun s (e ∷ es) = Polite s e × PoliteRun (step s e) es

Polite-NoRemoval : (s : System) (e : Event) → Polite s e → NoRemoval e
Polite-NoRemoval s (request k) h = tt
Polite-NoRemoval s (poll k) h = tt
Polite-NoRemoval s (forget k) h = h
Polite-NoRemoval s (wake i) h = tt
Polite-NoRemoval s (finish i err) h = tt

abbrev Once : System → String → Type 0
Once s j = count j s.job_queue + count j s.in_progress ≤ 1

request-Once :
    (s : System) (k j : String)
    → Polite s (request k)
    → Inv s j
    → Once s j
    → Once (step s (request k)) j
unfolding step
request-Once s k j h v o = ground (
  arith,
  count-snoc j k s.job_queue,
  count-contains k s.dirty,
  count-not_contains k s.job_queue,
  count-not_contains k s.in_progress,
  eq_iff k j,
)

wake-Once : (s : System) (i : ℕ) (j : String) → Once s j → Once (step s (wake i)) j
unfolding step
wake-Once s i j o = go (get_elem? s.workers i) refl s.job_queue refl
  where
    go :
        (w : Option (Option String)) (e : get_elem? s.workers i ≡ w) (q : List String)
        (eq : s.job_queue ≡ q)
        → Once (step s (wake i)) j
    go none e q eq = rw (e, step) o
    go (some (some x)) e q eq = rw (e, step) o
    go (some none) e [] eq = rw (e, eq, step) (omega (arith, ap (count j) eq))
    go (some none) e (k ∷ q) eq =
        rw (e, eq, step)
          (omega (arith, count-snoc j k s.in_progress, count-cons j k q, ap (count j) eq))

finish-Once :
    (s : System) (i : ℕ) (err : Option GoError) (j : String)
    → Inv s j
    → Once s j
    → Once (step s (finish i err)) j
unfolding step
finish-Once s i err j v o = go (get_elem? s.workers i) refl
  where
    go :
        (w : Option (Option String)) (e : get_elem? s.workers i ≡ w)
        → Once (step s (finish i err)) j
    go none e = rw (e, step) o
    go (some none) e = rw (e, step) o
    go (some (some k)) e =
        rw (e, step)
          (ground (
            arith,
            in_progress-store_result s.manager k err,
            count-job_queue-store_result s.manager k err j,
            count-drop_key k j s.in_progress,
            workers_on-set j s.workers i (some k) none e,
            eq_iff k j,
          ))

step-Once :
    (s : System) (e : Event) (j : String) → Polite s e → Inv s j → Once s j → Once (step s e) j
unfolding step
step-Once s (request k) j h v o = request-Once s k j h v o
step-Once s (poll k) j h v o = ground arith
step-Once s (forget k) j h v o = absurd h
step-Once s (wake i) j h v o = wake-Once s i j o
step-Once s (finish i err) j h v o = finish-Once s i err j v o

run-Once :
    (s : System) (es : List Event) (j : String)
    → PoliteRun s es
    → Inv s j
    → Once s j
    → Inv (run s es) j × Once (run s es) j
unfolding run
run-Once s [] j h v o = (v, o)
run-Once s (e ∷ es) j h v o =
    run-Once (step s e) es j h.1 (step-Inv s e j (Polite-NoRemoval s e h.0) v)
      (step-Once s e j h.0 v o)

-- If every call of `Process` finds its request dirty or not queued, and `RemoveEntries` is not
-- called, then no request is ever served by two workers at once, nor queued twice, nor queued while
-- it is served.
pub no_overlap :
    (n : ℕ) (es : List Event) (j : String)
    → PoliteRun (start n) es
    → let s = run (start n) es in
      (workers_on j s.workers ≤ 1) × (count j s.job_queue + workers_on j s.workers ≤ 1)
unfolding start count
no_overlap n es j h =
    let (v, o) = run-Once (start n) es j h (start-Inv n j) (omega arith) in
    (omega (arith, v.tracked), omega (arith, v.tracked))
