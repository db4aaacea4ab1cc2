-- ===== src/Executor/Workers/Progress.antt =====
-- A request that is queued is served: what one worker does for the queue.
use k8s_cleaner.Common.{
  GoError, ℕ, zero, suc, String, ◌≡◌, refl, ◌∙◌, ap, Option, none, some, List, [], ◌∷◌, ◌++◌, arith,
  All, length, get_elem?, set, inl, inr, index_of, Option-cases, Bool-cases, contains,
}
use k8s_cleaner.Executor.Manager.{Manager, take_job, store_result, process, get_result}
use k8s_cleaner.Executor.Workers.{System, Event, request, poll, forget, wake, finish, step, run}
use k8s_cleaner.Executor.Workers.Overlap.{run-append}

-- Calls that ask for runs and for results.
abbrev pub IsCall : Event → Type 0
IsCall (request k) = Unit
IsCall (poll k) = Unit
IsCall (forget k) = ⊥
IsCall (wake i) = ⊥
IsCall (finish i err) = ⊥

-- The turns of worker `i`: in each of them, after calls of others, it takes a request and finishes it,
-- with an error or not; in the last turn it takes one.
pub turns : ℕ → List (List Event × Option GoError) → List Event → List Event
turns i [] last = last ++ wake i ∷ []
turns i ((calls, err) ∷ rest) last = calls ++ wake i ∷ finish i err ∷ turns i rest last

-- Worker `i` is idle, and `k` stands at the place `p` of the queue.
pub record Waits (s : System) (i : ℕ) (k : String) (p : ℕ) : Type 0 where
  pub idle : get_elem? s.workers i ≡ some none
  pub place : get_elem? s.job_queue p ≡ some k

get_elem?-append {ℓ} :
    {A : Type ℓ} (xs ys : List A) (p : ℕ) (x : A)
    → get_elem? xs p ≡ some x
    → get_elem? (xs ++ ys) p ≡ some x
get_elem?-append [] ys p x h = absurd (cc h)
get_elem?-append (y ∷ xs) ys zero x h = h
get_elem?-append (y ∷ xs) ys (suc p) x h = get_elem?-append xs ys p x h

get_elem?-set {ℓ} :
    {A : Type ℓ} (xs : List A) (i : ℕ) (x y : A)
    → get_elem? xs i ≡ some x
    → get_elem? (set xs i y) i ≡ some y
get_elem?-set [] i x y h = absurd (cc h)
get_elem?-set (z ∷ xs) zero x y h = refl
get_elem?-set (z ∷ xs) (suc i) x y h = get_elem?-set xs i x y h

step-Waits :
    (s : System) (e : Event) (i : ℕ) (k : String) (p : ℕ)
    → IsCall e
    → Waits s i k p
    → Waits (step s e) i k p
unfolding step process get_result
step-Waits s (request x) i k p h w = record {
  idle = w.idle;
  place = elim (Bool-cases (contains s.dirty x)) [
    | inl e ↦ rw e w.place
    | inr e ↦ elim (Bool-cases (contains s.in_progress x)) [
      | inl f ↦ rw (e, f) w.place
      | inr f ↦ rw (e, f) (get_elem?-append s.job_queue (x ∷ []) p k w.place)
    ]
  ];
}
step-Waits s (poll x) i k p h w = record { idle = w.idle; place = ground (arith, w.place) }
step-Waits s (forget x) i k p h w = absurd h
step-Waits s (wake j) i k p h w = absurd h
step-Waits s (finish j err) i k p h w = absurd h

run-Waits :
    (s : System) (es : List Event) (i : ℕ) (k : String) (p : ℕ)
    → All IsCall es
    → Waits s i k p
    → Waits (run s es) i k p
unfolding run
run-Waits s [] i k p h w = w
run-Waits s (e ∷ es) i k p h w = run-Waits (step s e) es i k p h.1 (step-Waits s e i k p h.0 w)

-- The front of the queue goes to the worker.
pub woken :
    (s : System) (i : ℕ) (x : String) (q : List String)
    → get_elem? s.workers i ≡ some none
    → s.job_queue ≡ x ∷ q
    → (get_elem? (step s (wake i)).workers i ≡ some (some x)) × ((step s (wake i)).job_queue ≡ q)
unfolding step take_job
woken s i x q idle e =
    rw (idle, step, e, take_job) (get_elem?-set s.workers i none (some x) idle, refl)

place-store_result :
    (m : Manager) (x : String) (err : Option GoError) (k : String) (p : ℕ)
    → get_elem? m.job_queue p ≡ some k
    → get_elem? (store_result m x err).job_queue p ≡ some k
unfolding store_result
place-store_result m x err k p h = elim (Option-cases (index_of x m.dirty)) [
  | inl e ↦ rw (e, store_result) h
  | inr (j, e) ↦ rw (e, store_result) (get_elem?-append m.job_queue (x ∷ []) p k h)
]

finished :
    (s : System) (i : ℕ) (x : String) (err : Option GoError) (k : String) (p : ℕ)
    → get_elem? s.workers i ≡ some (some x)
    → get_elem? s.job_queue p ≡ some k
    → Waits (step s (finish i err)) i k p
unfolding step
finished s i x err k p serving place =
    rw (serving, step)
      (record {
        idle = get_elem?-set s.workers i (some x) none serving;
        place = place-store_result s.manager x err k p place;
      })

turn-Waits :
    (s : System) (i : ℕ) (err : Option GoError) (k : String) (p : ℕ)
    → Waits s i k (suc p)
    → Waits (step (step s (wake i)) (finish i err)) i k p
turn-Waits s i err k p w = go s.job_queue refl w.place
  where
    go :
        (q : List String)
        → s.job_queue ≡ q
        → get_elem? q (suc p) ≡ some k
        → Waits (step (step s (wake i)) (finish i err)) i k p
    go [] e h = absurd (cc h)
    go (x ∷ q) e h =
        let (serving, left) = woken s i x q w.idle e in
        finished (step s (wake i)) i x err k p serving (rw left h)

last-turn :
    (s : System) (i : ℕ) (k : String)
    → Waits s i k zero
    → get_elem? (step s (wake i)).workers i ≡ some (some k)
last-turn s i k w = go s.job_queue refl w.place
  where
    go :
        (q : List String)
        → s.job_queue ≡ q
        → get_elem? q zero ≡ some k
        → get_elem? (step s (wake i)).workers i ≡ some (some k)
    go [] e h = absurd (cc h)
    go (x ∷ q) e h = (woken s i x q w.idle e).0 ∙ ap some h

-- A request that is queued is served after as many turns of one idle worker as requests stand before
-- it: however those end, and whichever runs and results are asked for before each turn, the worker
-- then serves it. `RemoveEntries` is not called meanwhile, and no other worker takes or ends a request.
pub served_after_turns :
    (s : System) (i : ℕ) (k : String) (rounds : List (List Event × Option GoError))
    (last : List Event)
    → All (λ (r : List Event × Option GoError). All IsCall r.0) rounds
    → All IsCall last
    → Waits s i k (length rounds)
    → get_elem? (run s (turns i rounds last)).workers i ≡ some (some k)
unfolding run turns
served_after_turns s i k [] last h l w =
    rw (run-append s last (wake i ∷ []))
      (last-turn (run s last) i k (run-Waits s last i k zero l w))
served_after_turns s i k ((calls, err) ∷ rest) last h l w =
    rw (run-append s calls (wake i ∷ finish i err ∷ turns i rest last)) (
      served_after_turns (step (step (run s calls) (wake i)) (finish i err)) i k rest last h.1 l (
        turn-Waits (run s calls) i err k (length rest)
          (run-Waits s calls i k (suc (length rest)) h.0 w)))
