-- ===== src/Executor/Workers/Overlap.antt =====
-- A request that comes while it is served and once more while it is queued again is queued twice:
-- `storeResult` takes it off the dirty set when it puts it back on the queue.
use mathlib.Core.List.{append-nil}
use native.Mathlib.Nat.{zero-add, add-zero}
use k8s_cleaner.Common.{
  ℕ, zero, suc, ◌+◌, String, ◌≡◌, refl, ap, ◌∙◌, Option, none, some, List, [], ◌∷◌, ◌++◌, arith,
  length, replicate, All, get_elem?, set, length-append, delete, insert, contains, index_of,
  eq_refl,
}
use k8s_cleaner.Executor.Manager.{drop_key, remove_from_slice}
use k8s_cleaner.Executor.Workers.{System, Event, request, wake, finish, start, step, run}
use k8s_cleaner.Executor.Workers.Invariant.{workers_on, NoRemoval}

-- Worker 0 serves the request; it comes again while it is served.
abbrev pub round : String → List Event
round k = request k ∷ wake 0 ∷ request k ∷ finish 0 none ∷ []

abbrev pub rounds : String → ℕ → List Event
rounds k zero = []
rounds k (suc n) = round k ++ rounds k n

-- The timers of `c` workers fire, from worker `i` on.
abbrev pub wakes : ℕ → ℕ → List Event
wakes i zero = []
wakes i (suc c) = wake i ∷ wakes (suc i) c

-- A system with no stored result.
abbrev pub state : List String → List String → List String → List (Option String) → System
state dirty in_progress queue ws = record {
  manager = record { dirty = dirty; in_progress = in_progress; job_queue = queue; results = [] };
  workers = ws;
}

replicate-snoc {ℓ} : {A : Type ℓ} (q : ℕ) (a : A) → replicate q a ++ a ∷ [] ≡ a ∷ replicate q a
replicate-snoc zero a = refl
replicate-snoc (suc q) a = rw (replicate-snoc q a)

pub run-append : (s : System) (es fs : List Event) → run s (es ++ fs) ≡ run (run s es) fs
unfolding run
run-append s [] fs = refl
run-append s (e ∷ es) fs = run-append (step s e) es fs

pub drop_key-single : (k : String) → drop_key k (k ∷ []) ≡ []
unfolding drop_key
drop_key-single k = ground (arith, eq_refl k)

module _ (k : String) (q : List String) (ws : List (Option String)) where
  pub request_idle : step (state [] [] q ws) (request k) ≡ state (k ∷ []) [] (q ++ k ∷ []) ws
  unfolding step contains delete
  request_idle = refl

  wake_first :
      step (state (k ∷ []) [] (k ∷ q) (none ∷ ws)) (wake 0) ≡ state [] (k ∷ []) q (some k ∷ ws)
  unfolding step
  wake_first = rw (drop_key-single k) refl

  request_busy : step (state [] (k ∷ []) q ws) (request k) ≡ state (k ∷ []) (k ∷ []) q ws
  unfolding step contains delete
  request_busy = rw (eq_refl k) refl

  finish_first :
      step (state (k ∷ []) (k ∷ []) q (some k ∷ ws)) (finish 0 none)
      ≡ state [] [] (q ++ k ∷ []) (none ∷ ws)
  unfolding step index_of insert remove_from_slice
  finish_first = ground (arith, eq_refl k, drop_key-single k)

run-round :
    (k : String) (q : ℕ) (ws : List (Option String))
    → run (state [] [] (replicate q k) (none ∷ ws)) (round k)
      ≡ state [] [] (replicate (suc q) k) (none ∷ ws)
unfolding run
run-round k q ws = rw (
  request_idle k (replicate q k) (none ∷ ws),
  replicate-snoc q k,
  wake_first k (replicate q k) ws,
  request_busy k (replicate q k) (some k ∷ ws),
  finish_first k (replicate q k) ws,
  replicate-snoc q k,
)

run-rounds :
    (k : String) (q n : ℕ) (ws : List (Option String))
    → run (state [] [] (replicate q k) (none ∷ ws)) (rounds k n)
      ≡ state [] [] (replicate (n + q) k) (none ∷ ws)
unfolding run
run-rounds k q zero ws = rw zero-add
run-rounds k q (suc n) ws =
    run-append (state [] [] (replicate q k) (none ∷ ws)) (round k) (rounds k n)
    ∙ rw (run-round k q ws) (
        run-rounds k (suc q) n ws
        ∙ ap (λ (c : ℕ). state [] [] (replicate c k) (none ∷ ws)) (omega arith))

get_elem?-at {ℓ} :
    {A : Type ℓ} (xs ys : List A) (y : A) → get_elem? (xs ++ y ∷ ys) (length xs) ≡ some y
get_elem?-at [] ys y = refl
get_elem?-at (x ∷ xs) ys y = get_elem?-at xs ys y

set-at {ℓ} :
    {A : Type ℓ} (xs ys : List A) (y z : A)
    → set (xs ++ y ∷ ys) (length xs) z ≡ (xs ++ z ∷ []) ++ ys
set-at [] ys y z = refl
set-at (x ∷ xs) ys y z = rw (set-at xs ys y z)

drop_key-nil : (k : String) → drop_key k [] ≡ []
unfolding drop_key
drop_key-nil k = refl

module _ (k : String) (p q : List String) (ws vs : List (Option String)) where
  wake_next :
      step (state [] p (k ∷ q) (ws ++ none ∷ vs)) (wake (length ws))
      ≡ state [] (p ++ k ∷ []) q ((ws ++ some k ∷ []) ++ vs)
  unfolding step
  wake_next = rw (get_elem?-at ws vs none, set-at ws vs none (some k), drop_key-nil k, step) refl

workers_on-snoc :
    (k : String) (ws : List (Option String))
    → workers_on k (ws ++ some k ∷ []) ≡ suc (workers_on k ws)
unfolding workers_on
workers_on-snoc k [] = ground (arith, eq_refl k)
workers_on-snoc k (w ∷ ws) = omega (arith, workers_on-snoc k ws)

workers_on-wakes :
    (k : String) (c : ℕ) (p : List String) (ws : List (Option String))
    → workers_on k
        (run (state [] p (replicate c k) (ws ++ replicate c none)) (wakes (length ws) c)).workers
      ≡ workers_on k ws + c
unfolding run
workers_on-wakes k zero p ws = rw (append-nil ws) (omega arith)
workers_on-wakes k (suc c) p ws =
    ap (λ (t : System). workers_on k (run t (wakes (suc (length ws)) c)).workers)
      (wake_next k p (replicate c k) ws (replicate c none))
    ∙ rw (length-snoc ws) (
        workers_on-wakes k c (p ++ k ∷ []) (ws ++ some k ∷ [])
        ∙ omega (arith, workers_on-snoc k ws))
  where
    length-snoc : (xs : List (Option String)) → suc (length xs) ≡ length (xs ++ some k ∷ [])
    length-snoc xs = omega (arith, length-append xs (some k ∷ []))

NoRemoval-rounds :
    (k : String) (n : ℕ) (es : List Event) → All NoRemoval es → All NoRemoval (rounds k n ++ es)
NoRemoval-rounds k zero es h = h
NoRemoval-rounds k (suc n) es h = (tt, (tt, (tt, (tt, NoRemoval-rounds k n es h))))

NoRemoval-wakes : (i c : ℕ) → All NoRemoval (wakes i c)
NoRemoval-wakes i zero = tt
NoRemoval-wakes i (suc c) = (tt, NoRemoval-wakes (suc i) c)

-- With any number of workers there is a history, without `RemoveEntries`, after which every one of
-- them is processing the same request.
pub overlap :
    (n : ℕ) (k : String)
    → (es : List Event) × All NoRemoval es × (workers_on k (run (start (suc n)) es).workers ≡ suc n)
unfolding start
overlap n k = (
  rounds k (suc n) ++ wakes 0 (suc n),
  NoRemoval-rounds k (suc n) _ (NoRemoval-wakes 0 (suc n)),
  ap (λ (t : System). workers_on k t.workers)
        (run-append (start (suc n)) (rounds k (suc n)) (wakes 0 (suc n)))
      ∙ ap (λ (t : System). workers_on k (run t (wakes 0 (suc n))).workers)
          (run-rounds k 0 (suc n) (replicate n none))
      ∙ rw (add-zero (suc n)) (workers_on-wakes k (suc n) [] [] ∙ zero_workers),
)
  where
    zero_workers : workers_on k [] + suc n ≡ suc n
    zero_workers = unfold workers_on in omega arith
