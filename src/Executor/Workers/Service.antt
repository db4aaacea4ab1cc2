-- ===== src/Executor/Workers/Service.antt =====
-- A request that is dirty is served: what the invariant and the turns of a worker say together.
use k8s_cleaner.Common.{
  GoError, ℕ, zero, suc, ◌+◌, ◌<◌, String, ◌≡◌, ◌⊎◌, inl, inr, Option, none, some, List, [], ◌∷◌,
  arith, All, length, get_elem?, count, count-snoc, count-contains, count-not_contains, eq_iff,
  eq_refl, Bool-cases, ◌==◌, ◌∙◌, ap,
}
use k8s_cleaner.Executor.Manager.{Manager, process}
use k8s_cleaner.Executor.Manager.Effects.{count-job_queue-store_result}
use k8s_cleaner.Executor.Workers.{System, Event, request, finish, step, run}
use k8s_cleaner.Executor.Workers.Invariant.{Inv, workers_on}
use k8s_cleaner.Executor.Workers.Progress.{IsCall, turns, served_after_turns}

-- The request `k` stands at a place of the queue, and an idle worker serves it after as many turns.
pub record InTurn (s : System) (k : String) : Type 0 where
  pub place : ℕ
  pub comes :
      (i : ℕ) (rounds : List (List Event × Option GoError)) (last : List Event)
      → get_elem? s.workers i ≡ some none
      → length rounds ≡ place
      → All (λ (r : List Event × Option GoError). All IsCall r.0) rounds
      → All IsCall last
      → get_elem? (run s (turns i rounds last)).workers i ≡ some (some k)

-- It is in turn, or a worker serves it now and it is in turn when that ends, with an error or not.
pub data ServedLater (s : System) (k : String) : Type 0 where
  in_turn : InTurn s k → ServedLater s k
  once_more :
      (i : ℕ)
      → get_elem? s.workers i ≡ some (some k)
      → ((err : Option GoError) → InTurn (step s (finish i err)) k)
      → ServedLater s k

place_of : (k : String) (q : List String) → 0 < count k q → (p : ℕ) × (get_elem? q p ≡ some k)
unfolding count
place_of k [] h = absurd (omega (arith, h))
place_of k (x ∷ q) h = elim (Bool-cases (x == k)) [
  | inl e ↦ (zero, ap some ((eq_iff x k).0 e))
  | inr e ↦ let (p, found) = place_of k q (ground (arith, h, e)) in (suc p, found)
]

worker_of :
    (k : String) (ws : List (Option String))
    → 0 < workers_on k ws
    → (i : ℕ) × (get_elem? ws i ≡ some (some k))
unfolding workers_on
worker_of k [] h = absurd (omega (arith, h))
worker_of k (none ∷ ws) h = let (i, found) = worker_of k ws (omega (arith, h)) in (suc i, found)
worker_of k (some x ∷ ws) h = elim (Bool-cases (x == k)) [
  | inl e ↦ (zero, ap (λ y. some (some y)) ((eq_iff x k).0 e))
  | inr e ↦ let (i, found) = worker_of k ws (ground (arith, h, e)) in (suc i, found)
]

queued-InTurn : (s : System) (k : String) → 0 < count k s.job_queue → InTurn s k
queued-InTurn s k h =
    let (p, found) = place_of k s.job_queue h in
    record {
      place = p;
      comes = λ i rounds last idle l a b.
          served_after_turns s i k rounds last a b
            record { idle = idle; place = ap (get_elem? s.job_queue) l ∙ found };
    }

-- `Process` leaves its request dirty.
dirty-process : (m : Manager) (k : String) → 0 < count k (process m k).dirty
unfolding process
dirty-process m k = ground (arith, count-contains k m.dirty, count-snoc k k m.dirty, eq_refl k)

finish-queues :
    (s : System) (i : ℕ) (k : String) (err : Option GoError)
    → get_elem? s.workers i ≡ some (some k)
    → 0 < count k s.dirty
    → 0 < count k (step s (finish i err)).job_queue
unfolding step
finish-queues s i k err serving dirty =
    rw (serving, step)
      (ground (
        arith,
        count-job_queue-store_result s.manager k err k,
        count-not_contains k s.dirty,
        eq_refl k,
        dirty,
      ))

pub dirty-ServedLater : (s : System) (k : String) → Inv s k → 0 < count k s.dirty → ServedLater s k
dirty-ServedLater s k v h =
    elim (pos_or (count k s.job_queue) (count k s.in_progress) (v.pending h)) [
      | inl q ↦ in_turn (queued-InTurn s k q)
      | inr g ↦
          let (i, serving) = worker_of k s.workers (omega (arith, g, v.tracked)) in
          once_more i serving
            λ err. queued-InTurn (step s (finish i err)) k (finish-queues s i k err serving h)
    ]
  where
    pos_or : (m n : ℕ) → 0 < m + n → (0 < m) ⊎ (0 < n)
    pos_or zero n l = inr (omega (arith, l))
    pos_or (suc m) n l = inl (omega arith)

-- After a call of `Process` a request is served later.
pub request-ServedLater :
    (s : System) (k : String) → Inv (step s (request k)) k → ServedLater (step s (request k)) k
unfolding step
request-ServedLater s k v = dirty-ServedLater _ k v (dirty-process s.manager k)
