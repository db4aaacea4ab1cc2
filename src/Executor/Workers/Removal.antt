-- ===== src/Executor/Workers/Removal.antt =====
-- `RemoveEntries` throws away the slices that `removeFromSlice` returns.
use k8s_cleaner.Common.{
  ◌+◌, ◌-◌, String, ◌≡◌, ◌≢◌, refl, sym, ap, Option, none, some, List, [], ◌∷◌, inl, inr, arith,
  length, length-set, count, one_if, contains, get_or, index_of, delete, lookup, lookup-delete,
  Bool-cases, if◌then◌else◌, index_of-none, ◌==◌, eq_iff, eq_refl, All, true, false, Option-cases,
}
use k8s_cleaner.Executor.Manager.{Manager, overwrite_key, drop_key, remove_entries}
use k8s_cleaner.Executor.Manager.Slices.{count-overwrite_at, index_of-Found}
use k8s_cleaner.Executor.Workers.{Event, request, forget, wake, finish, start, step, run}
use k8s_cleaner.Executor.Workers.Overlap.{state, drop_key-single, request_idle}
use k8s_cleaner.Executor.Workers.Stranded.{Stranded, run-Stranded}
use k8s_cleaner.Executor.Workers.Invariant.{workers_on, NoRemoval}

length-overwrite_key : (k : String) (s : List String) → length (overwrite_key k s) ≡ length s
unfolding overwrite_key
length-overwrite_key k s = elim (Option-cases (index_of k s)) [
  | inl e ↦ rw (e, overwrite_key) refl
  | inr (i, e) ↦ rw (e, overwrite_key) (length-set s i (get_or s (length s - 1) ""))
]

-- The last element of a slice.
abbrev pub last : List String → String
last s = get_or s (length s - 1) ""

pub count-overwrite_key :
    (k j : String) (s : List String)
    → contains s k ≡ true
    → count j (overwrite_key k s) + one_if k j ≡ count j s + one_if (last s) j
unfolding overwrite_key
count-overwrite_key k j s h = elim (Option-cases (index_of k s)) [
  | inl e ↦ ground (arith, index_of-none k s e)
  | inr (i, e) ↦
      let f = index_of-Found k s i e in
      rw (e, overwrite_key) (ground (arith, count-overwrite_at j s i f.within, f.holds))
]

index_of-not_contains : (k : String) (s : List String) → contains s k ≡ false → index_of k s ≡ none
unfolding index_of contains
index_of-not_contains k [] h = refl
index_of-not_contains k (x ∷ s) h = ground (arith, index_of-not_contains k s)

overwrite_key-missing :
    (k : String) (s : List String) → contains s k ≡ false → overwrite_key k s ≡ s
unfolding overwrite_key
overwrite_key-missing k s h = rw (index_of-not_contains k s h, overwrite_key) refl

-- One copy of `k` is replaced by one more copy of the last element, if `k` is there.
abbrev pub Replaced : String → String → List String → List String → Type 0
Replaced k j s s' =
    (length s' ≡ length s)
    × (count j s' + (if contains s k then one_if k j else 0)
        ≡ count j s + (if contains s k then one_if (last s) j else 0))

overwrite_key-Replaced : (k j : String) (s : List String) → Replaced k j s (overwrite_key k s)
overwrite_key-Replaced k j s = (
  length-overwrite_key k s,
  elim (Bool-cases (contains s k)) [
    | inl e ↦ rw e (count-overwrite_key k j s e)
    | inr e ↦ rw e (ap (λ (t : List String). count j t + 0) (overwrite_key-missing k s e))
  ],
)

-- `RemoveEntries` removes no entry: each of the three slices keeps its length, and in one that holds
-- the request, one copy of it is replaced by one more copy of the slice's last element; a slice that
-- does not hold it keeps its elements. Only the result of the request is gone.
pub remove_entries_keeps :
    (m : Manager) (k j : String)
    → let m' = remove_entries m k in
      Replaced k j m.job_queue m'.job_queue
      × Replaced k j m.dirty m'.dirty
      × Replaced k j m.in_progress m'.in_progress
      × (lookup j m'.results ≡ (if k == j then none else lookup j m.results))
unfolding remove_entries
remove_entries_keeps m k j = (
  overwrite_key-Replaced k j m.job_queue,
  overwrite_key-Replaced k j m.dirty,
  overwrite_key-Replaced k j m.in_progress,
  lookup-delete k j m.results,
)

-- Two workers serve `k` and `j`, `k` is deleted meanwhile, and both workers come to their end.
abbrev pub removal : String → String → List Event
removal k j =
    request k ∷ request j ∷ wake 0 ∷ wake 1 ∷ forget k ∷ finish 0 none ∷ finish 1 none ∷ []

not_equal : (k j : String) → k ≢ j → (k == j) ≡ false
not_equal k j ne = ground (arith, eq_iff k j)

module _ (k j : String) (ne : k ≢ j) where
  request_second :
      (ws : List (Option String))
      → step (state (k ∷ []) [] (k ∷ []) ws) (request j) ≡ state (k ∷ j ∷ []) [] (k ∷ j ∷ []) ws
  unfolding step contains delete
  request_second ws = rw (not_equal k j ne) refl

  drop_key-first : drop_key k (k ∷ j ∷ []) ≡ j ∷ []
  unfolding drop_key
  drop_key-first = ground (arith, eq_refl k)

  drop_key-pair : drop_key j (j ∷ j ∷ []) ≡ j ∷ []
  unfolding drop_key
  drop_key-pair = ground (arith, eq_refl j)

  drop_key-missing : drop_key k (j ∷ j ∷ []) ≡ j ∷ j ∷ []
  unfolding drop_key
  drop_key-missing = ground (arith, not_equal j k (λ e. ne (sym e)))

  overwrite_key-first : overwrite_key k (k ∷ j ∷ []) ≡ j ∷ j ∷ []
  unfolding overwrite_key
  overwrite_key-first = ground (arith, eq_refl k)

  overwrite_key-nil : overwrite_key k [] ≡ []
  unfolding overwrite_key
  overwrite_key-nil = refl

  wake_both :
      step (step (state (k ∷ j ∷ []) [] (k ∷ j ∷ []) (none ∷ none ∷ [])) (wake 0)) (wake 1)
      ≡ state [] (k ∷ j ∷ []) [] (some k ∷ some j ∷ [])
  unfolding step
  wake_both = rw (drop_key-first, drop_key-single j) refl

  forget_busy :
      (ws : List (Option String))
      → step (state [] (k ∷ j ∷ []) [] ws) (forget k) ≡ state [] (j ∷ j ∷ []) [] ws
  unfolding step delete
  forget_busy ws = rw (overwrite_key-first, overwrite_key-nil) refl

  finish_both :
      Stranded
        (step
          (step (state [] (j ∷ j ∷ []) [] (some k ∷ some j ∷ [])) (finish 0 none))
          (finish 1 none))
        j
  unfolding step index_of count workers_on
  finish_both = rw (drop_key-missing, drop_key-pair) (ground (arith, eq_refl j))

  removal-Stranded : Stranded (run (start 2) (removal k j)) j
  unfolding run start
  removal-Stranded =
      rw
        (
          request_idle k [] (none ∷ none ∷ []),
          request_second (none ∷ none ∷ []),
          wake_both,
          forget_busy (some k ∷ some j ∷ []),
        )
        finish_both

-- After the history `removal k j`, where the request `k` is removed while one worker serves it and
-- another worker serves a different request `j`, no worker ever serves `j` again, whatever comes
-- without a further call of `RemoveEntries`, requests for `j` included.
pub never_served_again :
    (k j : String) (es : List Event)
    → k ≢ j
    → All NoRemoval es
    → workers_on j (run (run (start 2) (removal k j)) es).workers ≡ 0
never_served_again k j es ne h = (run-Stranded _ es j h (removal-Stranded k j ne)).unserved
