-- ===== src/Executor/Queue.antt =====
-- internal/controller/executor/worker.go and client.go: the job queue in memory. The queue is a slice
-- of an array, and a worker keeps a pointer to the element that it took,
-- `cleanerName = &managerInstance.jobQueue[0]`, while the array is still written to.
pub mod Arrays
pub mod Pointers
pub mod Workers
use k8s_cleaner.Common.{
  ℕ, zero, suc, ◌+◌, ◌-◌, String, ◌&&◌, Option, none, some, List, [], ◌∷◌, ◌++◌, ltb, eqb, index_of,
  if◌then◌else◌,
}
use k8s_cleaner.Executor.Manager.{overwrite_key}

-- The arrays that there are, and the slice: its array, its first index there, its length, and how
-- many elements there are in the array from the first one on.
pub record JobQueue : Type 0 where
  pub arrays : ℕ → ℕ → String
  pub next_array : ℕ
  pub array : ℕ
  pub first : ℕ
  pub len : ℕ
  pub capacity : ℕ

-- The elements of an array from an index on.
unfoldable pub read : (ℕ → String) → ℕ → ℕ → List String
read f i zero = []
read f i (suc n) = f i ∷ read f (suc i) n

abbrev pub contents : JobQueue → List String
contents q = read (q.arrays q.array) q.first q.len

abbrev pub write : (ℕ → ℕ → String) → ℕ → ℕ → String → ℕ → ℕ → String
write arrays a i k b j = if eqb b a && eqb j i then k else arrays b j

-- `append` with room in the array.
abbrev pub append_in_place : String → JobQueue → JobQueue
append_in_place key q = record q {
  arrays = write q.arrays q.array (q.first + q.len) key;
  len = suc q.len;
}

-- `append` without: the elements are copied to a new array. How much room it has, the runtime decides.
abbrev pub append_in_new : (ℕ → ℕ) → String → JobQueue → JobQueue
append_in_new grow key q = record {
  arrays = λ b j.
      if eqb b q.next_array
      then (if ltb j q.len then q.arrays q.array (q.first + j) else if eqb j q.len then key else "")
      else q.arrays b j;
  next_array = suc q.next_array;
  array = q.next_array;
  first = 0;
  len = suc q.len;
  capacity = grow (suc q.len);
}

-- `jobQueue = append(jobQueue, key)`
abbrev pub append_job : (ℕ → ℕ) → String → JobQueue → JobQueue
append_job grow key q =
    if ltb q.len q.capacity then append_in_place key q else append_in_new grow key q

-- A pointer to an element of an array.
pub record ElementPointer : Type 0 where
  pub in_array : ℕ
  pub index : ℕ

abbrev pub deref : JobQueue → ElementPointer → String
deref q p = q.arrays p.in_array p.index

-- `cleanerName = &jobQueue[0]; jobQueue = jobQueue[1:]`, in a queue that is not empty
abbrev pub take_front : JobQueue → ElementPointer × JobQueue
take_front q = (
  record { in_array = q.array; index = q.first },
  record q { first = suc q.first; len = q.len - 1; capacity = q.capacity - 1 },
)

-- `removeFromSlice` writes the last element over another.
abbrev pub overwrite_at : ℕ → JobQueue → JobQueue
overwrite_at i q = record q {
  arrays = write q.arrays q.array (q.first + i) (q.arrays q.array (q.first + (q.len - 1)));
}

-- The loop of `RemoveEntries` over the queue: what `removeFromSlice` returns is thrown away.
abbrev pub overwrite_job : String → JobQueue → JobQueue
overwrite_job key q = elim (index_of key (contents q)) [ none ↦ q | some i ↦ overwrite_at i q ]

-- What `Process` and `storeResult`, other workers, and `RemoveEntries` do to the queue.
pub data QueueOp : Type 0 where
  append_op : String → QueueOp
  take_op : QueueOp
  overwrite_op : String → QueueOp

abbrev pub advanced : ℕ → JobQueue → JobQueue
advanced zero q = q
advanced (suc n) q = (take_front q).1

pub queue_step : (ℕ → ℕ) → JobQueue → QueueOp → JobQueue
queue_step grow q (append_op key) = append_job grow key q
queue_step grow q take_op = advanced q.len q
queue_step grow q (overwrite_op key) = overwrite_job key q

pub queue_run : (ℕ → ℕ) → JobQueue → List QueueOp → JobQueue
queue_run grow q [] = q
queue_run grow q (op ∷ ops) = queue_run grow (queue_step grow q op) ops

-- The same on the list of the keys, as the manager has it.
abbrev pub rest_of : List String → List String
rest_of [] = []
rest_of (key ∷ keys) = keys

pub list_step : List String → QueueOp → List String
unfolding overwrite_key
list_step keys (append_op key) = keys ++ key ∷ []
list_step keys take_op = rest_of keys
list_step keys (overwrite_op key) = overwrite_key key keys

pub list_run : List String → List QueueOp → List String
list_run keys [] = keys
list_run keys (op ∷ ops) = list_run (list_step keys op) ops
