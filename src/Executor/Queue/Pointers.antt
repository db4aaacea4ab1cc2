-- ===== src/Executor/Queue/Pointers.antt =====
-- The pointer of a worker into the queue's array.
use k8s_cleaner.Common.{
  ℕ, zero, suc, ◌+◌, ◌-◌, ◌<◌, ◌≤◌, String, ◌≡◌, refl, ◌∙◌, sym, ap, ap₂, true, none, some, List,
  [], ◌∷◌, ◌++◌, ltb, index_of, length, get_or, set, arith, Bool-cases, inl, inr,
}
use k8s_cleaner.Executor.Manager.{overwrite_key, remove_from_slice}
use k8s_cleaner.Executor.Queue.{
  JobQueue, read, contents, write, append_in_place, append_in_new, append_job, ElementPointer,
  deref, take_front, overwrite_at, overwrite_job, QueueOp, append_op, take_op, overwrite_op,
  advanced, queue_step, queue_run, rest_of, list_step, list_run,
}
use k8s_cleaner.Executor.Queue.Arrays.{
  minus_one, read-ext, read-snoc, length-read, get_or-read, read-set, front,
}

-- Where the queue is in memory.
pub record IsPlaced (q : JobQueue) : Type 0 where
  pub array_there : q.array < q.next_array
  pub fits : q.len ≤ q.capacity

-- A pointer to an element that has left the slice.
pub record Behind (q : JobQueue) (p : ElementPointer) : Type 0 where
  pub pointed_there : p.in_array < q.next_array
  pub passed : p.in_array ≡ q.array → p.index < q.first

-- One operation does the same to the memory as to the list, and leaves what `p` points to.
record Keeps (q q' : JobQueue) (keys : List String) (p : ElementPointer) : Type 0 where
  same : contents q' ≡ keys
  placed : IsPlaced q'
  behind : Behind q' p
  held : deref q' p ≡ deref q p

module _ (grow : ℕ → ℕ) (grows : (n : ℕ) → n ≤ grow n) (q : JobQueue) (p : ElementPointer)
    (placed : IsPlaced q) (behind : Behind q p) where
  in_place-Keeps :
      (key : String)
      → ltb q.len q.capacity ≡ true
      → Keeps q (append_in_place key q) (contents q ++ key ∷ []) p
  in_place-Keeps key room = record {
    same =
        let after = write q.arrays q.array (q.first + q.len) key q.array in
        read-snoc after q.first q.len
        ∙ ap₂ (λ xs x. xs ++ x ∷ [])
            (read-ext after (q.arrays q.array) q.first q.first q.len λ m l. ground arith)
            (ground arith);
    placed = record { array_there = placed.array_there; fits = ground arith };
    behind = record { pointed_there = behind.pointed_there; passed = behind.passed };
    held = ground (arith, behind.passed);
  }

  in_new-Keeps : (key : String) → Keeps q (append_in_new grow key q) (contents q ++ key ∷ []) p
  in_new-Keeps key = record {
    same =
        let after = (append_in_new grow key q).arrays q.next_array in
        read-snoc after 0 q.len
        ∙ ap₂ (λ xs x. xs ++ x ∷ [])
            (read-ext after (q.arrays q.array) 0 q.first q.len λ m l. ground arith) (ground arith);
    placed = record { array_there = omega arith; fits = grows (suc q.len) };
    behind = record {
      pointed_there = omega (arith, behind.pointed_there);
      passed = λ e. absurd (omega (arith, behind.pointed_there, e));
    };
    held = ground (arith, behind.pointed_there);
  }

  append-Keeps : (key : String) → Keeps q (append_job grow key q) (contents q ++ key ∷ []) p
  append-Keeps key = elim (Bool-cases (ltb q.len q.capacity)) [
    | inl e ↦ rw e (in_place-Keeps key e)
    | inr e ↦ rw e (in_new-Keeps key)
  ]

  advanced-Keeps : Keeps q (advanced q.len q) (rest_of (contents q)) p
  unfolding read
  advanced-Keeps = go q.len refl
    where
      go : (n : ℕ) → q.len ≡ n → Keeps q (advanced n q) (rest_of (contents q)) p
      go zero e = record { same = rw e refl; placed = placed; behind = behind; held = refl }
      go (suc n) e = record {
        same = rw e (ap (read (q.arrays q.array) (suc q.first)) (minus_one n));
        placed = record { array_there = placed.array_there; fits = omega (arith, placed.fits, e) };
        behind = record {
          pointed_there = behind.pointed_there;
          passed = λ there. omega (arith, behind.passed there);
        };
        held = refl;
      }

  last_of :
      (n : ℕ)
      → q.len ≡ suc n
      → get_or (contents q) (length (contents q) - 1) "" ≡ q.arrays q.array (q.first + (q.len - 1))
  last_of n e =
      rw (length-read (q.arrays q.array) q.first q.len)
        (get_or-read (q.arrays q.array) q.first q.len (q.len - 1) (omega (arith, e)))

  overwrite_at-same :
      (i n : ℕ) → q.len ≡ n → contents (overwrite_at i q) ≡ (remove_from_slice (contents q) i).0
  unfolding remove_from_slice read
  overwrite_at-same i zero e = rw e refl
  overwrite_at-same i (suc n) e =
      read-set (q.arrays q.array) ((overwrite_at i q).arrays q.array) q.first q.len i
        (q.arrays q.array (q.first + (q.len - 1))) (ground arith) (λ j other. ground (arith, other))
      ∙ ap (set (contents q) i) (sym (last_of n e))

  overwrite_at-Keeps : (i : ℕ) → Keeps q (overwrite_at i q) (remove_from_slice (contents q) i).0 p
  overwrite_at-Keeps i = record {
    same = overwrite_at-same i q.len refl;
    placed = record { array_there = placed.array_there; fits = placed.fits };
    behind = record { pointed_there = behind.pointed_there; passed = behind.passed };
    held = ground (arith, behind.passed);
  }

  overwrite-Keeps :
      (key : String) → Keeps q (overwrite_job key q) (overwrite_key key (contents q)) p
  unfolding overwrite_key
  overwrite-Keeps key =
      elim (index_of key (contents q))
        as (λ r.
          Keeps q (elim r as (λ _. JobQueue) [ none ↦ q | some i ↦ overwrite_at i q ])
            (elim r as (λ _. List String) [
              | none ↦ contents q
              | some i ↦ (remove_from_slice (contents q) i).0
            ])
            p) [
              | none ↦ record { same = refl; placed = placed; behind = behind; held = refl }
              | some i ↦ overwrite_at-Keeps i
            ]

  step-Keeps : (op : QueueOp) → Keeps q (queue_step grow q op) (list_step (contents q) op) p
  unfolding queue_step list_step
  step-Keeps (append_op key) = append-Keeps key
  step-Keeps take_op = advanced-Keeps
  step-Keeps (overwrite_op key) = overwrite-Keeps key

module _ (grow : ℕ → ℕ) (grows : (n : ℕ) → n ≤ grow n) where
  run-Keeps :
      (q : JobQueue) (p : ElementPointer) (ops : List QueueOp)
      → IsPlaced q
      → Behind q p
      → (deref (queue_run grow q ops) p ≡ deref q p)
        × (contents (queue_run grow q ops) ≡ list_run (contents q) ops)
  unfolding queue_run list_run
  run-Keeps q p [] placed behind = (refl, refl)
  run-Keeps q p (op ∷ ops) placed behind =
      let k = step-Keeps grow grows q p placed behind op in
      let (held, same) = run-Keeps (queue_step grow q op) p ops k.placed k.behind in
      (held ∙ k.held, same ∙ ap (λ keys. list_run keys ops) k.same)

  -- A worker takes the front of the queue and keeps a pointer to it. Whatever is appended to the queue,
  -- taken from it or overwritten in it afterwards, and whether or not the queue moves to another
  -- array, the pointer leads to the name that was at the front; and the slice reads as the list of
  -- names that the manager keeps. The runtime gives an array no less room than is asked for; the
  -- queue's array is there, and has room for its elements.
  pub taken_name_stays :
      (q : JobQueue) (name : String) (names : List String) (ops : List QueueOp)
      → IsPlaced q
      → contents q ≡ name ∷ names
      → let (p, rest) = take_front q in
        let later = queue_run grow rest ops in
        (deref later p ≡ name) × (contents later ≡ list_run names ops)
  taken_name_stays q name names ops placed e =
      let (there, left, some_there) = front (q.arrays q.array) q.first q.len name names e in
      let (held, same) =
        run-Keeps (take_front q).1 (take_front q).0 ops
          (record {
            array_there = placed.array_there;
            fits = omega (arith, placed.fits, some_there);
          })
          (record { pointed_there = placed.array_there; passed = λ here. omega arith }) in
      (held ∙ there, same ∙ ap (λ keys. list_run keys ops) left)
