-- ===== src/Executor/Manager/Slices.antt =====
-- `removeFromSlice` seen through counts: how often each text stands in the slice afterwards.
use k8s_cleaner.Common.{
  ℕ, zero, suc, ◌+◌, ◌-◌, ◌<◌, String, ◌≡◌, refl, ap, inl, inr, some, List, [], ◌∷◌, arith, length,
  length-set, get_or, set, take, count, one_if, index_of, index_of-none, count-not_contains, ◌==◌,
  eq_iff, if◌then◌else◌, Option-cases,
}
use k8s_cleaner.Executor.Manager.{remove_from_slice, drop_key}

-- What a successful search knows of its index.
pub record Found (k : String) (s : List String) (i : ℕ) : Type 0 where
  pub within : i < length s
  pub holds : get_or s i "" ≡ k

Found-suc : (k x : String) (s : List String) (i : ℕ) → Found k s i → Found k (x ∷ s) (suc i)
Found-suc k x s i f = record { within = omega (arith, f.within); holds = f.holds }

pub index_of-Found : (k : String) (s : List String) (i : ℕ) → index_of k s ≡ some i → Found k s i
unfolding index_of
index_of-Found k [] i e = cc
index_of-Found k (x ∷ s) i e = elim (Option-cases (index_of k s)) [
  | inl missing ↦ ground (arith, eq_iff x k)
  | inr (n, found) ↦ ground (arith, eq_iff x k, Found-suc k x s n (index_of-Found k s n found))
]

count-set :
    (j v : String) (s : List String) (i : ℕ)
    → i < length s
    → count j (set s i v) + one_if (get_or s i "") j ≡ count j s + one_if v j
unfolding count
count-set j v [] i h = elim h [ ]
count-set j v (x ∷ s) zero h = ground arith
count-set j v (x ∷ s) (suc i) h = ground (arith, count-set j v s i (omega arith))

-- Cutting off the last element.
count-cut :
    (j : String) (s : List String) (n : ℕ)
    → length s ≡ suc n
    → count j (take n s) + one_if (get_or s n "") j ≡ count j s
unfolding count
count-cut j [] n h = absurd (omega arith)
count-cut j (x ∷ []) zero h = ground arith
count-cut j (x ∷ y ∷ s) zero h = ground arith
count-cut j (x ∷ s) (suc n) h = ground (arith, count-cut j s n (omega arith))

pub get_or-set_last :
    (s : List String) (i n : ℕ)
    → length s ≡ suc n
    → get_or (set s i (get_or s n "")) n "" ≡ get_or s n ""
get_or-set_last [] i n h = refl
get_or-set_last (x ∷ s) zero zero h = refl
get_or-set_last (x ∷ s) zero (suc n) h = refl
get_or-set_last (x ∷ s) (suc i) zero h = ground arith
get_or-set_last (x ∷ s) (suc i) (suc n) h = get_or-set_last s i n (omega arith)

pub length-cut {ℓ} : {A : Type ℓ} (s : List A) (n : ℕ) → length s ≡ suc n → length (take n s) ≡ n
length-cut [] n h = absurd (omega arith)
length-cut (x ∷ s) zero h = refl
length-cut (x ∷ s) (suc n) h = ap suc (length-cut s n (omega arith))

-- At an index inside the slice nothing but the element there is lost.
count-remove_from_slice :
    (j : String) (s : List String) (i : ℕ)
    → i < length s
    → count j (remove_from_slice s i).1 + one_if (get_or s i "") j ≡ count j s
unfolding remove_from_slice
count-remove_from_slice j s i h =
    let n : ℕ = length s - 1 in
    let last : String = get_or s n "" in
    omega (
      arith,
      count-set j last s i h,
      count-cut j (set s i last) n (omega (arith, length-set s i last)),
      ap (λ (x : String). one_if x j) (get_or-set_last s i n (omega arith)),
    )

-- What a slice that is not cut holds: the last element stands in the place of the lost one too.
pub count-overwrite_at :
    (j : String) (s : List String) (i : ℕ)
    → i < length s
    → count j (remove_from_slice s i).0 + one_if (get_or s i "") j
      ≡ count j s + one_if (get_or s (length s - 1) "") j
unfolding remove_from_slice
count-overwrite_at j s i h = count-set j (get_or s (length s - 1) "") s i h

-- The loop takes one copy of its key away and keeps how often every other text stands there.
pub count-drop_key :
    (k j : String) (s : List String)
    → count j (drop_key k s) ≡ (if k == j then count j s - 1 else count j s)
unfolding drop_key
count-drop_key k j s = elim (Option-cases (index_of k s)) [
  | inl e ↦ ground (arith, count-not_contains k s (index_of-none k s e), eq_iff k j)
  | inr (i, e) ↦
      let f = index_of-Found k s i e in
      ground (arith, count-remove_from_slice j s i f.within, eq_iff k j, f.holds)
]
