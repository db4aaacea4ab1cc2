-- ===== src/Common/Lists.antt =====
-- Lists measured, indexed and counted by native numbers, under the library's names.
use Prim.Native.Nat.{ℕ, zero, suc, ◌+◌, ◌<◌}
use Prim.Native.String.{String}
use mathlib.Core.Path.{◌≡◌, refl, ap}
use mathlib.Core.Logic.{inl, inr}
use mathlib.Core.Bool.{Bool, true, false}
use mathlib.Core.List.{List, [], ◌∷◌, ◌++◌}
use mathlib.Core.Option
use mathlib.Core.Option.{Option, none, some}
use native.Mathlib.Omega.{arith}
use text.Mathlib.Text.{◌==◌}
use k8s_cleaner.Common.Tests.{if◌then◌else◌, Option-cases}

module _ {ℓ} {A : Type ℓ} where
  abbrev pub length : List A → ℕ
  length [] = 0
  length (x ∷ xs) = suc (length xs)

  abbrev pub get_or : List A → ℕ → A → A
  get_or [] i d = d
  get_or (x ∷ xs) zero d = x
  get_or (x ∷ xs) (suc i) d = get_or xs i d

  abbrev pub get_elem? : List A → ℕ → Option A
  get_elem? [] i = none
  get_elem? (x ∷ xs) zero = some x
  get_elem? (x ∷ xs) (suc i) = get_elem? xs i

  -- A write out of bounds changes nothing.
  abbrev pub set : List A → ℕ → A → List A
  set [] i v = []
  set (x ∷ xs) zero v = v ∷ xs
  set (x ∷ xs) (suc i) v = x ∷ set xs i v

  abbrev pub take : ℕ → List A → List A
  take zero xs = []
  take (suc n) [] = []
  take (suc n) (x ∷ xs) = x ∷ take n xs

  abbrev pub replicate : ℕ → A → List A
  replicate zero a = []
  replicate (suc n) a = a ∷ replicate n a

  -- Every element satisfies P.
  abbrev pub All {κ} : (A → Type κ) → List A → Type κ
  All P [] = Unit
  All P (x ∷ xs) = P x × All P xs

  pub length-append : (xs ys : List A) → length (xs ++ ys) ≡ length xs + length ys
  length-append [] ys = omega arith
  length-append (x ∷ xs) ys = omega (arith, length-append xs ys)

  pub length-set : (xs : List A) (i : ℕ) (v : A) → length (set xs i v) ≡ length xs
  length-set [] i v = refl
  length-set (x ∷ xs) zero v = refl
  length-set (x ∷ xs) (suc i) v = ap suc (length-set xs i v)

-- How often a text stands in a list.
unfoldable pub count : String → List String → ℕ
count k [] = 0
count k (x ∷ xs) = let rest = count k xs in if x == k then suc rest else rest

-- for i := range xs { if xs[i] == k { ... } }: does the loop find the key?
unfoldable pub contains : List String → String → Bool
contains [] k = false
contains (x ∷ xs) k = let rest = contains xs k in if x == k then true else rest

-- The first index at which such a loop finds the key.
unfoldable pub index_of : String → List String → Option ℕ
index_of k [] = none
index_of k (x ∷ xs) = let rest = Option.map suc (index_of k xs) in if x == k then some 0 else rest

-- 1 for the key itself, 0 for any other.
abbrev pub one_if : String → String → ℕ
one_if k j = if k == j then 1 else 0

pub count-cons : (j k : String) (xs : List String) → count j (k ∷ xs) ≡ one_if k j + count j xs
unfolding count
count-cons j k xs = ground arith

pub count-append : (k : String) (xs ys : List String) → count k (xs ++ ys) ≡ count k xs + count k ys
unfolding count
count-append k [] ys = omega arith
count-append k (x ∷ xs) ys = ground (arith, count-append k xs ys)

pub count-snoc :
    (j k : String) (xs : List String) → count j (xs ++ k ∷ []) ≡ count j xs + one_if k j
unfolding count
count-snoc j k xs = ground (arith, count-append j xs (k ∷ []))

pub count-contains : (k : String) (xs : List String) → contains xs k ≡ true → 0 < count k xs
unfolding count contains
count-contains k [] h = ground arith
count-contains k (x ∷ xs) h = ground (arith, count-contains k xs)

pub count-not_contains : (k : String) (xs : List String) → contains xs k ≡ false → count k xs ≡ 0
unfolding count contains
count-not_contains k [] h = refl
count-not_contains k (x ∷ xs) h = ground (arith, count-not_contains k xs)

pub contains_of_count : (k : String) (xs : List String) → 0 < count k xs → contains xs k ≡ true
unfolding count contains
contains_of_count k [] h = ground arith
contains_of_count k (x ∷ xs) h = ground (arith, contains_of_count k xs)

pub index_of-none : (k : String) (xs : List String) → index_of k xs ≡ none → contains xs k ≡ false
unfolding index_of contains
index_of-none k [] e = refl
index_of-none k (x ∷ xs) e = ground (arith, index_of-none k xs)

pub index_of-some :
    (k : String) (xs : List String) {i : ℕ} → index_of k xs ≡ some i → contains xs k ≡ true
unfolding index_of contains
index_of-some k [] e = cc
index_of-some k (x ∷ xs) e = elim (Option-cases (index_of k xs)) [
  | inl missing ↦ ground arith
  | inr (n, found) ↦ ground (arith, index_of-some k xs found)
]
