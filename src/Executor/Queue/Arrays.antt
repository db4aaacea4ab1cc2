-- ===== src/Executor/Queue/Arrays.antt =====
-- The elements of an array as a list, and what one write does to them.
use k8s_cleaner.Common.{
  ℕ, zero, suc, ◌+◌, ◌-◌, ◌<◌, String, ◌≡◌, refl, ◌∙◌, sym, ap, ap₂, List, [], ◌∷◌, ◌++◌, length,
  get_or, set, arith,
}
use k8s_cleaner.Executor.Queue.{read}

plus_zero : (i : ℕ) → i + 0 ≡ i
plus_zero i = omega arith

plus_suc : (i m : ℕ) → suc i + m ≡ i + suc m
plus_suc i m = omega arith

pub minus_one : (n : ℕ) → suc n - 1 ≡ n
minus_one n = omega arith

pub read-ext :
    (f g : ℕ → String) (i j n : ℕ)
    → ((m : ℕ) → m < n → f (i + m) ≡ g (j + m))
    → read f i n ≡ read g j n
unfolding read
read-ext f g i j zero same = refl
read-ext f g i j (suc n) same =
    ap₂ (λ x xs. x ∷ xs) (sym (ap f (plus_zero i)) ∙ same 0 (omega arith) ∙ ap g (plus_zero j))
      (read-ext f g (suc i) (suc j) n
        λ m l. ap f (plus_suc i m) ∙ same (suc m) (omega (arith, l)) ∙ sym (ap g (plus_suc j m)))

pub read-snoc : (f : ℕ → String) (i n : ℕ) → read f i (suc n) ≡ read f i n ++ f (i + n) ∷ []
unfolding read
read-snoc f i zero = ap (λ x. x ∷ []) (sym (ap f (plus_zero i)))
read-snoc f i (suc n) =
    ap (λ xs. f i ∷ xs)
      (read-snoc f (suc i) n ∙ ap (λ x. read f (suc i) n ++ x ∷ []) (ap f (plus_suc i n)))

pub length-read : (f : ℕ → String) (i n : ℕ) → length (read f i n) ≡ n
unfolding read
length-read f i zero = refl
length-read f i (suc n) = ap suc (length-read f (suc i) n)

pub get_or-read : (f : ℕ → String) (i n m : ℕ) → m < n → get_or (read f i n) m "" ≡ f (i + m)
unfolding read
get_or-read f i zero m l = absurd (omega (arith, l))
get_or-read f i (suc n) zero l = sym (ap f (plus_zero i))
get_or-read f i (suc n) (suc m) l =
    get_or-read f (suc i) n m (omega (arith, l)) ∙ ap f (plus_suc i m)

pub read-set :
    (f g : ℕ → String) (i n m : ℕ) (x : String)
    → g (i + m) ≡ x
    → ((j : ℕ) → (j ≡ i + m → ⊥) → g j ≡ f j)
    → read g i n ≡ set (read f i n) m x
unfolding read
read-set f g i zero m x there same = refl
read-set f g i (suc n) zero x there same =
    ap₂ (λ y ys. y ∷ ys) (sym (ap g (plus_zero i)) ∙ there)
      (read-ext g f (suc i) (suc i) n λ m l. same (suc i + m) (λ e. omega (arith, e)))
read-set f g i (suc n) (suc m) x there same =
    ap₂ (λ y ys. y ∷ ys) (same i (λ e. omega (arith, e)))
      (read-set f g (suc i) n m x (ap g (plus_suc i m) ∙ there)
        λ j other. same j (λ e. other (omega (arith, e))))

pub front :
    (f : ℕ → String) (i n : ℕ) (name : String) (names : List String)
    → read f i n ≡ name ∷ names
    → (f i ≡ name) × (read f (suc i) (n - 1) ≡ names) × (0 < n)
unfolding read
front f i zero name names e = absurd (cc e)
front f i (suc n) name names e = (cc e, ap (read f (suc i)) (minus_one n) ∙ cc e, omega arith)
