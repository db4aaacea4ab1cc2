-- ===== src/Common/Errors.antt =====
-- Go's `error` values, and what a fallible call does: it returns a value, an error, or it panics.
-- The text of an error is kept without the arguments that the source formats into it.
use Prim.Native.String.{String, ◌++◌}
use mathlib.Core.Path.{◌≡◌, refl}
use mathlib.Core.Logic.{◌⊎◌, inl, inr}

-- An error with a text of its own, or one that puts a text in front of another error.
pub data GoError : Type 0 where
  errorf : String → GoError
  wrapf : String → GoError → GoError

-- `err.Error()`: `%w` and `errors.Wrap` put the wrapped text after a colon.
unfoldable pub error_text : GoError → String
error_text (errorf s) = s
error_text (wrapf s e) = s ++ (": " ++ error_text e)

pub data Outcome {ℓ} (A : Type ℓ) : Type ℓ where
  ok : A → Outcome A
  err : GoError → Outcome A
  panic : Outcome A

infixl 5 ◌>>=◌
-- The calls after a failure are not made.
abbrev pub ◌>>=◌ {ℓ κ} :
    {Val : Type ℓ} {Res : Type κ} (first : Outcome Val) (rest : Val → Outcome Res) → Outcome Res
panic >>= rest = panic
err failure >>= rest = err failure
ok val >>= rest = rest val

pub Outcome-cases {ℓ} :
    {A : Type ℓ} (o : Outcome A)
    → ((a : A) × (o ≡ ok a)) ⊎ (((e : GoError) × (o ≡ err e)) ⊎ (o ≡ panic))
Outcome-cases (ok a) = inl (a, refl)
Outcome-cases (err e) = inr (inl (e, refl))
Outcome-cases panic = inr (inr refl)

pub ok-injective {ℓ} : {A : Type ℓ} {a b : A} → ok a ≡ ok b → a ≡ b
ok-injective h = cc

module _ {ℓ κ} {Val : Type ℓ} {Res : Type κ} where
  pub >>=-eq-ok :
      (first : Outcome Val) (rest : Val → Outcome Res) {res : Res}
      → (first >>= rest) ≡ ok res
      → (val : Val) × (first ≡ ok val) × (rest val ≡ ok res)
  >>=-eq-ok panic rest h = cc
  >>=-eq-ok (err failure) rest h = cc
  >>=-eq-ok (ok val) rest h = (val, refl, h)

  pub >>=-congr :
      (first : Outcome Val) (f g : Val → Outcome Res)
      → ((val : Val) → f val ≡ g val)
      → (first >>= f) ≡ (first >>= g)
  >>=-congr panic f g same = refl
  >>=-congr (err failure) f g same = refl
  >>=-congr (ok val) f g same = same val
