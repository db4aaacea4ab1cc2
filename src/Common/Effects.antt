-- ===== src/Common/Effects.antt =====
-- Calls with effects: a call takes the state of the world and returns it with its outcome. A call
-- that fails or panics may have changed the world; what follows it is not run.
use mathlib.Core.Path.{◌≡◌, refl}
use k8s_cleaner.Common.Errors.{Outcome, ok, err, panic}

abbrev pub Effect : Type 0 → Type 0 → Type 0
Effect World A = World → Outcome A × World

abbrev pub continue :
    {World A B : Type 0} → Outcome A × World → (A → Effect World B) → Outcome B × World
continue (ok a, w) rest = rest a w
continue (err e, w) rest = (err e, w)
continue (panic, w) rest = (panic, w)

infixl 5 ◌>>=◌
abbrev pub ◌>>=◌ : {World A B : Type 0} → Effect World A → (A → Effect World B) → Effect World B
call >>= rest = λ w. continue (call w) rest

-- A call that changes nothing.
abbrev pub pure_call : {World A : Type 0} → Outcome A → Effect World A
pure_call o w = (o, w)

-- `defer`: the last call is made however the first one ended.
abbrev pub finally : {World A : Type 0} → Effect World A → (World → World) → Effect World A
finally call cleanup w = let (o, w') = call w in (o, cleanup w')

-- A call whose error is dropped: a panic still ends the program.
abbrev pub no_error : {World : Type 0} → Outcome (Unit {0}) × World → Outcome (Unit {0}) × World
no_error (ok u, w) = (ok tt, w)
no_error (err e, w) = (ok tt, w)
no_error (panic, w) = (panic, w)

abbrev pub drop_error : {World : Type 0} → Effect World (Unit {0}) → Effect World (Unit {0})
drop_error call w = no_error (call w)

-- A call that succeeds, followed by the rest.
pub continue-eq-ok :
    {World A B : Type 0} (p : Outcome A × World) (rest : A → Effect World B) {b : B} {w : World}
    → continue p rest ≡ (ok b, w)
    → (a : A) × (w' : World) × (p ≡ (ok a, w')) × (rest a w' ≡ (ok b, w))
continue-eq-ok (ok a, w') rest e = (a, w', refl, e)
continue-eq-ok (err x, w') rest e = cc
continue-eq-ok (panic, w') rest e = cc
