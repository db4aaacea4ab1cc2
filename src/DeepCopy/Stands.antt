-- ===== src/DeepCopy/Stands.antt =====
-- What a value in memory stands for.
use k8s_cleaner.Common.{◌≡◌, Option, none, some, List, [], ◌∷◌, ltb, if◌then◌else◌}
use k8s_cleaner.DeepCopy.Structs.{Address, Pointer}
use k8s_cleaner.DeepCopy.Cells.{Cell, Kind}
use k8s_cleaner.DeepCopy.Heap.{Memory}

-- Every variable of the first memory is in the second, with the same content.
abbrev pub Within : Memory → Memory → Type 0
Within f g = (p : Address) (c : Cell) → f p ≡ some c → g p ≡ some c

-- Only the variables from an address on.
abbrev pub above : Address → Memory → Memory
above n f p = if ltb p n then none else f p

-- A reading of a memory says which values in it stand for which values without pointers. It depends
-- only on variables that are there.
pub record Reading (S V : Type 0) : Type 1 where
  pub Stands : Memory → S → V → Type 0
  pub mono : {f g : Memory} (s : S) (v : V) → Within f g → Stands f s v → Stands g s v

-- A value without pointers stands for itself.
abbrev pub plain : {S : Type 0} → Reading S S
plain = record { Stands = λ f s v. s ≡ v; mono = λ s v w e. e }

module _ {S V : Type 0} where
  -- An array stands for the list of what its elements stand for.
  pub data EachStands (r : Reading S V) (f : Memory) : List S → List V → Type 0 where
    end : EachStands r f [] []
    next :
        {s : S} {v : V} {ss : List S} {vs : List V}
        → r.Stands f s v
        → EachStands r f ss vs
        → EachStands r f (s ∷ ss) (v ∷ vs)

  pub EachStands-mono :
      (r : Reading S V) {f g : Memory} (ss : List S) (vs : List V)
      → Within f g
      → EachStands r f ss vs
      → EachStands r g ss vs
  EachStands-mono r ss vs w end = end
  EachStands-mono r ss vs w (next p ps) = next (r.mono _ _ w p) (EachStands-mono r _ _ w ps)

  abbrev pub each : Reading S V → Reading (List S) (List V)
  each r = record { Stands = EachStands r; mono = EachStands-mono r }

  -- nil stands for no value, an address for what the variable there stands for.
  pub data PointerStands (kind : Kind S) (r : Reading S V) (f : Memory)
      : Pointer S → Option V → Type 0 where
    nil : PointerStands kind r f none none
    points :
        {p : Address} {v : V} (s : S)
        → f p ≡ some (kind.wrap s)
        → r.Stands f s v
        → PointerStands kind r f (some p) (some v)

  pub PointerStands-mono :
      (kind : Kind S) (r : Reading S V) {f g : Memory} (s : Pointer S) (v : Option V)
      → Within f g
      → PointerStands kind r f s v
      → PointerStands kind r g s v
  PointerStands-mono kind r s v w nil = nil
  PointerStands-mono kind r s v w (points t e p) = points t (w _ _ e) (r.mono _ _ w p)

  abbrev pub pointer : Kind S → Reading S V → Reading (Pointer S) (Option V)
  pointer kind r = record { Stands = PointerStands kind r; mono = PointerStands-mono kind r }

-- The parts of a struct that have pointers, read one by one.
infixr 4 ◌⊗◌
abbrev pub ◌⊗◌ : {A B V W : Type 0} → Reading A V → Reading B W → Reading (A × B) (V × W)
q ⊗ r = record {
  Stands = λ f (a, b) (v, w). q.Stands f a v × r.Stands f b w;
  mono = λ (a, b) (v, w) i (x, y). (q.mono a v i x, r.mono b w i y);
}

-- A struct stands for itself with what the given parts stand for in their place.
abbrev pub struct :
    {S P V W : Type 0} (parts : S → P) (with_parts : S → W → V) → Reading P W → Reading S V
struct {W} parts with_parts r = record {
  Stands = λ f s v. (w : W) × r.Stands f (parts s) w × (with_parts s w ≡ v);
  mono = λ s v i (w, x, e). (w, r.mono (parts s) w i x, e);
}
