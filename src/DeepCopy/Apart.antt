-- ===== src/DeepCopy/Apart.antt =====
-- A copy and its original share no variable.
use k8s_cleaner.Common.{◌≡◌, ◌≤◌, ◌<◌, Option, none, some, arith}
use k8s_cleaner.DeepCopy.Structs.{Address}
use k8s_cleaner.DeepCopy.Heap.{Memory, Heap, continue, pure}
use k8s_cleaner.DeepCopy.Cells.{Kind}
use k8s_cleaner.DeepCopy.Stands.{
  Within, Reading, PointerStands, PointerStands-mono, nil, points, pointer,
}
use k8s_cleaner.DeepCopy.Growth.{Grows}
use k8s_cleaner.DeepCopy.Fresh.{Copied, copied}
use k8s_cleaner.DeepCopy.Roots.{Object, as_object}

-- The call returns a copy. Whatever is written to the variables there were before, the copy stands for
-- the value, and whatever is written to the new variables, the original does.
pub data Apart {S T V : Type 0} (original : Reading S V) (copy : Reading T V) (h : Heap) (s : S)
    (v : V) : Option (T × Heap) → Type 0 where
  apart :
      {t : T} {h' : Heap}
      → Grows h h'
      → ((g : Memory) → ((p : Address) → h.next ≤ p → g p ≡ h'.cell p) → copy.Stands g t v)
      → ((g : Memory) → ((p : Address) → p < h.next → g p ≡ h'.cell p) → original.Stands g s v)
      → Apart original copy h s v (some (t, h'))

pub Copied-Apart :
    {S T V : Type 0} (r : Reading S V) {q : Reading T V} {h : Heap} {s : S} {v : V}
    {x : Option (T × Heap)}
    → r.Stands h.cell s v
    → Copied q h.next h v x
    → Apart r q h s v x
Copied-Apart r {q} p (copied i c) =
    apart i (λ g same. q.mono _ _ (λ a c e. ground (arith, same a)) c)
      λ g same. r.mono _ _ (λ a c e. ground (arith, same a, i.kept a, i.sound a)) p

-- The interface's nil stands for no value, a pointer that is not nil for what it leads to. An
-- interface that holds a nil pointer stands for nothing.
pub data ObjectStands {S V : Type 0} (kind : Kind S) (r : Reading S V)
    (object : Option Address → Object) (f : Memory) : Option Object → Option V → Type 0 where
  no_object : ObjectStands kind r object f none none
  an_object :
      {p : Address} {v : V}
      → PointerStands kind r f (some p) (some v)
      → ObjectStands kind r object f (some (object (some p))) (some v)

module _ {S V : Type 0} {kind : Kind S} {r : Reading S V} {make : Option Address → Object} where
  pub ObjectStands-mono :
      {f g : Memory} (o : Option Object) (v : Option V)
      → Within f g
      → ObjectStands kind r make f o v
      → ObjectStands kind r make g o v
  ObjectStands-mono o v w no_object = no_object
  ObjectStands-mono o v w (an_object p) = an_object (PointerStands-mono kind r _ _ w p)

abbrev pub object :
    {S V : Type 0}
    → Kind S
    → Reading S V
    → (Option Address → Object)
    → Reading (Option Object) (Option V)
object kind r make = record { Stands = ObjectStands kind r make; mono = ObjectStands-mono }

module _ {S V : Type 0} {kind : Kind S} {r : Reading S V} {make : Option Address → Object} where
  as_object-Stands :
      {f : Memory} (p : Option Address) (v : Option V)
      → PointerStands kind r f p v
      → ObjectStands kind r make f (as_object make p) v
  as_object-Stands p v nil = no_object
  as_object-Stands p v (points s e q) = an_object (points s e q)

  pub as_object-Copied :
      {n : Address} {h : Heap} {v : Option V} {x : Option (Option Address × Heap)}
      → Copied (pointer kind r) n h v x
      → Copied (object kind r make) n h v (continue x λ c. pure (as_object make c))
  as_object-Copied (copied i p) = copied i (as_object-Stands _ _ p)
