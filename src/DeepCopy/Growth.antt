-- ===== src/DeepCopy/Growth.antt =====
-- Memory grows: what was there stays, and what is new was free.
use k8s_cleaner.Common.{◌≡◌, ◌≤◌, ◌<◌, ◌+◌, refl, ◌∙◌, none, arith}
use k8s_cleaner.DeepCopy.Structs.{Address}
use k8s_cleaner.DeepCopy.Cells.{Kind}
use k8s_cleaner.DeepCopy.Heap.{Memory, Heap, update}
use k8s_cleaner.DeepCopy.Stands.{Within, above}

-- The addresses that the allocator has not handed out are free.
abbrev pub IsSound : Heap → Type 0
IsSound h = (p : Address) → h.next ≤ p → h.cell p ≡ none

-- The first heap's variables are in the second, with their contents.
pub record Grows (h h' : Heap) : Type 0 where
  pub sound : IsSound h
  pub sound' : IsSound h'
  pub next_le : h.next ≤ h'.next
  pub kept : (p : Address) → p < h.next → h'.cell p ≡ h.cell p

pub Grows-refl : {h : Heap} → IsSound h → Grows h h
Grows-refl s = record { sound = s; sound' = s; next_le = omega arith; kept = λ p l. refl }

pub Grows-trans : {f g h : Heap} → Grows f g → Grows g h → Grows f h
Grows-trans i j = record {
  sound = i.sound;
  sound' = j.sound';
  next_le = omega (arith, i.next_le, j.next_le);
  kept = λ p l. j.kept p (omega (arith, i.next_le)) ∙ i.kept p l;
}

pub Grows-Within : {h h' : Heap} → Grows h h' → Within h.cell h'.cell
Grows-Within {h} i p c e = ground (arith, i.kept p, i.sound p)

pub above-Within :
    (f g : Memory) (m n : Address) → m ≤ n → Within f g → Within (above n f) (above m g)
above-Within f g m n l w p c e = ground (arith, w p c)

unfoldable pub after_new : Heap → Heap
after_new h = record h { next = h.next + 1 }

unfoldable pub after_store : {S : Type 0} → Kind S → Address → S → Heap → Heap
after_store kind p s h = record h { cell = update h.cell p (kind.wrap s) }

pub Grows-new : (h : Heap) → IsSound h → Grows h (after_new h)
unfolding after_new
Grows-new h sound = record {
  sound = sound;
  sound' = λ p l. sound p (omega arith);
  next_le = omega arith;
  kept = λ p l. refl;
}

-- The new variable is written when the copy of its content is there.
pub Grows-store :
    {S : Type 0} (kind : Kind S) (s : S) {h h' : Heap}
    → IsSound h
    → Grows (after_new h) h'
    → Grows h (after_store kind h.next s h')
unfolding after_new after_store
Grows-store kind s sound i = record {
  sound = sound;
  sound' = λ p l. ground (arith, i.sound' p, i.next_le);
  next_le = omega (arith, i.next_le);
  kept = λ p l. ground (arith, i.kept p);
}
