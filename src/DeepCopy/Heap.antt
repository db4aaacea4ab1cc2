-- ===== src/DeepCopy/Heap.antt =====
-- Memory with failure: an allocator, loads and stores.
use mathlib.Core.Option
use k8s_cleaner.Common.{◌+◌, Option, none, some, eqb, if◌then◌else◌}
use k8s_cleaner.DeepCopy.Structs.{Address}
use k8s_cleaner.DeepCopy.Cells.{Cell, Kind}

abbrev pub Memory : Type 0
Memory = Address → Option Cell

-- Addresses from `next` on are free.
pub record Heap : Type 0 where
  pub next : Address
  pub cell : Memory

-- `none` is a fault: a load through a pointer to nothing, or to a variable of another type.
abbrev pub M : Type 0 → Type 0
M A = Heap → Option (A × Heap)

abbrev pub pure : {A : Type 0} → A → M A
pure a h = some (a, h)

abbrev pub continue : {A B : Type 0} → Option (A × Heap) → (A → M B) → Option (B × Heap)
continue none rest = none
continue (some (a, h)) rest = rest a h

infixl 5 ◌>>=◌ ◌>>◌
abbrev pub ◌>>=◌ : {A B : Type 0} → M A → (A → M B) → M B
m >>= rest = λ h. continue (m h) rest

abbrev pub ◌>>◌ : {B : Type 0} → M (Unit {0}) → M B → M B
m >> rest = m >>= λ _. rest

abbrev pub update : Memory → Address → Cell → Memory
update f p c q = if eqb p q then some c else f q

module _ {S : Type 0} (kind : Kind S) where
  -- `*p`.
  abbrev pub load : Address → M S
  load p h = elim (h.cell p) [ none ↦ none | some c ↦ Option.map (λ s. (s, h)) (kind.unwrap c) ]

  -- `*p = s`.
  abbrev pub store : Address → S → M (Unit {0})
  store p s h = some (tt, record h { cell = update h.cell p (kind.wrap s) })

-- `new(T)` and `make([]T, n)`: the next free address. Its zeroes are never read: the copies write a
-- variable or an array in full before anything reads it.
abbrev pub new : M Address
new h = some (h.next, record h { next = h.next + 1 })
