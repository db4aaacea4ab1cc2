-- ===== src/DeepCopy/Fresh.antt =====
-- What a deep copy does: it returns, the old variables keep their contents, and the copy stands for
-- what the original stands for by variables that were free before.
use k8s_cleaner.Common.{◌≡◌, ◌≤◌, ◌+◌, refl, sym, subst, Option, some, List, [], ◌∷◌, arith}
use k8s_cleaner.DeepCopy.Structs.{Address, Pointer}
use k8s_cleaner.DeepCopy.Cells.{Kind}
use k8s_cleaner.DeepCopy.Heap.{Heap, M, load, store, new, continue, pure, ◌>>=◌, ◌>>◌}
use k8s_cleaner.DeepCopy.Stands.{
  above, Reading, plain, EachStands, EachStands-mono, end, next, each, PointerStands, nil, points,
  pointer, ◌⊗◌,
}
use k8s_cleaner.DeepCopy.Growth.{
  IsSound, Grows, Grows-refl, Grows-trans, Grows-Within, above-Within, after_new, after_store,
  Grows-new, Grows-store,
}
use k8s_cleaner.DeepCopy.Pointers.{copy_content, copy_each, copy_pointer}

-- The value `v` is copied: its copy is made of variables from `n` on.
pub data Copied {S V : Type 0} (r : Reading S V) (n : Address) (h : Heap) (v : V)
    : Option (S × Heap) → Type 0 where
  copied :
      {s' : S} {h' : Heap}
      → Grows h h'
      → r.Stands (above n h'.cell) s' v
      → Copied r n h v (some (s', h'))

pub record DeepCopies {S V : Type 0} (r : Reading S V) (copy : S → M S) : Type 0 where
  pub copy_lem :
      (h : Heap) (s : S) (v : V) → IsSound h → r.Stands h.cell s v → Copied r h.next h v (copy s h)

-- A copy stands for its value in every later heap.
later :
    {S V : Type 0} (r : Reading S V) (n : Address) {h h' : Heap} {s : S} {v : V}
    → Grows h h'
    → r.Stands (above n h.cell) s v
    → r.Stands (above n h'.cell) s v
later r n i p = r.mono _ _ (above-Within _ _ n n (omega arith) (Grows-Within i)) p

rebase :
    {S V : Type 0} {r : Reading S V} {n : Address} {h h' : Heap} {v : V} {x : Option (S × Heap)}
    → Grows h h'
    → Copied r n h' v x
    → Copied r n h v x
rebase i (copied j p) = copied (Grows-trans i j) p

bind :
    {A V B W : Type 0} (q : Reading A V) {r : Reading B W} {k : A → M B} {x : Option (A × Heap)}
    {m n : Address} {h : Heap} {v : V} {w : W}
    → n ≤ m
    → Copied q m h v x
    → ((a : A) (h' : Heap) → Grows h h' → q.Stands (above n h'.cell) a v → Copied r n h' w (k a h'))
    → Copied r n h w (continue x k)
bind q {m} {n} l (copied i p) rest =
    rebase i (rest _ _ i (q.mono _ _ (above-Within _ _ n m l λ a c e. e) p))

-- A struct is copied part by part: the parts that are done stand for their values by variables from
-- `n` on, the parts that are left stand for theirs.
pub record Ready {C D S V : Type 0} (done : Reading C D) (left : Reading S V) (n : Address)
    (h : Heap) (c : C) (d : D) (s : S) (v : V) : Type 0 where
  pub ready_sound : IsSound h
  pub ready_le : n ≤ h.next
  pub done_Stands : done.Stands (above n h.cell) c d
  pub left_Stands : left.Stands h.cell s v

abbrev pub nothing : Reading (Unit {0}) (Unit {0})
nothing = plain

pub begin :
    {S V : Type 0} {r : Reading S V} {h : Heap} {s : S} {v : V}
    → IsSound h
    → r.Stands h.cell s v
    → Ready nothing r h.next h tt tt s v
begin sound p = record {
  ready_sound = sound;
  ready_le = omega arith;
  done_Stands = refl;
  left_Stands = p;
}

module _ {C D A V B W : Type 0} {done : Reading C D} {q : Reading A V} {goal : Reading B W}
    {copy : A → M A} {k : A → M B} (copies : DeepCopies q copy) {n : Address} {h : Heap} {c : C}
    {d : D} {s : A} {v : V} {w : W} where
  pub last :
      Ready done q n h c d s v
      → ((a : A) (h' : Heap)
          → IsSound h'
          → (done ⊗ q).Stands (above n h'.cell) (c, a) (d, v)
          → Copied goal n h' w (k a h'))
      → Copied goal n h w (continue (copy s h) k)
  last ready rest =
      bind q ready.ready_le (copies.copy_lem h s v ready.ready_sound ready.left_Stands)
        λ a h' i p. rest a h' i.sound' (later done n i ready.done_Stands, p)

  pub then :
      {X Y : Type 0} {left : Reading X Y} {x : X} {y : Y}
      → Ready done (q ⊗ left) n h c d (s, x) (v, y)
      → ((a : A) (h' : Heap)
          → Ready (done ⊗ q) left n h' (c, a) (d, v) x y
          → Copied goal n h' w (k a h'))
      → Copied goal n h w (continue (copy s h) k)
  then {left} ready rest =
      bind q ready.ready_le (copies.copy_lem h s v ready.ready_sound ready.left_Stands.0)
        λ a h' i p. rest a h' record {
          ready_sound = i.sound';
          ready_le = omega (arith, i.next_le, ready.ready_le);
          done_Stands = (later done n i ready.done_Stands, p);
          left_Stands = left.mono _ _ (Grows-Within i) ready.left_Stands.1;
        }

pub copy_content-copies : {S : Type 0} → DeepCopies (plain {S = S}) copy_content
copy_content-copies = record { copy_lem = λ h s v sound e. copied (Grows-refl sound) e }

load-lem :
    {S : Type 0} (kind : Kind S) (p : Address) {s : S} {h : Heap}
    → h.cell p ≡ some (kind.wrap s)
    → load kind p h ≡ some (s, h)
load-lem kind p {s} e = rw (load, e, kind.unwrap-wrap s)

module _ {S V : Type 0} {r : Reading S V} {copy : S → M S} (copies : DeepCopies r copy) where
  copy_each_lem :
      (h : Heap) (ss : List S) (vs : List V)
      → IsSound h
      → EachStands r h.cell ss vs
      → Copied (each r) h.next h vs (copy_each copy ss h)
  unfolding copy_each
  copy_each_lem h [] [] sound end = copied (Grows-refl sound) end
  copy_each_lem h [] (v ∷ vs) sound p = elim p [ ]
  copy_each_lem h (s ∷ ss) [] sound p = elim p [ ]
  copy_each_lem h (s ∷ ss) (v ∷ vs) sound (next p ps) =
      bind r (omega arith) (copies.copy_lem h s v sound p) λ t h' i q.
        bind (each r) i.next_le
          (copy_each_lem h' ss vs i.sound' (EachStands-mono r _ _ (Grows-Within i) ps))
          λ ts h'' j qs. copied (Grows-refl j.sound') (next (later r _ j q) qs)

  copy_each-copies : DeepCopies (each r) (copy_each copy)
  copy_each-copies = record { copy_lem = copy_each_lem }

  store_copy :
      (kind : Kind S) (h : Heap) (v : V) {x : Option (S × Heap)}
      → IsSound h
      → Copied r (h.next + 1) (after_new h) v x
      → Copied
          (pointer kind r)
          h.next
          h
          (some v)
          (continue x λ t. store kind h.next t >> pure (some h.next))
  unfolding after_store
  store_copy kind h v sound (copied {s' = t} {h'} i p) =
      copied (Grows-store kind t sound i)
        (points t (ground arith) (r.mono _ _ (λ a c e. ground (arith, i.kept a)) p))

  copy_pointer_lem :
      (kind : Kind S) (h : Heap) (p : Pointer S) (v : Option V)
      → IsSound h
      → PointerStands kind r h.cell p v
      → Copied (pointer kind r) h.next h v (copy_pointer copy kind p h)
  unfolding copy_pointer after_new
  copy_pointer_lem kind h _ _ sound nil = copied (Grows-refl sound) nil
  copy_pointer_lem kind h (some a) (some v) sound (points s e p) =
      subst
        (λ x.
          Copied (pointer kind r) h.next h (some v)
            (continue x λ s. new >>= λ out. copy s >>= λ t. store kind out t >> pure (some out)))
        (sym (load-lem kind a e))
        (store_copy kind h v sound (copies.copy_lem (after_new h) s v (Grows-new h sound).sound' p))

  pub copy_pointer-copies : (kind : Kind S) → DeepCopies (pointer kind r) (copy_pointer copy kind)
  copy_pointer-copies kind = record { copy_lem = copy_pointer_lem kind }

pub value-copies :
    {S : Type 0} (kind : Kind S) → DeepCopies (pointer kind plain) (copy_pointer copy_content kind)
value-copies kind = copy_pointer-copies copy_content-copies kind

pub slice-copies :
    {S V : Type 0} {r : Reading S V} {copy : S → M S}
    → DeepCopies r copy
    → (kind : Kind (List S))
    → DeepCopies (pointer kind (each r)) (copy_pointer (copy_each copy) kind)
slice-copies copies kind = copy_pointer-copies (copy_each-copies copies) kind
