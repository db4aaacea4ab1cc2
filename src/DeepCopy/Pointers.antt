-- ===== src/DeepCopy/Pointers.antt =====
-- api/v1alpha1/zz_generated.deepcopy.go: the two forms of code that every copy is made of.
use k8s_cleaner.Common.{none, some, List, [], ◌∷◌}
use k8s_cleaner.DeepCopy.Structs.{Pointer}
use k8s_cleaner.DeepCopy.Cells.{Kind}
use k8s_cleaner.DeepCopy.Heap.{M, pure, load, store, new, ◌>>=◌, ◌>>◌}

module _ {S : Type 0} where
  -- `**out = **in` and `copy(*out, *in)`: the content as it is.
  abbrev pub copy_content : S → M S
  copy_content s = pure s

  module _ (deep_copy_into : S → M S) where
    -- `for i := range *in { (*in)[i].DeepCopyInto(&(*out)[i]) }`.
    unfoldable pub copy_each : List S → M (List S)
    copy_each [] = pure []
    copy_each (s ∷ ss) = do t ← deep_copy_into s; ts ← copy_each ss; pure (t ∷ ts)

    -- `if in != nil { *out = new(T); (*in).DeepCopyInto(*out) }`.
    unfoldable pub copy_pointer : Kind S → Pointer S → M (Pointer S)
    copy_pointer kind none = pure none
    copy_pointer kind (some p) = do
      s ← load kind p
      out ← new
      t ← deep_copy_into s
      store kind out t
      pure (some out)
