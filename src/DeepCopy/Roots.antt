-- ===== src/DeepCopy/Roots.antt =====
-- api/v1alpha1/zz_generated.deepcopy.go: the copies of the custom resources and of their lists, also
-- as `runtime.Object`.
use k8s_cleaner.Common.{Option, none, some}
use k8s_cleaner.DeepCopy.Structs.{
  Address, Pointer, CleanerStruct, CleanerListStruct, ReportStruct, ReportListStruct,
}
use k8s_cleaner.DeepCopy.Cells
use k8s_cleaner.DeepCopy.Heap.{M, pure, ◌>>=◌}
use k8s_cleaner.DeepCopy.Pointers.{copy_each, copy_pointer}
use k8s_cleaner.DeepCopy.Parts.{
  Library, cleaner_spec_deep_copy_into, cleaner_status_deep_copy_into, report_spec_deep_copy_into,
}

unfoldable pub cleaner_deep_copy_into : Library → CleanerStruct Pointer → M (CleanerStruct Pointer)
cleaner_deep_copy_into lib s = do
  meta ← lib.object_meta_deep_copy_into s.object_meta
  spec ← cleaner_spec_deep_copy_into s.spec
  status ← cleaner_status_deep_copy_into lib s.status
  pure (record s { object_meta = meta; spec = spec; status = status })

abbrev pub cleaner_deep_copy :
    Library → Pointer (CleanerStruct Pointer) → M (Pointer (CleanerStruct Pointer))
cleaner_deep_copy lib p = copy_pointer (cleaner_deep_copy_into lib) Cells.cleaner_cell p

unfoldable pub cleaner_list_deep_copy_into :
    Library → CleanerListStruct Pointer → M (CleanerListStruct Pointer)
cleaner_list_deep_copy_into lib s = do
  meta ← lib.list_meta_deep_copy_into s.list_meta
  copies ← copy_pointer (copy_each (cleaner_deep_copy_into lib)) Cells.cleaners_cell s.items
  pure (record s { list_meta = meta; items = copies })

abbrev pub cleaner_list_deep_copy :
    Library → Pointer (CleanerListStruct Pointer) → M (Pointer (CleanerListStruct Pointer))
cleaner_list_deep_copy lib p =
    copy_pointer (cleaner_list_deep_copy_into lib) Cells.cleaner_list_cell p

unfoldable pub report_deep_copy_into : Library → ReportStruct Pointer → M (ReportStruct Pointer)
report_deep_copy_into lib s = do
  meta ← lib.object_meta_deep_copy_into s.object_meta
  spec ← report_spec_deep_copy_into s.spec
  pure (record s { object_meta = meta; spec = spec })

abbrev pub report_deep_copy :
    Library → Pointer (ReportStruct Pointer) → M (Pointer (ReportStruct Pointer))
report_deep_copy lib p = copy_pointer (report_deep_copy_into lib) Cells.report_cell p

unfoldable pub report_list_deep_copy_into :
    Library → ReportListStruct Pointer → M (ReportListStruct Pointer)
report_list_deep_copy_into lib s = do
  meta ← lib.list_meta_deep_copy_into s.list_meta
  copies ← copy_pointer (copy_each (report_deep_copy_into lib)) Cells.reports_cell s.items
  pure (record s { list_meta = meta; items = copies })

abbrev pub report_list_deep_copy :
    Library → Pointer (ReportListStruct Pointer) → M (Pointer (ReportListStruct Pointer))
report_list_deep_copy lib p = copy_pointer (report_list_deep_copy_into lib) Cells.report_list_cell p

-- A value of the interface `runtime.Object`: a pointer with its type, and the pointer may be nil.
-- The interface's own nil is `none` of `Option Object`.
pub data Object : Type 0 where
  cleaner_object : Pointer (CleanerStruct Pointer) → Object
  cleaner_list_object : Pointer (CleanerListStruct Pointer) → Object
  report_object : Pointer (ReportStruct Pointer) → Object
  report_list_object : Pointer (ReportListStruct Pointer) → Object

-- `if c := in.DeepCopy(); c != nil { return c }; return nil`.
abbrev pub as_object : (Option Address → Object) → Option Address → Option Object
as_object object none = none
as_object object (some p) = some (object (some p))

unfoldable pub cleaner_deep_copy_object :
    Library → Pointer (CleanerStruct Pointer) → M (Option Object)
cleaner_deep_copy_object lib p = do c ← cleaner_deep_copy lib p; pure (as_object cleaner_object c)

unfoldable pub cleaner_list_deep_copy_object :
    Library → Pointer (CleanerListStruct Pointer) → M (Option Object)
cleaner_list_deep_copy_object lib p = do
  c ← cleaner_list_deep_copy lib p
  pure (as_object cleaner_list_object c)

unfoldable pub report_deep_copy_object :
    Library → Pointer (ReportStruct Pointer) → M (Option Object)
report_deep_copy_object lib p = do c ← report_deep_copy lib p; pure (as_object report_object c)

unfoldable pub report_list_deep_copy_object :
    Library → Pointer (ReportListStruct Pointer) → M (Option Object)
report_list_deep_copy_object lib p = do
  c ← report_list_deep_copy lib p
  pure (as_object report_list_object c)
