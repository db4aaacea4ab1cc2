-- ===== src/DeepCopy/Whole.antt =====
-- The deep copies of cleaners, reports and their lists.
use k8s_cleaner.Common.{Option}
use k8s_cleaner.DeepCopy.Cells
use k8s_cleaner.DeepCopy.Growth.{IsSound, Grows-refl}
use k8s_cleaner.DeepCopy.Fresh.{
  DeepCopies, copied, begin, then, last, copy_pointer-copies, slice-copies,
}
use k8s_cleaner.DeepCopy.Structs.{
  Pointer, CleanerListStruct, CleanerStruct, ReportListStruct, ReportStruct,
}
use k8s_cleaner.DeepCopy.Heap.{Heap}
use k8s_cleaner.DeepCopy.Stands.{pointer, PointerStands}
use k8s_cleaner.DeepCopy.Apart.{Apart, Copied-Apart, object, as_object-Copied}
use k8s_cleaner.DeepCopy.Parts.{Library}
use k8s_cleaner.DeepCopy.Inner.{
  LibraryCopies, cleaner_spec-copies, cleaner_status-copies, report_spec-copies,
}
use k8s_cleaner.DeepCopy.Roots
use k8s_cleaner.DeepCopy.Readings

module _ {lib : Library} (laws : LibraryCopies lib) where
  cleaner-copies : DeepCopies Readings.cleaner_reading (Roots.cleaner_deep_copy_into lib)
  unfolding Roots.cleaner_deep_copy_into
  cleaner-copies = record {
    copy_lem = λ h s v sound (w, p, e). then laws.object_meta (begin sound p) λ a h₁ ready₁.
        then cleaner_spec-copies ready₁ λ b h₂ ready₂.
          last (cleaner_status-copies laws) ready₂
            λ c h₃ sound₃ (((_, x), y), z). copied (Grows-refl sound₃) (w, (x, (y, z)), e);
  }

  cleaner_list-copies :
      DeepCopies Readings.cleaner_list_reading (Roots.cleaner_list_deep_copy_into lib)
  unfolding Roots.cleaner_list_deep_copy_into
  cleaner_list-copies = record {
    copy_lem = λ h s v sound (w, p, e). then laws.list_meta (begin sound p) λ a h₁ ready₁.
        last (slice-copies cleaner-copies Cells.cleaners_cell) ready₁
          λ b h₂ sound₂ ((_, x), y). copied (Grows-refl sound₂) (w, (x, y), e);
  }

  report-copies : DeepCopies Readings.report_reading (Roots.report_deep_copy_into lib)
  unfolding Roots.report_deep_copy_into
  report-copies = record {
    copy_lem = λ h s v sound (w, p, e). then laws.object_meta (begin sound p) λ a h₁ ready₁.
        last report_spec-copies ready₁
          λ b h₂ sound₂ ((_, x), y). copied (Grows-refl sound₂) (w, (x, y), e);
  }

  report_list-copies :
      DeepCopies Readings.report_list_reading (Roots.report_list_deep_copy_into lib)
  unfolding Roots.report_list_deep_copy_into
  report_list-copies = record {
    copy_lem = λ h s v sound (w, p, e). then laws.list_meta (begin sound p) λ a h₁ ready₁.
        last (slice-copies report-copies Cells.reports_cell) ready₁
          λ b h₂ sound₂ ((_, x), y). copied (Grows-refl sound₂) (w, (x, y), e);
  }

  -- The deep copies of the libraries copy, the allocator's free addresses are free, and a pointer to a CleanerList
  -- is nil or stands for a value: DeepCopyObject returns without a fault. It returns the nil interface
  -- for nil, and otherwise a pointer that is not nil to a list that stands for the same value,
  -- whatever is written later to the variables that were there before; the original stands for the value
  -- whatever is written later to the new ones, and the call itself changes no variable that was there.
  pub cleaner_list_deep_copy_object-Apart :
      (h : Heap) (p : Pointer (CleanerListStruct Pointer)) (v : Option (CleanerListStruct Option))
      → IsSound h
      → PointerStands Cells.cleaner_list_cell Readings.cleaner_list_reading h.cell p v
      → Apart
          (pointer Cells.cleaner_list_cell Readings.cleaner_list_reading)
          (object Cells.cleaner_list_cell Readings.cleaner_list_reading Roots.cleaner_list_object)
          h
          p
          v
          (Roots.cleaner_list_deep_copy_object lib p h)
  unfolding Roots.cleaner_list_deep_copy_object
  cleaner_list_deep_copy_object-Apart h p v sound stands =
      Copied-Apart (pointer Cells.cleaner_list_cell Readings.cleaner_list_reading) stands (
        as_object-Copied (
          (copy_pointer-copies cleaner_list-copies Cells.cleaner_list_cell).copy_lem h p v sound
            stands))

  -- The deep copies of the libraries copy, the allocator's free addresses are free, and a pointer to a ReportList
  -- is nil or stands for a value: DeepCopyObject returns without a fault. It returns the nil interface
  -- for nil, and otherwise a pointer that is not nil to a list that stands for the same value,
  -- whatever is written later to the variables that were there before; the original stands for the value
  -- whatever is written later to the new ones, and the call itself changes no variable that was there.
  pub report_list_deep_copy_object-Apart :
      (h : Heap) (p : Pointer (ReportListStruct Pointer)) (v : Option (ReportListStruct Option))
      → IsSound h
      → PointerStands Cells.report_list_cell Readings.report_list_reading h.cell p v
      → Apart
          (pointer Cells.report_list_cell Readings.report_list_reading)
          (object Cells.report_list_cell Readings.report_list_reading Roots.report_list_object)
          h
          p
          v
          (Roots.report_list_deep_copy_object lib p h)
  unfolding Roots.report_list_deep_copy_object
  report_list_deep_copy_object-Apart h p v sound stands =
      Copied-Apart (pointer Cells.report_list_cell Readings.report_list_reading) stands (
        as_object-Copied (
          (copy_pointer-copies report_list-copies Cells.report_list_cell).copy_lem h p v sound
            stands))

  -- The same for the DeepCopyObject of a Cleaner.
  cleaner_deep_copy_object-Apart :
      (h : Heap) (p : Pointer (CleanerStruct Pointer)) (v : Option (CleanerStruct Option))
      → IsSound h
      → PointerStands Cells.cleaner_cell Readings.cleaner_reading h.cell p v
      → Apart
          (pointer Cells.cleaner_cell Readings.cleaner_reading)
          (object Cells.cleaner_cell Readings.cleaner_reading Roots.cleaner_object)
          h
          p
          v
          (Roots.cleaner_deep_copy_object lib p h)
  unfolding Roots.cleaner_deep_copy_object
  cleaner_deep_copy_object-Apart h p v sound stands =
      Copied-Apart (pointer Cells.cleaner_cell Readings.cleaner_reading) stands (
        as_object-Copied
          ((copy_pointer-copies cleaner-copies Cells.cleaner_cell).copy_lem h p v sound stands))

  -- The same for the DeepCopyObject of a Report.
  report_deep_copy_object-Apart :
      (h : Heap) (p : Pointer (ReportStruct Pointer)) (v : Option (ReportStruct Option))
      → IsSound h
      → PointerStands Cells.report_cell Readings.report_reading h.cell p v
      → Apart
          (pointer Cells.report_cell Readings.report_reading)
          (object Cells.report_cell Readings.report_reading Roots.report_object)
          h
          p
          v
          (Roots.report_deep_copy_object lib p h)
  unfolding Roots.report_deep_copy_object
  report_deep_copy_object-Apart h p v sound stands =
      Copied-Apart (pointer Cells.report_cell Readings.report_reading) stands (
        as_object-Copied
          ((copy_pointer-copies report-copies Cells.report_cell).copy_lem h p v sound stands))
