-- ===== src/DeepCopy/Inner.antt =====
-- The deep copies of the structs inside a cleaner or a report: each part is copied in turn.
use k8s_cleaner.Common.{Option, none, some}
use k8s_cleaner.Api.{Time}
use k8s_cleaner.DeepCopy.Structs.{Pointer}
use k8s_cleaner.DeepCopy.Cells
use k8s_cleaner.DeepCopy.Heap.{Heap}
use k8s_cleaner.DeepCopy.Stands.{pointer, plain, PointerStands, nil}
use k8s_cleaner.DeepCopy.Growth.{IsSound, Grows-refl}
use k8s_cleaner.DeepCopy.Fresh.{
  Copied, DeepCopies, copied, begin, then, last, copy_pointer-copies, value-copies, slice-copies,
}
use k8s_cleaner.DeepCopy.Parts
use k8s_cleaner.DeepCopy.Readings

pub delete_options-copies :
    DeepCopies Readings.delete_options_reading Parts.delete_options_deep_copy_into
unfolding Parts.delete_options_deep_copy_into
delete_options-copies = record {
  copy_lem = λ h s v sound (w, p, e).
      then (value-copies Cells.int64_cell) (begin sound p) λ a h₁ ready.
        last (value-copies Cells.text_cell) ready
          λ b h₂ sound₂ ((_, x), y). copied (Grows-refl sound₂) (w, (x, y), e);
}

pub resource_selector-copies :
    DeepCopies Readings.resource_selector_reading Parts.resource_selector_deep_copy_into
unfolding Parts.resource_selector_deep_copy_into
resource_selector-copies = record {
  copy_lem = λ h s v sound (w, p, e).
      last (value-copies Cells.label_filters_cell) (begin sound p)
        λ a h' sound' (_, x). copied (Grows-refl sound') (w, x, e);
}

pub resource_policy_set-copies :
    DeepCopies Readings.resource_policy_set_reading Parts.resource_policy_set_deep_copy_into
unfolding Parts.resource_policy_set_deep_copy_into
resource_policy_set-copies = record {
  copy_lem = λ h s v sound (w, p, e).
      last (slice-copies resource_selector-copies Cells.resource_selectors_cell) (begin sound p)
        λ a h' sound' (_, x). copied (Grows-refl sound') (w, x, e);
}

pub notification-copies : DeepCopies Readings.notification_reading Parts.notification_deep_copy_into
unfolding Parts.notification_deep_copy_into
notification-copies = record {
  copy_lem = λ h s v sound (w, p, e).
      last (value-copies Cells.object_reference_cell) (begin sound p)
        λ a h' sound' (_, x). copied (Grows-refl sound') (w, x, e);
}

pub cleaner_spec-copies : DeepCopies Readings.cleaner_spec_reading Parts.cleaner_spec_deep_copy_into
unfolding Parts.cleaner_spec_deep_copy_into
cleaner_spec-copies = record {
  copy_lem = λ h s v sound (w, p, e). then resource_policy_set-copies (begin sound p) λ a h₁ ready₁.
      then (copy_pointer-copies delete_options-copies Cells.delete_options_cell) ready₁
        λ b h₂ ready₂. then (value-copies Cells.int64_cell) ready₂ λ c h₃ ready₃.
          last (slice-copies notification-copies Cells.notifications_cell) ready₃
            λ d h₄ sound₄ ((((_, x), y), z), t).
              copied (Grows-refl sound₄) (w, (x, (y, (z, t))), e);
}

pub resource_info-copies :
    DeepCopies Readings.resource_info_reading Parts.resource_info_deep_copy_into
unfolding Parts.resource_info_deep_copy_into
resource_info-copies = record {
  copy_lem = λ h s v sound (w, p, e).
      last (value-copies Cells.bytes_cell) (begin sound p)
        λ a h' sound' (_, x). copied (Grows-refl sound') (w, x, e);
}

pub report_spec-copies : DeepCopies Readings.report_spec_reading Parts.report_spec_deep_copy_into
unfolding Parts.report_spec_deep_copy_into
report_spec-copies = record {
  copy_lem = λ h s v sound (w, p, e).
      last (slice-copies resource_info-copies Cells.resource_infos_cell) (begin sound p)
        λ a h' sound' (_, x). copied (Grows-refl sound') (w, x, e);
}

-- What the libraries' copies are documented to do.
pub record LibraryCopies (lib : Parts.Library) : Type 0 where
  pub object_meta : DeepCopies Readings.object_meta_reading lib.object_meta_deep_copy_into
  pub list_meta : DeepCopies Readings.list_meta_reading lib.list_meta_deep_copy_into
  pub time : DeepCopies (pointer Cells.time_cell plain) lib.time_deep_copy

module _ {lib : Parts.Library} (laws : LibraryCopies lib) where
  copy_time_lem :
      (h : Heap) (p : Pointer Time) (v : Option Time)
      → IsSound h
      → PointerStands Cells.time_cell plain h.cell p v
      → Copied (pointer Cells.time_cell plain) h.next h v (Parts.copy_time lib p h)
  copy_time_lem h none _ sound nil = copied (Grows-refl sound) nil
  copy_time_lem h (some a) v sound p = laws.time.copy_lem h (some a) v sound p

  copy_time-copies : DeepCopies (pointer Cells.time_cell plain) (Parts.copy_time lib)
  copy_time-copies = record { copy_lem = copy_time_lem }

  pub cleaner_status-copies :
      DeepCopies Readings.cleaner_status_reading (Parts.cleaner_status_deep_copy_into lib)
  unfolding Parts.cleaner_status_deep_copy_into
  cleaner_status-copies = record {
    copy_lem = λ h s v sound (w, p, e). then copy_time-copies (begin sound p) λ a h₁ ready₁.
        then copy_time-copies ready₁ λ b h₂ ready₂.
          last (value-copies Cells.text_cell) ready₂
            λ c h₃ sound₃ (((_, x), y), z). copied (Grows-refl sound₃) (w, (x, (y, z)), e);
  }
