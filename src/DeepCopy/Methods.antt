-- ===== src/DeepCopy/Methods.antt =====
-- The `DeepCopy` methods of the structs inside a cleaner or a report.
use k8s_cleaner.DeepCopy.Cells
use k8s_cleaner.DeepCopy.Stands.{pointer}
use k8s_cleaner.DeepCopy.Fresh.{DeepCopies, copy_pointer-copies}
use k8s_cleaner.DeepCopy.Parts
use k8s_cleaner.DeepCopy.Readings
use k8s_cleaner.DeepCopy.Inner

-- The deep copies of the libraries copy, so each `DeepCopy` method of a struct inside a cleaner or a
-- report returns nil for nil, and for a pointer that stands for a value a pointer to a fresh variable
-- that stands for the same value by fresh variables only; no variable that was there changes.
part_methods-copy :
    (lib : Parts.Library)
    → Inner.LibraryCopies lib
    → DeepCopies
        (pointer Cells.delete_options_cell Readings.delete_options_reading)
        Parts.delete_options_deep_copy
      × DeepCopies
          (pointer Cells.resource_selector_cell Readings.resource_selector_reading)
          Parts.resource_selector_deep_copy
      × DeepCopies
          (pointer Cells.resource_policy_set_cell Readings.resource_policy_set_reading)
          Parts.resource_policy_set_deep_copy
      × DeepCopies
          (pointer Cells.notification_cell Readings.notification_reading)
          Parts.notification_deep_copy
      × DeepCopies
          (pointer Cells.cleaner_spec_cell Readings.cleaner_spec_reading)
          Parts.cleaner_spec_deep_copy
      × DeepCopies
          (pointer Cells.cleaner_status_cell Readings.cleaner_status_reading)
          (Parts.cleaner_status_deep_copy lib)
      × DeepCopies
          (pointer Cells.resource_info_cell Readings.resource_info_reading)
          Parts.resource_info_deep_copy
      × DeepCopies
          (pointer Cells.report_spec_cell Readings.report_spec_reading)
          Parts.report_spec_deep_copy
part_methods-copy lib laws = (
  copy_pointer-copies Inner.delete_options-copies Cells.delete_options_cell,
  copy_pointer-copies Inner.resource_selector-copies Cells.resource_selector_cell,
  copy_pointer-copies Inner.resource_policy_set-copies Cells.resource_policy_set_cell,
  copy_pointer-copies Inner.notification-copies Cells.notification_cell,
  copy_pointer-copies Inner.cleaner_spec-copies Cells.cleaner_spec_cell,
  copy_pointer-copies (Inner.cleaner_status-copies laws) Cells.cleaner_status_cell,
  copy_pointer-copies Inner.resource_info-copies Cells.resource_info_cell,
  copy_pointer-copies Inner.report_spec-copies Cells.report_spec_cell,
)
