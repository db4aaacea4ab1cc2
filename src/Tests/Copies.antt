-- ===== src/Tests/Copies.antt =====
-- A list of one cleaner and a list of one report in memory, and libraries whose copies are written
-- like the generated ones.
use k8s_cleaner.Common.{◌≡◌, refl, Option, none, some}
use k8s_cleaner.DeepCopy.Cells
use k8s_cleaner.DeepCopy.Heap.{Heap, pure, ◌>>=◌}
use k8s_cleaner.DeepCopy.Stands.{PointerStands, nil, points, pointer, end, next}
use k8s_cleaner.DeepCopy.Pointers.{copy_content, copy_each, copy_pointer}
use k8s_cleaner.DeepCopy.Growth.{Grows-refl}
use k8s_cleaner.DeepCopy.Fresh.{copied, begin, then, last, value-copies}
use k8s_cleaner.DeepCopy.Parts
use k8s_cleaner.DeepCopy.Parts.{Library}
use k8s_cleaner.DeepCopy.Inner.{LibraryCopies}
use k8s_cleaner.DeepCopy.Readings
use k8s_cleaner.DeepCopy.Roots
use k8s_cleaner.DeepCopy.Apart.{Apart, object}
use k8s_cleaner.DeepCopy.Whole
use k8s_cleaner.Tests.Memory.{memory, memory-IsSound, cleaners_value, reports_value}

abbrev copying : Library
copying = record {
  object_meta_deep_copy_into = λ s. (do
    names ← copy_pointer copy_content Cells.strings_cell s.finalizers
    deleted ← copy_pointer copy_content Cells.time_cell s.deletion_timestamp
    pure (record s { finalizers = names; deletion_timestamp = deleted }));
  list_meta_deep_copy_into = λ s. (do
    count ← copy_pointer copy_content Cells.int64_cell s.remaining_item_count
    pure (record s { remaining_item_count = count }));
  time_deep_copy = copy_pointer copy_content Cells.time_cell;
}

copying-copies : LibraryCopies copying
copying-copies = record {
  object_meta = record {
    copy_lem = λ h s v sound (w, p, e).
        then (value-copies Cells.strings_cell) (begin sound p) λ a h₁ ready.
          last (value-copies Cells.time_cell) ready
            λ b h₂ sound₂ ((_, x), y). copied (Grows-refl sound₂) (w, (x, y), e);
  };
  list_meta = record {
    copy_lem = λ h s v sound (w, p, e).
        last (value-copies Cells.int64_cell) (begin sound p)
          λ a h' sound' (_, x). copied (Grows-refl sound') (w, x, e);
  };
  time = value-copies Cells.time_cell;
}

-- Each struct stands for itself with the contents of its parts in their place.
cleaners_Stands :
    PointerStands Cells.cleaner_list_cell Readings.cleaner_list_reading memory.cell
      (some 9)
      (some cleaners_value)
cleaners_Stands = points _ refl (
  _,
  (
    (_, nil, refl),
    points _ refl (
        next
          (
            _,
            (
              (_, (points _ refl refl, nil), refl),
              (
                (
                  _,
                  (
                    (
                      _,
                      points _ refl (next (_, points _ refl refl, refl) (next (_, nil, refl) end)),
                      refl,
                    ),
                    (
                      points _ refl (_, (points _ refl refl, nil), refl),
                      (points _ refl refl, points _ refl (next (_, points _ refl refl, refl) end)),
                    ),
                  ),
                  refl,
                ),
                (_, (points _ refl refl, (points _ refl refl, nil)), refl),
              ),
            ),
            refl,
          )
          end),
  ),
  refl,
)

reports_Stands :
    PointerStands Cells.report_list_cell Readings.report_list_reading memory.cell
      (some 13)
      (some reports_value)
reports_Stands = points _ refl (
  _,
  (
    (_, points _ refl refl, refl),
    points _ refl (
        next
          (
            _,
            (
              (_, (nil, points _ refl refl), refl),
              (
                _,
                points _ refl (next (_, points _ refl refl, refl) (next (_, nil, refl) end)),
                refl,
              ),
            ),
            refl,
          )
          end),
  ),
  refl,
)

cleaner_list_deep_copy_object-Apart_example :
    Apart
      (pointer Cells.cleaner_list_cell Readings.cleaner_list_reading)
      (object Cells.cleaner_list_cell Readings.cleaner_list_reading Roots.cleaner_list_object)
      memory
      (some 9)
      (some cleaners_value)
      (Roots.cleaner_list_deep_copy_object copying (some 9) memory)
cleaner_list_deep_copy_object-Apart_example =
    Whole.cleaner_list_deep_copy_object-Apart copying-copies memory (some 9) (some cleaners_value)
      memory-IsSound cleaners_Stands

report_list_deep_copy_object-Apart_example :
    Apart
      (pointer Cells.report_list_cell Readings.report_list_reading)
      (object Cells.report_list_cell Readings.report_list_reading Roots.report_list_object)
      memory
      (some 13)
      (some reports_value)
      (Roots.report_list_deep_copy_object copying (some 13) memory)
report_list_deep_copy_object-Apart_example =
    Whole.report_list_deep_copy_object-Apart copying-copies memory (some 13) (some reports_value)
      memory-IsSound reports_Stands

abbrev object_of : Option (Option Roots.Object × Heap) → Option Roots.Object
object_of none = none
object_of (some (o, h)) = o

nil_object : object_of (Roots.cleaner_list_deep_copy_object copying none memory) ≡ none
unfolding Roots.cleaner_list_deep_copy_object copy_pointer
nil_object = refl

-- The memory has 14 variables: the copy is the next one.
copied_object :
    object_of (Roots.cleaner_list_deep_copy_object copying (some 9) memory)
    ≡ some (Roots.cleaner_list_object (some 14))
unfolding Roots.cleaner_list_deep_copy_object copy_pointer copy_each
    Roots.cleaner_list_deep_copy_into Roots.cleaner_deep_copy_into Parts.cleaner_spec_deep_copy_into
    Parts.resource_policy_set_deep_copy_into Parts.resource_selector_deep_copy_into
    Parts.delete_options_deep_copy_into Parts.notification_deep_copy_into
    Parts.cleaner_status_deep_copy_into
copied_object = refl
