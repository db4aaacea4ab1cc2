-- ===== src/DeepCopy/Parts.antt =====
-- api/v1alpha1/zz_generated.deepcopy.go: the copies of the structs inside a cleaner or a report, and
-- their `DeepCopy` methods. `*out = *in` is the record that each copy updates.
use k8s_cleaner.Common.{none, some}
use k8s_cleaner.Api.{Time}
use k8s_cleaner.DeepCopy.Structs.{
  Pointer, ObjectMeta, ListMeta, DeleteOptionsStruct, ResourceSelectorStruct,
  ResourcePolicySetStruct, NotificationStruct, CleanerSpecStruct, CleanerStatusStruct,
  ResourceInfoStruct, ReportSpecStruct,
}
use k8s_cleaner.DeepCopy.Cells
use k8s_cleaner.DeepCopy.Heap.{M, pure, ◌>>=◌}
use k8s_cleaner.DeepCopy.Pointers.{copy_content, copy_each, copy_pointer}

-- The copies of k8s.io/apimachinery: `metav1.ObjectMeta.DeepCopyInto`, `metav1.ListMeta.DeepCopyInto`
-- and `metav1.Time.DeepCopy`.
pub record Library : Type 0 where
  pub object_meta_deep_copy_into : ObjectMeta Pointer → M (ObjectMeta Pointer)
  pub list_meta_deep_copy_into : ListMeta Pointer → M (ListMeta Pointer)
  pub time_deep_copy : Pointer Time → M (Pointer Time)

unfoldable pub delete_options_deep_copy_into :
    DeleteOptionsStruct Pointer → M (DeleteOptionsStruct Pointer)
delete_options_deep_copy_into s = do
  period ← copy_pointer copy_content Cells.int64_cell s.grace_period_seconds
  policy ← copy_pointer copy_content Cells.text_cell s.propagation_policy
  pure (record s { grace_period_seconds = period; propagation_policy = policy })

abbrev pub delete_options_deep_copy :
    Pointer (DeleteOptionsStruct Pointer) → M (Pointer (DeleteOptionsStruct Pointer))
delete_options_deep_copy p = copy_pointer delete_options_deep_copy_into Cells.delete_options_cell p

unfoldable pub resource_selector_deep_copy_into :
    ResourceSelectorStruct Pointer → M (ResourceSelectorStruct Pointer)
resource_selector_deep_copy_into s = do
  filters ← copy_pointer copy_content Cells.label_filters_cell s.label_filters
  pure (record s { label_filters = filters })

abbrev pub resource_selector_deep_copy :
    Pointer (ResourceSelectorStruct Pointer) → M (Pointer (ResourceSelectorStruct Pointer))
resource_selector_deep_copy p =
    copy_pointer resource_selector_deep_copy_into Cells.resource_selector_cell p

unfoldable pub resource_policy_set_deep_copy_into :
    ResourcePolicySetStruct Pointer → M (ResourcePolicySetStruct Pointer)
resource_policy_set_deep_copy_into s = do
  selectors ←
      copy_pointer (copy_each resource_selector_deep_copy_into) Cells.resource_selectors_cell
        s.resource_selectors
  pure (record s { resource_selectors = selectors })

abbrev pub resource_policy_set_deep_copy :
    Pointer (ResourcePolicySetStruct Pointer) → M (Pointer (ResourcePolicySetStruct Pointer))
resource_policy_set_deep_copy p =
    copy_pointer resource_policy_set_deep_copy_into Cells.resource_policy_set_cell p

unfoldable pub notification_deep_copy_into :
    NotificationStruct Pointer → M (NotificationStruct Pointer)
notification_deep_copy_into s = do
  reference ← copy_pointer copy_content Cells.object_reference_cell s.notification_ref
  pure (record s { notification_ref = reference })

abbrev pub notification_deep_copy :
    Pointer (NotificationStruct Pointer) → M (Pointer (NotificationStruct Pointer))
notification_deep_copy p = copy_pointer notification_deep_copy_into Cells.notification_cell p

unfoldable pub cleaner_spec_deep_copy_into :
    CleanerSpecStruct Pointer → M (CleanerSpecStruct Pointer)
cleaner_spec_deep_copy_into s = do
  policy_set ← resource_policy_set_deep_copy_into s.resource_policy_set
  options ← copy_pointer delete_options_deep_copy_into Cells.delete_options_cell s.delete_options
  deadline ← copy_pointer copy_content Cells.int64_cell s.starting_deadline_seconds
  channels ←
      copy_pointer (copy_each notification_deep_copy_into) Cells.notifications_cell s.notifications
  pure (record s {
    resource_policy_set = policy_set;
    delete_options = options;
    starting_deadline_seconds = deadline;
    notifications = channels;
  })

abbrev pub cleaner_spec_deep_copy :
    Pointer (CleanerSpecStruct Pointer) → M (Pointer (CleanerSpecStruct Pointer))
cleaner_spec_deep_copy p = copy_pointer cleaner_spec_deep_copy_into Cells.cleaner_spec_cell p

-- `if in != nil { *out = (*in).DeepCopy() }`.
abbrev pub copy_time : Library → Pointer Time → M (Pointer Time)
copy_time lib none = pure none
copy_time lib (some p) = lib.time_deep_copy (some p)

unfoldable pub cleaner_status_deep_copy_into :
    Library → CleanerStatusStruct Pointer → M (CleanerStatusStruct Pointer)
cleaner_status_deep_copy_into lib s = do
  following ← copy_time lib s.next_schedule_time
  last ← copy_time lib s.last_run_time
  message ← copy_pointer copy_content Cells.text_cell s.failure_message
  pure
      (record s { next_schedule_time = following; last_run_time = last; failure_message = message })

abbrev pub cleaner_status_deep_copy :
    Library → Pointer (CleanerStatusStruct Pointer) → M (Pointer (CleanerStatusStruct Pointer))
cleaner_status_deep_copy lib p =
    copy_pointer (cleaner_status_deep_copy_into lib) Cells.cleaner_status_cell p

unfoldable pub resource_info_deep_copy_into :
    ResourceInfoStruct Pointer → M (ResourceInfoStruct Pointer)
resource_info_deep_copy_into s = do
  content ← copy_pointer copy_content Cells.bytes_cell s.full_resource
  pure (record s { full_resource = content })

abbrev pub resource_info_deep_copy :
    Pointer (ResourceInfoStruct Pointer) → M (Pointer (ResourceInfoStruct Pointer))
resource_info_deep_copy p = copy_pointer resource_info_deep_copy_into Cells.resource_info_cell p

unfoldable pub report_spec_deep_copy_into : ReportSpecStruct Pointer → M (ReportSpecStruct Pointer)
report_spec_deep_copy_into s = do
  infos ←
      copy_pointer (copy_each resource_info_deep_copy_into) Cells.resource_infos_cell
        s.resource_info
  pure (record s { resource_info = infos })

abbrev pub report_spec_deep_copy :
    Pointer (ReportSpecStruct Pointer) → M (Pointer (ReportSpecStruct Pointer))
report_spec_deep_copy p = copy_pointer report_spec_deep_copy_into Cells.report_spec_cell p
