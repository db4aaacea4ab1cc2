-- ===== src/DeepCopy/Readings.antt =====
-- What the structs in memory stand for: the same structs, with the contents of their pointers and
-- slices in place of the addresses. A nil slice and an empty one are different.
use k8s_cleaner.Common.{Option}
use k8s_cleaner.DeepCopy.Structs.{
  Pointer, ObjectMeta, ListMeta, DeleteOptionsStruct, ResourceSelectorStruct,
  ResourcePolicySetStruct, NotificationStruct, CleanerSpecStruct, CleanerStatusStruct,
  CleanerStruct, CleanerListStruct, ResourceInfoStruct, ReportSpecStruct, ReportStruct,
  ReportListStruct,
}
use k8s_cleaner.DeepCopy.Cells
use k8s_cleaner.DeepCopy.Stands.{Reading, plain, each, pointer, struct, ◌⊗◌}

abbrev pub object_meta_reading : Reading (ObjectMeta Pointer) (ObjectMeta Option)
object_meta_reading =
    struct (λ s. (s.finalizers, s.deletion_timestamp))
      (λ s (names, deleted). record {
        name = s.name;
        finalizers = names;
        creation_timestamp = s.creation_timestamp;
        deletion_timestamp = deleted;
      })
      (pointer Cells.strings_cell plain ⊗ pointer Cells.time_cell plain)

abbrev pub list_meta_reading : Reading (ListMeta Pointer) (ListMeta Option)
list_meta_reading =
    struct (λ s. s.remaining_item_count)
      (λ s count. record {
        resource_version = s.resource_version;
        continue_token = s.continue_token;
        remaining_item_count = count;
      })
      (pointer Cells.int64_cell plain)

abbrev pub delete_options_reading :
    Reading (DeleteOptionsStruct Pointer) (DeleteOptionsStruct Option)
delete_options_reading =
    struct (λ s. (s.grace_period_seconds, s.propagation_policy))
      (λ s (period, policy). record { grace_period_seconds = period; propagation_policy = policy })
      (pointer Cells.int64_cell plain ⊗ pointer Cells.text_cell plain)

abbrev pub resource_selector_reading :
    Reading (ResourceSelectorStruct Pointer) (ResourceSelectorStruct Option)
resource_selector_reading =
    struct (λ s. s.label_filters)
      (λ s filters. record {
        namespace = s.namespace;
        namespace_selector = s.namespace_selector;
        group = s.group;
        version = s.version;
        kind = s.kind;
        label_filters = filters;
        evaluate = s.evaluate;
        exclude_deleted = s.exclude_deleted;
      })
      (pointer Cells.label_filters_cell plain)

abbrev pub resource_policy_set_reading :
    Reading (ResourcePolicySetStruct Pointer) (ResourcePolicySetStruct Option)
resource_policy_set_reading =
    struct (λ s. s.resource_selectors)
      (λ s selectors. record {
        resource_selectors = selectors;
        aggregated_selection = s.aggregated_selection;
      })
      (pointer Cells.resource_selectors_cell (each resource_selector_reading))

abbrev pub notification_reading : Reading (NotificationStruct Pointer) (NotificationStruct Option)
notification_reading =
    struct (λ s. s.notification_ref)
      (λ s reference. record { name = s.name; type = s.type; notification_ref = reference })
      (pointer Cells.object_reference_cell plain)

abbrev pub cleaner_spec_reading : Reading (CleanerSpecStruct Pointer) (CleanerSpecStruct Option)
cleaner_spec_reading =
    struct
      (λ s.
        (s.resource_policy_set, (s.delete_options, (s.starting_deadline_seconds, s.notifications))))
      (λ s (policy_set, (options, (deadline, channels))). record {
        resource_policy_set = policy_set;
        action = s.action;
        delete_options = options;
        transform = s.transform;
        schedule = s.schedule;
        starting_deadline_seconds = deadline;
        notifications = channels;
        store_resource_path = s.store_resource_path;
      })
      (resource_policy_set_reading
        ⊗ pointer Cells.delete_options_cell delete_options_reading
        ⊗ pointer Cells.int64_cell plain
        ⊗ pointer Cells.notifications_cell (each notification_reading))

abbrev pub cleaner_status_reading :
    Reading (CleanerStatusStruct Pointer) (CleanerStatusStruct Option)
cleaner_status_reading =
    struct (λ s. (s.next_schedule_time, (s.last_run_time, s.failure_message)))
      (λ s (following, (last, message)). record {
        next_schedule_time = following;
        last_run_time = last;
        failure_message = message;
      })
      (pointer Cells.time_cell plain
        ⊗ pointer Cells.time_cell plain
        ⊗ pointer Cells.text_cell plain)

abbrev pub cleaner_reading : Reading (CleanerStruct Pointer) (CleanerStruct Option)
cleaner_reading =
    struct (λ s. (s.object_meta, (s.spec, s.status)))
      (λ s (meta, (spec, status)). record {
        type_meta = s.type_meta;
        object_meta = meta;
        spec = spec;
        status = status;
      })
      (object_meta_reading ⊗ cleaner_spec_reading ⊗ cleaner_status_reading)

abbrev pub cleaner_list_reading : Reading (CleanerListStruct Pointer) (CleanerListStruct Option)
cleaner_list_reading =
    struct (λ s. (s.list_meta, s.items))
      (λ s (meta, items). record { type_meta = s.type_meta; list_meta = meta; items = items })
      (list_meta_reading ⊗ pointer Cells.cleaners_cell (each cleaner_reading))

abbrev pub resource_info_reading : Reading (ResourceInfoStruct Pointer) (ResourceInfoStruct Option)
resource_info_reading =
    struct (λ s. s.full_resource)
      (λ s content. record { resource = s.resource; full_resource = content; message = s.message })
      (pointer Cells.bytes_cell plain)

abbrev pub report_spec_reading : Reading (ReportSpecStruct Pointer) (ReportSpecStruct Option)
report_spec_reading =
    struct (λ s. s.resource_info) (λ s infos. record { resource_info = infos; action = s.action })
      (pointer Cells.resource_infos_cell (each resource_info_reading))

abbrev pub report_reading : Reading (ReportStruct Pointer) (ReportStruct Option)
report_reading =
    struct (λ s. (s.object_meta, s.spec))
      (λ s (meta, spec). record { type_meta = s.type_meta; object_meta = meta; spec = spec })
      (object_meta_reading ⊗ report_spec_reading)

abbrev pub report_list_reading : Reading (ReportListStruct Pointer) (ReportListStruct Option)
report_list_reading =
    struct (λ s. (s.list_meta, s.items))
      (λ s (meta, items). record { type_meta = s.type_meta; list_meta = meta; items = items })
      (list_meta_reading ⊗ pointer Cells.reports_cell (each report_reading))
