-- ===== src/DeepCopy/Cells/Structs.antt =====
-- The cells that hold structs and arrays of structs.
use k8s_cleaner.Common.{refl, Option, none, some, List}
use k8s_cleaner.DeepCopy.Structs.{
  CleanerListStruct, CleanerSpecStruct, CleanerStatusStruct, CleanerStruct, DeleteOptionsStruct,
  NotificationStruct, Pointer, ReportListStruct, ReportSpecStruct, ReportStruct, ResourceInfoStruct,
  ResourcePolicySetStruct, ResourceSelectorStruct,
}
use k8s_cleaner.DeepCopy.Cells.Data.{
  Cell, Kind, delete_options, resource_selector, resource_selectors, resource_policy_set,
  notification, notifications, cleaner_spec, cleaner_status, cleaner, cleaners, cleaner_list,
  resource_info, resource_infos, report_spec, report, reports, report_list,
}

abbrev get_delete_options : Cell → Option (DeleteOptionsStruct Pointer)
get_delete_options (delete_options s) = some s
get_delete_options _ = none

abbrev pub delete_options_cell : Kind (DeleteOptionsStruct Pointer)
delete_options_cell = record {
  wrap = delete_options;
  unwrap = get_delete_options;
  unwrap-wrap = λ s. refl;
}

abbrev get_resource_selector : Cell → Option (ResourceSelectorStruct Pointer)
get_resource_selector (resource_selector s) = some s
get_resource_selector _ = none

abbrev pub resource_selector_cell : Kind (ResourceSelectorStruct Pointer)
resource_selector_cell = record {
  wrap = resource_selector;
  unwrap = get_resource_selector;
  unwrap-wrap = λ s. refl;
}

abbrev get_resource_selectors : Cell → Option (List (ResourceSelectorStruct Pointer))
get_resource_selectors (resource_selectors s) = some s
get_resource_selectors _ = none

abbrev pub resource_selectors_cell : Kind (List (ResourceSelectorStruct Pointer))
resource_selectors_cell = record {
  wrap = resource_selectors;
  unwrap = get_resource_selectors;
  unwrap-wrap = λ s. refl;
}

abbrev get_resource_policy_set : Cell → Option (ResourcePolicySetStruct Pointer)
get_resource_policy_set (resource_policy_set s) = some s
get_resource_policy_set _ = none

abbrev pub resource_policy_set_cell : Kind (ResourcePolicySetStruct Pointer)
resource_policy_set_cell = record {
  wrap = resource_policy_set;
  unwrap = get_resource_policy_set;
  unwrap-wrap = λ s. refl;
}

abbrev get_notification : Cell → Option (NotificationStruct Pointer)
get_notification (notification s) = some s
get_notification _ = none

abbrev pub notification_cell : Kind (NotificationStruct Pointer)
notification_cell = record {
  wrap = notification;
  unwrap = get_notification;
  unwrap-wrap = λ s. refl;
}

abbrev get_notifications : Cell → Option (List (NotificationStruct Pointer))
get_notifications (notifications s) = some s
get_notifications _ = none

abbrev pub notifications_cell : Kind (List (NotificationStruct Pointer))
notifications_cell = record {
  wrap = notifications;
  unwrap = get_notifications;
  unwrap-wrap = λ s. refl;
}

abbrev get_cleaner_spec : Cell → Option (CleanerSpecStruct Pointer)
get_cleaner_spec (cleaner_spec s) = some s
get_cleaner_spec _ = none

abbrev pub cleaner_spec_cell : Kind (CleanerSpecStruct Pointer)
cleaner_spec_cell = record {
  wrap = cleaner_spec;
  unwrap = get_cleaner_spec;
  unwrap-wrap = λ s. refl;
}

abbrev get_cleaner_status : Cell → Option (CleanerStatusStruct Pointer)
get_cleaner_status (cleaner_status s) = some s
get_cleaner_status _ = none

abbrev pub cleaner_status_cell : Kind (CleanerStatusStruct Pointer)
cleaner_status_cell = record {
  wrap = cleaner_status;
  unwrap = get_cleaner_status;
  unwrap-wrap = λ s. refl;
}

abbrev get_cleaner : Cell → Option (CleanerStruct Pointer)
get_cleaner (cleaner s) = some s
get_cleaner _ = none

abbrev pub cleaner_cell : Kind (CleanerStruct Pointer)
cleaner_cell = record { wrap = cleaner; unwrap = get_cleaner; unwrap-wrap = λ s. refl }

abbrev get_cleaners : Cell → Option (List (CleanerStruct Pointer))
get_cleaners (cleaners s) = some s
get_cleaners _ = none

abbrev pub cleaners_cell : Kind (List (CleanerStruct Pointer))
cleaners_cell = record { wrap = cleaners; unwrap = get_cleaners; unwrap-wrap = λ s. refl }

abbrev get_cleaner_list : Cell → Option (CleanerListStruct Pointer)
get_cleaner_list (cleaner_list s) = some s
get_cleaner_list _ = none

abbrev pub cleaner_list_cell : Kind (CleanerListStruct Pointer)
cleaner_list_cell = record {
  wrap = cleaner_list;
  unwrap = get_cleaner_list;
  unwrap-wrap = λ s. refl;
}

abbrev get_resource_info : Cell → Option (ResourceInfoStruct Pointer)
get_resource_info (resource_info s) = some s
get_resource_info _ = none

abbrev pub resource_info_cell : Kind (ResourceInfoStruct Pointer)
resource_info_cell = record {
  wrap = resource_info;
  unwrap = get_resource_info;
  unwrap-wrap = λ s. refl;
}

abbrev get_resource_infos : Cell → Option (List (ResourceInfoStruct Pointer))
get_resource_infos (resource_infos s) = some s
get_resource_infos _ = none

abbrev pub resource_infos_cell : Kind (List (ResourceInfoStruct Pointer))
resource_infos_cell = record {
  wrap = resource_infos;
  unwrap = get_resource_infos;
  unwrap-wrap = λ s. refl;
}

abbrev get_report_spec : Cell → Option (ReportSpecStruct Pointer)
get_report_spec (report_spec s) = some s
get_report_spec _ = none

abbrev pub report_spec_cell : Kind (ReportSpecStruct Pointer)
report_spec_cell = record { wrap = report_spec; unwrap = get_report_spec; unwrap-wrap = λ s. refl }

abbrev get_report : Cell → Option (ReportStruct Pointer)
get_report (report s) = some s
get_report _ = none

abbrev pub report_cell : Kind (ReportStruct Pointer)
report_cell = record { wrap = report; unwrap = get_report; unwrap-wrap = λ s. refl }

abbrev get_reports : Cell → Option (List (ReportStruct Pointer))
get_reports (reports s) = some s
get_reports _ = none

abbrev pub reports_cell : Kind (List (ReportStruct Pointer))
reports_cell = record { wrap = reports; unwrap = get_reports; unwrap-wrap = λ s. refl }

abbrev get_report_list : Cell → Option (ReportListStruct Pointer)
get_report_list (report_list s) = some s
get_report_list _ = none

abbrev pub report_list_cell : Kind (ReportListStruct Pointer)
report_list_cell = record { wrap = report_list; unwrap = get_report_list; unwrap-wrap = λ s. refl }
