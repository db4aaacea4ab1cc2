-- ===== src/DeepCopy/Cells/Data.antt =====
-- What a cell of memory holds: one variable of a type that a pointer leads to, or the array of a
-- slice.
use k8s_cleaner.Common.{◌≡◌, Option, some, List, ℕ, String}
use k8s_cleaner.Common.Int.{ℤ}
use k8s_cleaner.Api.{LabelFilter, ObjectReference, Time}
use k8s_cleaner.DeepCopy.Structs.{
  CleanerListStruct, CleanerSpecStruct, CleanerStatusStruct, CleanerStruct, DeleteOptionsStruct,
  NotificationStruct, Pointer, ReportListStruct, ReportSpecStruct, ReportStruct, ResourceInfoStruct,
  ResourcePolicySetStruct, ResourceSelectorStruct,
}

pub data Cell : Type 0 where
  int64 : ℤ → Cell
  text : String → Cell
  time : Time → Cell
  object_reference : ObjectReference → Cell
  strings : List String → Cell
  bytes : List ℕ → Cell
  label_filters : List LabelFilter → Cell
  delete_options : DeleteOptionsStruct Pointer → Cell
  resource_selector : ResourceSelectorStruct Pointer → Cell
  resource_selectors : List (ResourceSelectorStruct Pointer) → Cell
  resource_policy_set : ResourcePolicySetStruct Pointer → Cell
  notification : NotificationStruct Pointer → Cell
  notifications : List (NotificationStruct Pointer) → Cell
  cleaner_spec : CleanerSpecStruct Pointer → Cell
  cleaner_status : CleanerStatusStruct Pointer → Cell
  cleaner : CleanerStruct Pointer → Cell
  cleaners : List (CleanerStruct Pointer) → Cell
  cleaner_list : CleanerListStruct Pointer → Cell
  resource_info : ResourceInfoStruct Pointer → Cell
  resource_infos : List (ResourceInfoStruct Pointer) → Cell
  report_spec : ReportSpecStruct Pointer → Cell
  report : ReportStruct Pointer → Cell
  reports : List (ReportStruct Pointer) → Cell
  report_list : ReportListStruct Pointer → Cell

-- The cells that hold an S.
pub record Kind (S : Type 0) : Type 0 where
  pub wrap : S → Cell
  pub unwrap : Cell → Option S
  pub unwrap-wrap : (s : S) → unwrap (wrap s) ≡ some s
