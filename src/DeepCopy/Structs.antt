-- ===== src/DeepCopy/Structs.antt =====
-- api/v1alpha1/cleaner_types.go and report_types.go: the structs as they lie in memory. `Ptr T` is a
-- field of a pointer or slice type: an address in memory, and what it leads to in a value. Of the
-- libraries' metadata the fields that the code reads are kept, as in Api.
use k8s_cleaner.Common.{Bool, Option, List, ℕ, String}
use k8s_cleaner.Common.Int.{ℤ}
use k8s_cleaner.Api.{Action, LabelFilter, NotificationType, ObjectReference, Time}

abbrev pub Address : Type 0
Address = ℕ

-- A pointer or a slice in memory: nil, or the address of what it points to. A slice is the address of
-- its array, which has exactly the slice's elements.
abbrev pub Pointer : Type 0 → Type 0
Pointer T = Option Address

-- `metav1.TypeMeta`.
pub record TypeMeta : Type 0 where
  pub kind : String
  pub api_version : String

module _ (Ptr : Type 0 → Type 0) where
  -- `metav1.ObjectMeta`.
  pub record ObjectMeta : Type 0 where
    pub name : String
    pub finalizers : Ptr (List String)
    pub creation_timestamp : Time
    pub deletion_timestamp : Ptr Time

  -- `metav1.ListMeta`.
  pub record ListMeta : Type 0 where
    pub resource_version : String
    pub continue_token : String
    pub remaining_item_count : Ptr ℤ

  pub record DeleteOptionsStruct : Type 0 where
    pub grace_period_seconds : Ptr ℤ
    pub propagation_policy : Ptr String

  pub record ResourceSelectorStruct : Type 0 where
    pub namespace : String
    pub namespace_selector : String
    pub group : String
    pub version : String
    pub kind : String
    pub label_filters : Ptr (List LabelFilter)
    pub evaluate : String
    pub exclude_deleted : Bool

  pub record ResourcePolicySetStruct : Type 0 where
    pub resource_selectors : Ptr (List ResourceSelectorStruct)
    pub aggregated_selection : String

  pub record NotificationStruct : Type 0 where
    pub name : String
    pub type : NotificationType
    pub notification_ref : Ptr ObjectReference

  pub record CleanerSpecStruct : Type 0 where
    pub resource_policy_set : ResourcePolicySetStruct
    pub action : Action
    pub delete_options : Ptr DeleteOptionsStruct
    pub transform : String
    pub schedule : String
    pub starting_deadline_seconds : Ptr ℤ
    pub notifications : Ptr (List NotificationStruct)
    pub store_resource_path : String

  pub record CleanerStatusStruct : Type 0 where
    pub next_schedule_time : Ptr Time
    pub last_run_time : Ptr Time
    pub failure_message : Ptr String

  pub record CleanerStruct : Type 0 where
    pub type_meta : TypeMeta
    pub object_meta : ObjectMeta
    pub spec : CleanerSpecStruct
    pub status : CleanerStatusStruct

  pub record CleanerListStruct : Type 0 where
    pub type_meta : TypeMeta
    pub list_meta : ListMeta
    pub items : Ptr (List CleanerStruct)

  pub record ResourceInfoStruct : Type 0 where
    pub resource : ObjectReference
    pub full_resource : Ptr (List ℕ)
    pub message : String

  pub record ReportSpecStruct : Type 0 where
    pub resource_info : Ptr (List ResourceInfoStruct)
    pub action : Action

  pub record ReportStruct : Type 0 where
    pub type_meta : TypeMeta
    pub object_meta : ObjectMeta
    pub spec : ReportSpecStruct

  pub record ReportListStruct : Type 0 where
    pub type_meta : TypeMeta
    pub list_meta : ListMeta
    pub items : Ptr (List ReportStruct)
