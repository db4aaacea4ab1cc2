-- ===== src/Api.antt =====
-- api/v1alpha1/cleaner_types.go and report_types.go: the custom resources. Of the object metadata
-- the fields that the code reads are kept: the name, the finalizers and two timestamps.
use k8s_cleaner.Common.{String, Bool, Option, List}
use k8s_cleaner.Common.Int.{ℤ}

-- `Action` is a string type: the three named values, or any other text.
pub data Action : Type 0 where
  delete transform scan : Action
  other : String → Action

pub record DeleteOptions : Type 0 where
  pub grace_period_seconds : Option ℤ
  pub propagation_policy : Option String

-- `libsveltosv1beta1.LabelFilter`; the code tests the operation against `OperationEqual` only.
pub record LabelFilter : Type 0 where
  pub key : String
  pub is_equal : Bool
  pub value : String

pub record ResourceSelector : Type 0 where
  pub namespace : String
  pub namespace_selector : String
  pub group : String
  pub version : String
  pub kind : String
  pub label_filters : List LabelFilter
  pub evaluate : String
  pub exclude_deleted : Bool

pub record ResourcePolicySet : Type 0 where
  pub resource_selectors : List ResourceSelector
  pub aggregated_selection : String

-- `NotificationType`, with any other text.
pub data NotificationType : Type 0 where
  cleaner_report slack webex discord teams smtp : NotificationType
  unregistered : String → NotificationType

-- `corev1.ObjectReference`, with the fields that the code uses.
pub record ObjectReference : Type 0 where
  pub namespace : String
  pub name : String
  pub kind : String
  pub api_version : String

pub record Notification : Type 0 where
  pub name : String
  pub type : NotificationType
  pub notification_ref : Option ObjectReference

pub record CleanerSpec : Type 0 where
  pub resource_policy_set : ResourcePolicySet
  pub action : Action
  pub delete_options : Option DeleteOptions
  pub transform : String
  pub schedule : String
  pub starting_deadline_seconds : Option ℤ
  pub notifications : List Notification
  pub store_resource_path : String

-- An instant, in nanoseconds from a fixed origin.
abbrev pub Time : Type 0
Time = ℤ

pub record CleanerStatus : Type 0 where
  pub next_schedule_time : Option Time
  pub last_run_time : Option Time
  pub failure_message : Option String

pub record Cleaner : Type 0 where
  pub name : String
  pub finalizers : List String
  pub creation_timestamp : Time
  pub deletion_timestamp : Option Time
  pub spec : CleanerSpec
  pub status : CleanerStatus

pub record ResourceInfo : Type 0 where
  pub resource : ObjectReference
  pub message : String

pub record ReportSpec : Type 0 where
  pub resource_info : List ResourceInfo
  pub action : Action
