-- ===== src/Tests/Memory.antt =====
-- A list of one cleaner and a list of one report, in memory and as values.
use k8s_cleaner.Common.{
  ℕ, zero, suc, refl, Option, none, some, List, [], ◌∷◌, length, get_elem?, arith, false, true,
  String,
}
use k8s_cleaner.Common.Int.{ℤ, pos}
use k8s_cleaner.Api
use k8s_cleaner.DeepCopy.Structs.{
  Pointer, TypeMeta, ObjectMeta, ListMeta, DeleteOptionsStruct, ResourceSelectorStruct,
  NotificationStruct, CleanerSpecStruct, CleanerStatusStruct, CleanerStruct, CleanerListStruct,
  ResourceInfoStruct, ReportStruct, ReportListStruct,
}
use k8s_cleaner.DeepCopy.Cells
use k8s_cleaner.DeepCopy.Heap.{Heap}
use k8s_cleaner.DeepCopy.Growth.{IsSound}

abbrev heap_of : List Cells.Cell → Heap
heap_of cells = record { next = length cells; cell = get_elem? cells }

heap_of-IsSound : (cells : List Cells.Cell) → IsSound (heap_of cells)
heap_of-IsSound [] p l = refl
heap_of-IsSound (c ∷ cells) zero l = absurd (omega (arith, l))
heap_of-IsSound (c ∷ cells) (suc p) l = heap_of-IsSound cells p (omega (arith, l))

abbrev app_v1 : String → TypeMeta
app_v1 kind = record { kind = kind; api_version = "apps.projectsveltos.io/v1alpha1" }

abbrev only_running : Api.LabelFilter
only_running = record { key = "state"; is_equal = true; value = "running" }

abbrev channel : Api.ObjectReference
channel = record { namespace = "default"; name = "slack"; kind = "Secret"; api_version = "v1" }

-- The structs, over the contents of their pointers.
module _ (Ptr : Type 0 → Type 0) where
  abbrev list_meta : Ptr ℤ → ListMeta Ptr
  list_meta count = record {
    resource_version = "7";
    continue_token = "";
    remaining_item_count = count;
  }

  abbrev object_meta : String → Ptr (List String) → Ptr Api.Time → ObjectMeta Ptr
  object_meta name finalizers deleted = record {
    name = name;
    finalizers = finalizers;
    creation_timestamp = pos 1;
    deletion_timestamp = deleted;
  }

  abbrev selector : Ptr (List Api.LabelFilter) → ResourceSelectorStruct Ptr
  selector filters = record {
    namespace = "default";
    namespace_selector = "";
    group = "";
    version = "v1";
    kind = "Pod";
    label_filters = filters;
    evaluate = "";
    exclude_deleted = false;
  }

  abbrev spec :
      Ptr (List (ResourceSelectorStruct Ptr))
      → Ptr (DeleteOptionsStruct Ptr)
      → Ptr ℤ
      → Ptr (List (NotificationStruct Ptr))
      → CleanerSpecStruct Ptr
  spec selectors options deadline channels = record {
    resource_policy_set = record { resource_selectors = selectors; aggregated_selection = "" };
    action = Api.scan;
    delete_options = options;
    transform = "";
    schedule = "* * * * *";
    starting_deadline_seconds = deadline;
    notifications = channels;
    store_resource_path = "";
  }

  abbrev slack : Ptr Api.ObjectReference → NotificationStruct Ptr
  slack reference = record { name = "slack"; type = Api.slack; notification_ref = reference }

  abbrev options : Ptr ℤ → Ptr String → DeleteOptionsStruct Ptr
  options period policy = record { grace_period_seconds = period; propagation_policy = policy }

  abbrev status : Ptr Api.Time → Ptr Api.Time → Ptr String → CleanerStatusStruct Ptr
  status following previous message = record {
    next_schedule_time = following;
    last_run_time = previous;
    failure_message = message;
  }

  abbrev cleaner :
      ObjectMeta Ptr → CleanerSpecStruct Ptr → CleanerStatusStruct Ptr → CleanerStruct Ptr
  cleaner meta spec status = record {
    type_meta = app_v1 "Cleaner";
    object_meta = meta;
    spec = spec;
    status = status;
  }

  abbrev cleaner_list : ListMeta Ptr → Ptr (List (CleanerStruct Ptr)) → CleanerListStruct Ptr
  cleaner_list meta items = record {
    type_meta = app_v1 "CleanerList";
    list_meta = meta;
    items = items;
  }

  abbrev info : Ptr (List ℕ) → ResourceInfoStruct Ptr
  info content = record { resource = channel; full_resource = content; message = "" }

  abbrev report_struct : ObjectMeta Ptr → Ptr (List (ResourceInfoStruct Ptr)) → ReportStruct Ptr
  report_struct meta infos = record {
    type_meta = app_v1 "Report";
    object_meta = meta;
    spec = record { resource_info = infos; action = Api.scan };
  }

  abbrev report_list : ListMeta Ptr → Ptr (List (ReportStruct Ptr)) → ReportListStruct Ptr
  report_list meta items = record {
    type_meta = app_v1 "ReportList";
    list_meta = meta;
    items = items;
  }

-- Variables 1 and 5 are shared: the status has one instant twice, the deadline is the grace period.
abbrev pub cells : List Cells.Cell
cells =
    Cells.strings ("cleanerfinalizer.projectsveltos.io" ∷ [])
    ∷ Cells.time (pos 60)
    ∷ Cells.label_filters (only_running ∷ [])
    ∷ Cells.resource_selectors (selector Pointer (some 2) ∷ selector Pointer none ∷ [])
    ∷ Cells.delete_options (options Pointer (some 5) none)
    ∷ Cells.int64 (pos 30)
    ∷ Cells.notifications (slack Pointer (some 7) ∷ [])
    ∷ Cells.object_reference channel
    ∷ Cells.cleaners (
        cleaner Pointer (object_meta Pointer "pods" (some 0) none)
          (spec Pointer (some 3) (some 4) (some 5) (some 6)) (status Pointer (some 1) (some 1) none)
        ∷ [])
    ∷ Cells.cleaner_list (cleaner_list Pointer (list_meta Pointer none) (some 8))
    ∷ Cells.bytes (1 ∷ 2 ∷ [])
    ∷ Cells.resource_infos (info Pointer (some 10) ∷ info Pointer none ∷ [])
    ∷ Cells.reports
        (report_struct Pointer (object_meta Pointer "pods" none (some 1)) (some 11) ∷ [])
    ∷ Cells.report_list (report_list Pointer (list_meta Pointer (some 5)) (some 12))
    ∷ []

abbrev pub memory : Heap
memory = heap_of cells

pub memory-IsSound : IsSound memory
memory-IsSound = heap_of-IsSound cells

abbrev selectors : List (ResourceSelectorStruct Option)
selectors = selector Option (some (only_running ∷ [])) ∷ selector Option none ∷ []

abbrev one_cleaner : CleanerStruct Option
one_cleaner =
    cleaner Option
      (object_meta Option "pods" (some ("cleanerfinalizer.projectsveltos.io" ∷ [])) none)
      (spec Option (some selectors) (some (options Option (some (pos 30)) none)) (some (pos 30))
        (some (slack Option (some channel) ∷ [])))
      (status Option (some (pos 60)) (some (pos 60)) none)

abbrev pub cleaners_value : CleanerListStruct Option
cleaners_value = cleaner_list Option (list_meta Option none) (some (one_cleaner ∷ []))

abbrev infos : List (ResourceInfoStruct Option)
infos = info Option (some (1 ∷ 2 ∷ [])) ∷ info Option none ∷ []

abbrev pub reports_value : ReportListStruct Option
reports_value =
    report_list Option (list_meta Option (some (pos 30))) (
      some
        (report_struct Option (object_meta Option "pods" none (some (pos 60))) (some infos) ∷ []))
