-- ===== src/Executor/Cluster.antt =====
-- What internal/controller/executor asks of its libraries: the resources that it handles, and the
-- reads that it makes of the Kubernetes API and of the packages that parse selectors.
use k8s_cleaner.Common.{String, Bool, List, Assoc, GoError, Outcome}

-- `unstructured.Unstructured` by its getters; `is_deleted` is `!GetDeletionTimestamp().IsZero()`.
pub record Objects : Type 1 where
  pub Obj : Type 0
  pub get_kind : Obj → String
  pub get_namespace : Obj → String
  pub get_name : Obj → String
  pub get_api_version : Obj → String
  pub is_deleted : Obj → Bool

-- `schema.GroupVersionKind`
pub record GroupVersionKind : Type 0 where
  pub group : String
  pub version : String
  pub kind : String

-- `schema.GroupVersionResource`
pub record GroupVersionResource : Type 0 where
  pub group : String
  pub version : String
  pub resource : String

-- `metav1.ListOptions`, the fields that are set.
pub record ListOptions : Type 0 where
  pub label_selector : String
  pub field_selector : String

-- `corev1.Namespace`, the fields that are read.
pub record Namespace : Type 0 where
  pub name : String
  pub labels : Assoc String
  pub is_deleted : Bool

-- What `RESTMapping` answers: the resource, an error that is a no-match error, or another error.
pub data Mapping : Type 0 where
  mapped : String → Mapping
  no_match : GoError → Mapping
  failed : GoError → Mapping

pub record Cluster (Obj : Type 0) : Type 1 where
  -- `restmapper.GetAPIGroupResources`
  pub GroupResources : Type 0
  pub get_api_group_resources : Outcome GroupResources
  -- `mapper.RESTMapping(gvk.GroupKind(), gvk.Version)`
  pub rest_mapping : GroupResources → GroupVersionKind → Mapping
  -- `d.Resource(resourceId).List(ctx, options)`
  pub list : GroupVersionResource → ListOptions → Outcome (List Obj)
  -- `k8sClient.List` of all namespaces
  pub list_namespaces : Outcome (List Namespace)
  -- `labels.Parse`, with `Matches` of the parsed selector
  pub parse : String → Outcome (Assoc String → Bool)
  -- `scheme.ObjectKinds` of a namespace
  pub object_kinds : Outcome (List GroupVersionKind)
