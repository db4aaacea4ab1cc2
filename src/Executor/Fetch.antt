-- ===== src/Executor/Fetch.antt =====
-- internal/controller/executor/worker.go: `fetchResources`, `getNamespaces` and the functions that
-- list; store.go: `addTypeInformationToObject`. Logging is left out.
pub mod Namespaces
pub mod Filters
pub mod Breadth
use k8s_cleaner.Common.{
  String, Bool, true, false, Option, none, some, List, [], ◌∷◌, ◌++◌, ◌<>◌, Assoc, lookup, insert,
  Outcome, ok, err, ◌>>=◌, ◌==◌, if◌then◌else◌, not, ◌||◌,
}
use k8s_cleaner.Api.{LabelFilter, ResourceSelector}
use k8s_cleaner.Executor.Cluster.{
  GroupVersionKind, GroupVersionResource, ListOptions, Namespace, Mapping, mapped, no_match, failed,
  Cluster,
}

-- The loop of `addTypeInformationToObject`: the kind that is set on the object, if any.
unfoldable pub first_kind : List GroupVersionKind → Option GroupVersionKind
first_kind [] = none
first_kind (gvk ∷ gvks) =
    let rest = first_kind gvks in
    if gvk.kind == ""
    then rest
    else if gvk.version == "" || gvk.version == "__internal"
    then rest
    else some gvk

unfoldable pub add_type_information_to_object :
    Outcome (List GroupVersionKind) → Outcome (Option GroupVersionKind)
unfolding first_kind
add_type_information_to_object kinds = do gvks ← kinds; ok (first_kind gvks)

-- One term of the label selector.
unfoldable pub label_term : LabelFilter → String
label_term f = if f.is_equal then f.key <> ("=" <> f.value) else f.key <> ("!=" <> f.value)

-- The loop that builds the label selector; a comma goes before a term unless nothing stands there.
unfoldable pub label_selector_from : String → List LabelFilter → String
unfolding label_term
label_selector_from acc [] = acc
label_selector_from acc (f ∷ fs) =
    label_selector_from ((if acc == "" then acc else acc <> ",") <> label_term f) fs

module _ {Obj : Type 0} (c : Cluster Obj) where
  -- The loop of `getNamespaces` over the listed namespaces, with `matchingNamespaces` and
  -- `addedNamespace`.
  unfoldable pub match_namespaces :
      (Assoc String → Bool)
      → List Namespace
      → List String
      → Assoc Bool
      → Outcome (List String × Assoc Bool)
  match_namespaces matches [] names added = ok (names, added)
  match_namespaces matches (ns ∷ rest) names added =
      let skipped = match_namespaces matches rest names added in
      let taken =
        match_namespaces matches rest (names ++ ns.name ∷ []) (insert ns.name true added) in
      if ns.is_deleted
      then skipped
      else (add_type_information_to_object (Cluster.object_kinds c) >>= λ _.
          if matches ns.labels then taken else skipped)

-- `resourceSelector.Namespace` after the matching ones, unless it is empty or one of them. A key
-- that is missing in `addedNamespace` reads as false.
unfoldable pub with_own_namespace : String → List String × Assoc Bool → List String
with_own_namespace own (names, added) =
    if own == ""
    then names
    else elim (lookup own added) [ some true ↦ names | _ ↦ names ++ own ∷ [] ]

unfoldable pub group_version_kind : ResourceSelector → GroupVersionKind
group_version_kind sr = record { group = sr.group; version = sr.version; kind = sr.kind }

unfoldable pub resource_id : ResourceSelector → String → GroupVersionResource
resource_id sr resource = record { group = sr.group; version = sr.version; resource = resource }

-- `options.LabelSelector` stays empty when there are no label filters, as the loop leaves it.
unfoldable pub list_options : ResourceSelector → ListOptions
unfolding label_selector_from
list_options sr = record {
  label_selector = label_selector_from "" sr.label_filters;
  field_selector = "";
}

module _ {Obj : Type 0} (c : Cluster Obj) where
  open c use {get_api_group_resources, rest_mapping, list, list_namespaces, parse}

  -- `getNamespaces`
  unfoldable pub get_namespaces : ResourceSelector → Outcome (List String)
  unfolding match_namespaces with_own_namespace
  get_namespaces sr = do
    found ← if sr.namespace_selector == "" then ok ([], []) else do
      matches ← parse sr.namespace_selector
      items ← list_namespaces
      match_namespaces c matches items [] []
    ok (with_own_namespace sr.namespace found)

  -- `collectWithOptions` returns a copy of the listed items.
  unfoldable pub collect_with_options : GroupVersionResource → ListOptions → Outcome (List Obj)
  collect_with_options resource options = list resource options

  -- `collectFromNamespaces`
  unfoldable pub collect_from_namespaces :
      List String → GroupVersionResource → ListOptions → Outcome (List Obj)
  unfolding collect_with_options
  collect_from_namespaces [] resource options = ok []
  collect_from_namespaces (ns ∷ rest) resource options = do
    tmp ← collect_with_options resource (record options {
      field_selector = options.field_selector <> ("metadata.namespace=" <> ns);
    })
    others ← collect_from_namespaces rest resource options
    ok (tmp ++ others)

  -- The two ways to list.
  unfoldable pub collect : List String → GroupVersionResource → ListOptions → Outcome (List Obj)
  unfolding collect_from_namespaces collect_with_options
  collect [] resource options = collect_with_options resource options
  collect (ns ∷ rest) resource options = collect_from_namespaces (ns ∷ rest) resource options

  -- `fetchResources` behind `RESTMapping`; `none` is the nil slice of a kind that the cluster does
  -- not know.
  unfoldable pub fetch_mapped : ResourceSelector → Mapping → Outcome (Option (List Obj))
  unfolding collect list_options resource_id
  fetch_mapped sr (no_match e) = ok none
  fetch_mapped sr (failed e) = err e
  fetch_mapped sr (mapped resource) = do
    namespaces ← get_namespaces sr
    resources ← collect namespaces (resource_id sr resource) (list_options sr)
    ok (some resources)

  -- `fetchResources`
  unfoldable pub fetch_resources : ResourceSelector → Outcome (Option (List Obj))
  unfolding fetch_mapped group_version_kind
  fetch_resources sr = do
    groups ← get_api_group_resources
    fetch_mapped sr (rest_mapping groups (group_version_kind sr))
