-- ===== src/Tests/Resources.antt =====
-- What the executor selects, deletes and updates in a small cluster.
use k8s_cleaner.Common.{
  String, ◌≡◌, refl, none, some, List, [], ◌∷◌, ok, true, false, lookup, contains, All, ◌≤◌, count,
  ◌==◌, eq_iff, Bool-cases, inl, inr, subst, if◌then◌else◌, arith, map, ◌>>=◌,
}
use k8s_cleaner.Api.{LabelFilter, ResourceSelector}
use k8s_cleaner.Executor.Fetch.{get_namespaces, fetch_resources, add_type_information_to_object}
use k8s_cleaner.Executor.Fetch.Namespaces.{selected, with_own, get_namespaces-selected}
use k8s_cleaner.Executor.Fetch.Filters.{join_terms}
use k8s_cleaner.Executor.Fetch.Breadth.{fetched_inside, no_match_fetches_all}
use k8s_cleaner.Executor.Lua.{fill_table}
use k8s_cleaner.Executor.Scripts.{ResourceResult, is_match, transform}
use k8s_cleaner.Executor.Actions.{
  delete_options, delete_matching_resources, update_matching_resources, get_matching_resources,
}
use k8s_cleaner.Executor.Actions.Loops.{Ran, delete_matching_resources-Ran}
use k8s_cleaner.Executor.Actions.Updates.{Updated, update_matching_resources-Updated}
use k8s_cleaner.Executor.Actions.Matching.{Selects, get_matching_resources-Selects}
use k8s_cleaner.Tests.World.{
  Item, items, stale, fresh, leaving, other, dev, prod, has_env, cluster, cluster-Restricts,
  flat_tables, interpreter, writes, selector, listed, text_at,
}

abbrev found : List (ResourceResult Item)
found =
    record { resource = stale; message = "unused" }
    ∷ record { resource = other; message = "unused" }
    ∷ []

fetched_dev :
    fetch_resources cluster (selector "test" "unused") ≡ ok (some (stale ∷ fresh ∷ leaving ∷ []))
unfolding fetch_resources get_namespaces add_type_information_to_object lookup listed
fetched_dev = refl

matching_dev :
    get_matching_resources items flat_tables interpreter cluster (selector "test" "unused")
    ≡ ok (record { resource = stale; message = "unused" } ∷ [])
unfolding get_matching_resources fetch_resources get_namespaces add_type_information_to_object
    lookup listed is_match text_at contains fill_table
matching_dev = refl

get_matching_resources-Selects_example :
    Selects items flat_tables interpreter
      (selector "test" "unused")
      (stale ∷ fresh ∷ leaving ∷ [])
      (record { resource = stale; message = "unused" } ∷ [])
get_matching_resources-Selects_example =
    get_matching_resources-Selects items flat_tables interpreter (selector "test" "unused") cluster
      (stale ∷ fresh ∷ leaving ∷ []) (record { resource = stale; message = "unused" } ∷ [])
      fetched_dev matching_dev

-- The second object is gone already.
delete_matching_resources-Ran_example :
    let a = delete_matching_resources writes found none ("stale" ∷ "fresh" ∷ []) in
    Ran
      (λ r w. writes.delete r.resource (delete_options none) w)
      found
      ("stale" ∷ "fresh" ∷ [])
      a.processed
      a.outcome
      a.world
delete_matching_resources-Ran_example =
    delete_matching_resources-Ran writes found none ("stale" ∷ "fresh" ∷ [])

-- With the empty script the reported objects are those that the server answered.
updated_in_place :
    (update_matching_resources items flat_tables interpreter writes found "" []).processed
    ≡ map
        (λ (r : ResourceResult Item). record r {
          resource = record r.resource { used = "updated" };
        })
        found
unfolding update_matching_resources transform
updated_in_place = refl

update_matching_resources-Updated_example :
    let a =
      update_matching_resources items flat_tables interpreter writes found "unused"
        ("stale" ∷ []) in
    Updated items flat_tables interpreter writes "unused" found
      ("stale" ∷ [])
      a.processed
      a.outcome
      a.world
update_matching_resources-Updated_example =
    update_matching_resources-Updated items flat_tables interpreter writes "unused" found
      ("stale" ∷ [])

typed :
    add_type_information_to_object cluster.object_kinds
    ≡ ok (some (record { group = ""; version = "v1"; kind = "Namespace" }))
unfolding add_type_information_to_object
typed = refl

no_staging : selected (has_env "staging") (dev ∷ prod ∷ []) ≡ []
unfolding selected lookup
no_staging = refl

names_once : (k : String) → count k ("dev" ∷ "prod" ∷ []) ≤ 1
unfolding count
names_once k = elim (Bool-cases ("dev" == k)) [
  | inl e ↦
      subst (λ (j : String). count j ("dev" ∷ "prod" ∷ []) ≤ 1) ((eq_iff "dev" k).0 e) (omega arith)
  | inr e ↦ elim (Bool-cases ("prod" == k)) [
    | inl f ↦ rw (e, f) (omega arith)
    | inr f ↦ rw (e, f) (omega arith)
  ]
]

get_namespaces-selected_example :
    get_namespaces cluster (selector "test" "")
    ≡ ok (with_own "" (if "test" == "" then [] else selected (has_env "test") (dev ∷ prod ∷ [])))
get_namespaces-selected_example =
    get_namespaces-selected cluster (selector "test" "") (has_env "test") (dev ∷ prod ∷ [])
      (some (record { group = ""; version = "v1"; kind = "Namespace" })) refl refl typed

namespaces_dev : get_namespaces cluster (selector "test" "unused") ≡ ok ("dev" ∷ [])
unfolding get_namespaces add_type_information_to_object lookup
namespaces_dev = refl

fetched_inside_example :
    All (λ (x : Item). contains ("dev" ∷ []) x.namespace ≡ true) (stale ∷ fresh ∷ leaving ∷ [])
fetched_inside_example =
    fetched_inside items cluster cluster-Restricts (selector "test" "unused") "dev" []
      (stale ∷ fresh ∷ leaving ∷ []) namespaces_dev fetched_dev

abbrev filters : List LabelFilter
filters =
    record { key = "app"; is_equal = true; value = "web" }
    ∷ record { key = "tier"; is_equal = false; value = "db" }
    ∷ []

-- A selector with label filters, for the namespaces of the staging environment.
abbrev staging : ResourceSelector
staging = record (selector "staging" "unused") { label_filters = filters }

no_match_fetches_all_example :
    (fetch_resources cluster staging ≡ (
      cluster.list
        (record { group = ""; version = "v1"; resource = "configmaps" })
        (record { label_selector = join_terms filters; field_selector = "" })
      >>= λ found. ok (some found)))
    × (fetch_resources cluster staging
        ≡ fetch_resources cluster (record staging { namespace_selector = "" }))
no_match_fetches_all_example =
    no_match_fetches_all cluster staging (has_env "staging") (dev ∷ prod ∷ [])
      (some (record { group = ""; version = "v1"; kind = "Namespace" })) tt "configmaps" refl refl
      typed no_staging refl refl refl
