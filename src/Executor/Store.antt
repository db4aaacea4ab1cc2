-- ===== src/Executor/Store.antt =====
-- internal/controller/executor/store.go: the files in which processed resources are stored.
pub mod Tries
use k8s_cleaner.Common.{
  String, ◌<>◌, true, false, Option, none, some, List, [], ◌∷◌, GoError, Outcome, ok, err, panic,
  ◌==◌, if◌then◌else◌,
}
use k8s_cleaner.Common.Effects.{Effect, continue, ◌>>=◌, pure_call, drop_error}
use k8s_cleaner.Api.{Cleaner}
use k8s_cleaner.Executor.Cluster.{Objects, GroupVersionKind}
use k8s_cleaner.Executor.Fetch.{add_type_information_to_object}
use k8s_cleaner.Executor.Scripts.{ResourceResult}
use k8s_cleaner.Executor.Services.{Files}

module _ {World : Type 0} (o : Objects) (f : Files (Objects.Obj o) World) where
  open o use {Obj, get_kind, get_namespace, get_name}
  open f use {
    not_exist, join, set_resource_version, object_kinds, set_group_version_kind, to_yaml, accessor,
    mkdir_all, open_for_writing, write_file,
  }

  -- `getFolder`
  unfoldable pub get_folder : String → String → World → Outcome String
  get_folder storage cleaner_name w = elim (not_exist storage w) [
    | some e ↦ err e
    | none ↦ ok (join (storage ∷ cleaner_name ∷ []))
  ]

  -- The file of a resource.
  unfoldable pub resource_file_path : String → Obj → String
  resource_file_path folder r =
      join (folder ∷ get_namespace r ∷ get_kind r ∷ (get_name r <> ".yaml") ∷ [])

  -- The object after `addTypeInformationToObject`.
  unfoldable pub with_kind : Obj → Option GroupVersionKind → Obj
  with_kind r none = r
  with_kind r (some gvk) = set_group_version_kind gvk r

  -- `dumpObject`
  unfoldable pub dump_object : String → Obj → Effect World (Unit {0})
  unfolding resource_file_path with_kind add_type_information_to_object
  dump_object folder resource = do
    kind ←
        pure_call (add_type_information_to_object (object_kinds (set_resource_version "" resource)))
    let r = with_kind (set_resource_version "" resource) kind
    yaml ← pure_call (to_yaml r)
    _ ← pure_call (accessor r)
    _ ← mkdir_all (resource_file_path folder r)
    _ ← open_for_writing (resource_file_path folder r)
    write_file (resource_file_path folder r) yaml

  -- The loop of `storeResources`: an error is logged only.
  unfoldable pub dump_all : String → List (ResourceResult Obj) → Effect World (Unit {0})
  unfolding dump_object
  dump_all folder [] = pure_call (ok tt)
  dump_all folder (r ∷ rs) =
      let rest = dump_all folder rs in do _ ← drop_error (dump_object folder r.resource); rest

  -- `storeResources`
  unfoldable pub store_resources : List (ResourceResult Obj) → Cleaner → Effect World (Unit {0})
  unfolding get_folder dump_all
  store_resources resources cleaner =
      if cleaner.spec.store_resource_path == "" then pure_call (ok tt) else do
        folder ← λ w. (get_folder cleaner.spec.store_resource_path cleaner.name w, w)
        dump_all folder resources
