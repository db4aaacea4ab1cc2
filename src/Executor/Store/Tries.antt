-- ===== src/Executor/Store/Tries.antt =====
-- What `storeResources` does with each resource, as a relation.
use k8s_cleaner.Common.{
  String, ◌<>◌, ◌≡◌, ◌≢◌, refl, ◌==◌, eq_iff, Bool-cases, inl, inr, none, List, [], ◌∷◌, GoError,
  Outcome, ok, err, panic, Option, ap, sym, subst,
}
use k8s_cleaner.Common.Effects.{continue, no_error, continue-eq-ok}
use k8s_cleaner.Api.{Cleaner}
use k8s_cleaner.Executor.Cluster.{Objects, GroupVersionKind}
use k8s_cleaner.Executor.Fetch.{first_kind, add_type_information_to_object}
use k8s_cleaner.Executor.Scripts.{ResourceResult}
use k8s_cleaner.Executor.Services.{Files}
use k8s_cleaner.Executor.Store.{
  with_kind, resource_file_path, dump_object, dump_all, get_folder, store_resources,
}

module _ {World : Type 0} (o : Objects) (f : Files (Objects.Obj o) World) (folder : String) where
  open o use {Obj, get_kind, get_namespace, get_name}
  open f use {
    join, set_resource_version, object_kinds, to_yaml, accessor, mkdir_all, open_for_writing,
    write_file,
  }

  -- The resource without its version and with its kind was written, as YAML, to its file: every call
  -- succeeded, from the world `w` to the world `w'`.
  pub record Written (x : Obj) (w w' : World) : Type 0 where
    pub kinds : List GroupVersionKind
    pub kinds_known : object_kinds (set_resource_version "" x) ≡ ok kinds
    pub object : Obj
    pub typed : object ≡ with_kind o f (set_resource_version "" x) (first_kind kinds)
    pub yaml : String
    pub printed : to_yaml object ≡ ok yaml
    pub accessed : accessor object ≡ ok tt
    pub path : String
    pub placed :
        path
        ≡ join (folder ∷ get_namespace object ∷ get_kind object ∷ (get_name object <> ".yaml") ∷ [])
    pub made : World
    pub made_directory : mkdir_all path w ≡ (ok tt, made)
    pub opened : World
    pub opened_file : open_for_writing path made ≡ (ok tt, opened)
    pub written : write_file path yaml opened ≡ (ok tt, w')

  -- Each resource in order: a failure is passed over, and a panic ends the program.
  pub data Tried : List (ResourceResult Obj) → World → Outcome (Unit {0}) → World → Type 0 where
    all_tried : {w : World} → Tried [] w (ok tt) w
    stored :
        {r : ResourceResult Obj} {rs : List (ResourceResult Obj)} {w w' w'' : World}
        {a : Outcome (Unit {0})}
        → Written r.resource w w'
        → Tried rs w' a w''
        → Tried (r ∷ rs) w a w''
    skipped :
        {r : ResourceResult Obj} {rs : List (ResourceResult Obj)} {w w' w'' : World} {e : GoError}
        {a : Outcome (Unit {0})}
        → dump_object o f folder r.resource w ≡ (err e, w')
        → Tried rs w' a w''
        → Tried (r ∷ rs) w a w''
    crashed :
        {r : ResourceResult Obj} {rs : List (ResourceResult Obj)} {w w' : World}
        → dump_object o f folder r.resource w ≡ (panic, w')
        → Tried (r ∷ rs) w panic w'

  kinds-known :
      (kinds : Outcome (List GroupVersionKind)) (k : Option GroupVersionKind)
      → add_type_information_to_object kinds ≡ ok k
      → (gvks : List GroupVersionKind) × (kinds ≡ ok gvks) × (k ≡ first_kind gvks)
  unfolding add_type_information_to_object
  kinds-known (ok gvks) k e = (gvks, refl, cc e)
  kinds-known (err x) k e = absurd (cc e)
  kinds-known panic k e = absurd (cc e)

  dump_object-Written :
      (x : Obj) (w w' : World) → dump_object o f folder x w ≡ (ok tt, w') → Written x w w'
  unfolding dump_object resource_file_path
  dump_object-Written x w w' e =
      let bare = set_resource_version "" x in
      let (kind, w1, p1, e1) =
        continue-eq-ok (add_type_information_to_object (object_kinds bare), w) _ e in
      let (kinds, known, first) = kinds-known (object_kinds bare) kind (ap (λ p. p.0) p1) in
      let r = with_kind o f bare kind in
      let path = resource_file_path o f folder r in
      let (yaml, w2, p2, e2) = continue-eq-ok (to_yaml r, w1) _ e1 in
      let (u, w3, p3, e3) = continue-eq-ok (accessor r, w2) _ e2 in
      let (u', w4, p4, e4) = continue-eq-ok (mkdir_all path w3) _ e3 in
      let (u'', w5, p5, e5) = continue-eq-ok (open_for_writing path w4) _ e4 in
      record {
        kinds = kinds;
        kinds_known = known;
        object = r;
        typed = ap (with_kind o f bare) first;
        yaml = yaml;
        printed = ap (λ p. p.0) p2;
        accessed = ap (λ p. p.0) p3;
        path = path;
        placed = refl;
        made = w4;
        made_directory = subst (λ v. mkdir_all path v ≡ (ok tt, w4)) (sym (cc (p1, p2, p3))) p4;
        opened = w5;
        opened_file = p5;
        written = e5;
      }

  tried-next :
      (r : ResourceResult Obj) (rs : List (ResourceResult Obj)) (w : World)
      (d : Outcome (Unit {0}) × World) (rest : World → Outcome (Unit {0}) × World)
      → dump_object o f folder r.resource w ≡ d
      → ((v : World) → Tried rs v (rest v).0 (rest v).1)
      → Tried (r ∷ rs) w (continue (no_error d) (λ u. rest)).0 (continue (no_error d) (λ u. rest)).1
  tried-next r rs w (ok tt, v) rest e h = stored (dump_object-Written r.resource w v e) (h v)
  tried-next r rs w (err x, v) rest e h = skipped e (h v)
  tried-next r rs w (panic, v) rest e h = crashed e

  pub dump_all-Tried :
      (rs : List (ResourceResult Obj)) (w : World)
      → Tried rs w (dump_all o f folder rs w).0 (dump_all o f folder rs w).1
  unfolding dump_all
  dump_all-Tried [] w = all_tried
  dump_all-Tried (r ∷ rs) w =
      tried-next r rs w (dump_object o f folder r.resource w) (dump_all o f folder rs) refl
        (dump_all-Tried rs)

module _ {World : Type 0} (o : Objects) (f : Files (Objects.Obj o) World) where
  open o use {Obj}
  open f use {not_exist, join}

  -- When a storage directory is given and exists, `storeResources` tries every resource in order,
  -- in the folder of the cleaner: a resource is stored, that is, all calls for its file succeed,
  -- from the directory to the YAML that is written under its namespace, kind and name, or its
  -- failure is passed over and the next one is tried. No error is returned, and only a panic ends
  -- the loop early.
  pub store_resources-Tried :
      (resources : List (ResourceResult Obj)) (cleaner : Cleaner) (w : World)
      → cleaner.spec.store_resource_path ≢ ""
      → not_exist cleaner.spec.store_resource_path w ≡ none
      → Tried o f
          (join (cleaner.spec.store_resource_path ∷ cleaner.name ∷ []))
          resources
          w
          (store_resources o f resources cleaner w).0
          (store_resources o f resources cleaner w).1
  unfolding store_resources get_folder
  store_resources-Tried resources cleaner w given exists =
      elim (Bool-cases (cleaner.spec.store_resource_path == "")) [
        | inl p ↦ absurd (given ((eq_iff cleaner.spec.store_resource_path "").0 p))
        | inr p ↦ rw (p, get_folder, exists) (dump_all-Tried o f _ resources w)
      ]
