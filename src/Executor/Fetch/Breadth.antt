-- ===== src/Executor/Fetch/Breadth.antt =====
-- From which namespaces `fetchResources` takes resources.
use mathlib.Core.Path.{subst}
use text.Mathlib.TextLemmas.{nil-append}
use k8s_cleaner.Common.{
  String, ◌<>◌, Bool, true, ◌≡◌, refl, sym, ◌∙◌, ap, inl, inr, Option, some, List, [], ◌∷◌, ◌++◌,
  Assoc, ok, ◌>>=◌, ok-injective, >>=-congr, >>=-eq-ok, All, contains, ◌==◌, eq_iff, arith,
  Bool-cases, Outcome,
}
use k8s_cleaner.Api.{ResourceSelector}
use k8s_cleaner.Executor.Cluster.{
  Objects, Cluster, Namespace, GroupVersionKind, GroupVersionResource, ListOptions, Mapping, mapped,
  no_match, failed,
}
use k8s_cleaner.Executor.Fetch.{
  add_type_information_to_object, get_namespaces, collect, collect_from_namespaces,
  collect_with_options, fetch_mapped, fetch_resources, list_options, resource_id,
  group_version_kind,
}
use k8s_cleaner.Executor.Fetch.Filters.{join_terms, label_selector-join}
use k8s_cleaner.Executor.Fetch.Namespaces.{
  selected, get_namespaces-selected, with_own, with_own-empty,
}

-- What the API documents of a field selector: a list restricted to a namespace holds resources of
-- that namespace only.
abbrev pub Restricts : (o : Objects) → Cluster (Objects.Obj o) → Type 0
Restricts o c =
    (r : GroupVersionResource) (options : ListOptions) (ns : String) (found : List (Objects.Obj o))
    → options.field_selector ≡ "metadata.namespace=" <> ns
    → Cluster.list c r options ≡ ok found
    → All (λ x. Objects.get_namespace o x ≡ ns) found

module _ (o : Objects) (c : Cluster (Objects.Obj o)) (restricts : Restricts o c) where
  open o use {Obj, get_namespace}

  abbrev Inside : List String → Obj → Type 0
  Inside names x = contains names (get_namespace x) ≡ true

  All-append :
      (names : List String) (xs ys : List Obj)
      → All (Inside names) xs
      → All (Inside names) ys
      → All (Inside names) (xs ++ ys)
  All-append names [] ys p q = q
  All-append names (x ∷ xs) ys p q = (p.0, All-append names xs ys p.1 q)

  Inside-head :
      (ns : String) (rest : List String) (xs : List Obj)
      → All (λ x. get_namespace x ≡ ns) xs
      → All (Inside (ns ∷ rest)) xs
  unfolding contains
  Inside-head ns rest [] p = tt
  Inside-head ns rest (x ∷ xs) p =
      (ground (arith, eq_iff ns (get_namespace x)), Inside-head ns rest xs p.1)

  Inside-tail :
      (ns : String) (rest : List String) (xs : List Obj)
      → All (Inside rest) xs
      → All (Inside (ns ∷ rest)) xs
  unfolding contains
  Inside-tail ns rest [] p = tt
  Inside-tail ns rest (x ∷ xs) p = (ground (arith, p.0), Inside-tail ns rest xs p.1)

  collect_from_namespaces-Inside :
      (names : List String) (r : GroupVersionResource) (options : ListOptions) (found : List Obj)
      → options.field_selector ≡ ""
      → collect_from_namespaces c names r options ≡ ok found
      → All (Inside names) found
  unfolding collect_from_namespaces
  collect_from_namespaces-Inside [] r options found e h =
      subst (All (Inside [])) (ok-injective h) tt
  collect_from_namespaces-Inside (ns ∷ rest) r options found e h =
      let (tmp, p, h') = >>=-eq-ok (collect_with_options c r (within ns)) _ h in
      let (others, q, h'') = >>=-eq-ok (collect_from_namespaces c rest r options) _ h' in
      subst (All (Inside (ns ∷ rest))) (ok-injective h'') (
        All-append (ns ∷ rest) tmp others
          (Inside-head ns rest tmp
            (restricts r (within ns) ns tmp (rw e (nil-append ("metadata.namespace=" <> ns))) p))
          (Inside-tail ns rest others (collect_from_namespaces-Inside rest r options others e q)))
    where
      within : String → ListOptions
      within n = record options {
        field_selector = options.field_selector <> ("metadata.namespace=" <> n);
      }

  fetch_mapped-Inside :
      (sr : ResourceSelector) (ns : String) (rest : List String) (found : List Obj)
      → get_namespaces c sr ≡ ok (ns ∷ rest)
      → (m : Mapping) → fetch_mapped c sr m ≡ ok (some found)
      → All (Inside (ns ∷ rest)) found
  unfolding fetch_mapped
  fetch_mapped-Inside sr ns rest found g (no_match e) h = cc
  fetch_mapped-Inside sr ns rest found g (failed e) h = cc
  fetch_mapped-Inside sr ns rest found g (mapped resource) h =
      let (names, p, h') = >>=-eq-ok (get_namespaces c sr) _ h in
      let (resources, q, h'') = >>=-eq-ok (collect c names _ _) _ h' in
      subst (All (Inside (ns ∷ rest))) (cc h'') (
        collect_from_namespaces-Inside (ns ∷ rest) (resource_id sr resource) (list_options sr)
          resources refl
          (subst
            (λ (n : List String).
              collect c n (resource_id sr resource) (list_options sr) ≡ ok resources)
            (ok-injective (sym p ∙ g)) q))

  -- Whenever `getNamespaces` returns at least one namespace, all that is fetched lies in one of the
  -- namespaces that it returned.
  pub fetched_inside :
      (sr : ResourceSelector) (ns : String) (rest : List String) (found : List Obj)
      → get_namespaces c sr ≡ ok (ns ∷ rest)
      → fetch_resources c sr ≡ ok (some found)
      → All (λ x. contains (ns ∷ rest) (get_namespace x) ≡ true) found
  unfolding fetch_resources
  fetched_inside sr ns rest found g h =
      let (groups, p, h') = >>=-eq-ok (Cluster.get_api_group_resources c) _ h in
      fetch_mapped-Inside sr ns rest found g _ h'

module _ {Obj : Type 0} (c : Cluster Obj) where
  -- The resources of the whole cluster.
  abbrev everything : ResourceSelector → String → Outcome (List Obj)
  everything sr resource =
      Cluster.list c (record { group = sr.group; version = sr.version; resource = resource })
        (record { label_selector = join_terms sr.label_filters; field_selector = "" })

  own_none :
      (sr : ResourceSelector)
      → sr.namespace ≡ ""
      → get_namespaces c (record sr { namespace_selector = "" }) ≡ ok []
  unfolding get_namespaces
  own_none sr own = rw own refl

  fetch_mapped-none :
      (sr : ResourceSelector) (r : String)
      → get_namespaces c sr ≡ ok []
      → fetch_mapped c sr (mapped r)
        ≡ (collect_with_options c (resource_id sr r) (list_options sr) >>= λ found. ok (some found))
  unfolding fetch_mapped
  fetch_mapped-none sr r e = rw e refl

  fetch_mapped-same :
      (sr : ResourceSelector) (m : Mapping)
      → get_namespaces c sr ≡ ok []
      → get_namespaces c (record sr { namespace_selector = "" }) ≡ ok []
      → fetch_mapped c sr m ≡ fetch_mapped c (record sr { namespace_selector = "" }) m
  unfolding fetch_mapped
  fetch_mapped-same sr (no_match e) p q = refl
  fetch_mapped-same sr (failed e) p q = refl
  fetch_mapped-same sr (mapped r) p q =
      fetch_mapped-none sr r p ∙ sym (fetch_mapped-none (record sr { namespace_selector = "" }) r q)

  nothing_matches :
      (sr : ResourceSelector) (matches : Assoc String → Bool) (items : List Namespace)
      (gvk : Option GroupVersionKind)
      → Cluster.parse c sr.namespace_selector ≡ ok matches
      → Cluster.list_namespaces c ≡ ok items
      → add_type_information_to_object (Cluster.object_kinds c) ≡ ok gvk
      → selected matches items ≡ []
      → sr.namespace ≡ ""
      → get_namespaces c sr ≡ ok []
  nothing_matches sr matches items gvk p l ty empty own =
      get_namespaces-selected c sr matches items gvk p l ty
      ∙ ap (λ (names : List String). ok (with_own sr.namespace names))
          (elim (Bool-cases (sr.namespace_selector == "")) [
            | inl e ↦ rw e refl
            | inr e ↦ rw e empty
          ])
      ∙ ap ok (with_own-empty sr.namespace own)

  -- Without namespaces, a kind that the cluster knows is listed with the label selector alone.
  fetch_resources-all :
      (sr : ResourceSelector) (groups : Cluster.GroupResources c) (resource : String)
      → get_namespaces c sr ≡ ok []
      → Cluster.get_api_group_resources c ≡ ok groups
      → Cluster.rest_mapping c groups (group_version_kind sr) ≡ mapped resource
      → fetch_resources c sr ≡ (everything sr resource >>= λ found. ok (some found))
  unfolding fetch_resources collect_with_options resource_id list_options group_version_kind
  fetch_resources-all sr groups resource none_selected g m =
      ap
        (λ (found : Outcome (Cluster.GroupResources c)).
          found >>= λ x. fetch_mapped c sr (Cluster.rest_mapping c x (group_version_kind sr)))
        g
      ∙ ap (fetch_mapped c sr) m
      ∙ fetch_mapped-none sr resource none_selected
      ∙ ap
          (λ (terms : String).
            Cluster.list c (resource_id sr resource)
              (record { label_selector = terms; field_selector = "" })
            >>= λ found. ok (some found))
          (label_selector-join sr.label_filters)

  -- A namespace selector that matches no namespace restricts nothing: for a selector without a
  -- namespace of its own, and a kind that the cluster knows, the resources of the whole cluster are
  -- listed, with the label selector of its label filters and no field selector, as they are with no
  -- namespace selector at all.
  pub no_match_fetches_all :
      (sr : ResourceSelector) (matches : Assoc String → Bool) (items : List Namespace)
      (gvk : Option GroupVersionKind) (groups : Cluster.GroupResources c) (resource : String)
      → Cluster.parse c sr.namespace_selector ≡ ok matches
      → Cluster.list_namespaces c ≡ ok items
      → add_type_information_to_object (Cluster.object_kinds c) ≡ ok gvk
      → selected matches items ≡ []
      → sr.namespace ≡ ""
      → Cluster.get_api_group_resources c ≡ ok groups
      → Cluster.rest_mapping c groups
          (record { group = sr.group; version = sr.version; kind = sr.kind })
        ≡ mapped resource
      → (fetch_resources c sr ≡ (
          Cluster.list c
            (record { group = sr.group; version = sr.version; resource = resource })
            (record { label_selector = join_terms sr.label_filters; field_selector = "" })
          >>= λ found. ok (some found)))
        × (fetch_resources c sr ≡ fetch_resources c (record sr { namespace_selector = "" }))
  no_match_fetches_all sr matches items gvk groups resource p l ty empty own g m =
      let nothing = nothing_matches sr matches items gvk p l ty empty own in
      (
        fetch_resources-all sr groups resource nothing g (unfold group_version_kind in m),
        unfold fetch_resources in
            >>=-congr (Cluster.get_api_group_resources c) _ _
              (λ groups'. fetch_mapped-same sr _ nothing (own_none sr own)),
      )
