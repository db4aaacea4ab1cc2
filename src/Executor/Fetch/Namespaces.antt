-- ===== src/Executor/Fetch/Namespaces.antt =====
-- `getNamespaces` against its description: the matching namespaces that are not being deleted, and
-- the selector's own namespace once.
use mathlib.Core.List.{append-nil, append_assoc}
use k8s_cleaner.Common.{
  ◌≤◌, String, Bool, true, not, ◌&&◌, ◌||◌, ◌≡◌, refl, ap, inl, inr, Option, none, some, List, [],
  ◌∷◌, ◌++◌, Assoc, lookup, insert, lookup-insert, ok, ◌==◌, eq_iff, arith, count, count-snoc,
  count-not_contains, contains, Bool-cases, if◌then◌else◌, map,
}
use k8s_cleaner.Api.{ResourceSelector}
use k8s_cleaner.Executor.Cluster.{Namespace, GroupVersionKind, Cluster}
use k8s_cleaner.Executor.Fetch.{
  add_type_information_to_object, match_namespaces, with_own_namespace, get_namespaces,
}

-- The names of the namespaces that match and are not being deleted, in the order of the list.
unfoldable pub selected : (Assoc String → Bool) → List Namespace → List String
selected matches [] = []
selected matches (ns ∷ rest) =
    let others = selected matches rest in
    if not ns.is_deleted && matches ns.labels then ns.name ∷ others else others

-- What the map says of a name: it was added, or it was not.
abbrev Tracks : Assoc Bool → List String → Type 0
Tracks added names = (k : String) → lookup k added ≡ (if contains names k then some true else none)

Tracks-nil : Tracks [] []
unfolding lookup contains
Tracks-nil k = refl

contains-snoc :
    (names : List String) (n k : String)
    → contains (names ++ n ∷ []) k ≡ (if n == k then true else contains names k)
unfolding contains
contains-snoc [] n k = ground arith
contains-snoc (x ∷ names) n k = ground (arith, contains-snoc names n k)

Tracks-snoc :
    (added : Assoc Bool) (names : List String) (n : String)
    → Tracks added names
    → Tracks (insert n true added) (names ++ n ∷ [])
Tracks-snoc added names n t k =
    ground (arith, t k, lookup-insert n k true added, contains-snoc names n k)

-- The selector's own namespace after the others, unless it is empty or one of them.
pub with_own : String → List String → List String
with_own own names = if own == "" || contains names own then names else names ++ own ∷ []

pub with_own-empty : (own : String) → own ≡ "" → with_own own [] ≡ []
unfolding with_own
with_own-empty own e = rw e refl

with_own-Tracks :
    (own : String) (names : List String) (added : Assoc Bool)
    → Tracks added names
    → with_own_namespace own (names, added) ≡ with_own own names
unfolding with_own_namespace with_own
with_own-Tracks own names added t = ground (arith, t own)

module _ {Obj : Type 0} (c : Cluster Obj) (matches : Assoc String → Bool)
    (typed : (gvk : Option GroupVersionKind) × (add_type_information_to_object
          (Cluster.object_kinds c)
        ≡ ok gvk)) where
  match_namespaces-selected :
      (items : List Namespace) (names : List String) (added : Assoc Bool)
      → Tracks added names
      → (added' : Assoc Bool) × (match_namespaces c matches items names added
          ≡ ok (names ++ selected matches items, added'))
        × Tracks added' (names ++ selected matches items)
  unfolding match_namespaces selected
  match_namespaces-selected [] names added t =
      (added, rw (append-nil names) refl, rw (append-nil names) t)
  match_namespaces-selected (ns ∷ rest) names added t = elim (Bool-cases ns.is_deleted) [
    | inl gone ↦ rw gone (match_namespaces-selected rest names added t)
    | inr live ↦ elim (Bool-cases (matches ns.labels)) [
      | inl hit ↦
          rw (live, typed.1, hit, ← append_assoc names (ns.name ∷ []) (selected matches rest))
            (match_namespaces-selected rest (names ++ ns.name ∷ []) (insert ns.name true added)
              (Tracks-snoc added names ns.name t))
      | inr miss ↦ rw (live, typed.1, miss) (match_namespaces-selected rest names added t)
    ]
  ]

module _ {Obj : Type 0} (c : Cluster Obj) (sr : ResourceSelector) where
  -- When the selector parses, the namespaces can be listed and their type is known, the result is
  -- the names of the matching namespaces that are not being deleted, in the order of the list,
  -- followed by the selector's own namespace unless that is empty or one of them. Without a
  -- namespace selector it is the own namespace alone, if there is one.
  pub get_namespaces-selected :
      (matches : Assoc String → Bool) (items : List Namespace) (gvk : Option GroupVersionKind)
      → Cluster.parse c sr.namespace_selector ≡ ok matches
      → Cluster.list_namespaces c ≡ ok items
      → add_type_information_to_object (Cluster.object_kinds c) ≡ ok gvk
      → get_namespaces c sr
        ≡ ok (
            with_own sr.namespace
              (if sr.namespace_selector == "" then [] else selected matches items))
  unfolding get_namespaces
  get_namespaces-selected matches items gvk p l ty =
      elim (Bool-cases (sr.namespace_selector == "")) [
        | inl e ↦ rw e (ap ok (with_own-Tracks sr.namespace [] [] Tracks-nil))
        | inr e ↦
            let (added, eq, t) =
              match_namespaces-selected c matches (gvk, ty) items [] [] Tracks-nil in
            rw (e, p, l, eq) (ap ok (with_own-Tracks sr.namespace (selected matches items) added t))
      ]

-- The names of all listed namespaces.
abbrev pub names_of : List Namespace → List String
names_of = map (λ ns. ns.name)

count-selected-le :
    (j : String) (matches : Assoc String → Bool) (items : List Namespace)
    → count j (selected matches items) ≤ count j (names_of items)
unfolding selected count
count-selected-le j matches [] = omega arith
count-selected-le j matches (ns ∷ rest) = ground (arith, count-selected-le j matches rest)

count-with_own :
    (j own : String) (names : List String) → count j names ≤ 1 → count j (with_own own names) ≤ 1
unfolding with_own
count-with_own j own names h =
    ground (arith, count-snoc j own names, count-not_contains own names, eq_iff own j)

-- No namespace is returned twice, if the cluster's namespaces have different names: so nothing in a
-- namespace is collected twice.
get_namespaces_once :
    {Obj : Type 0} (c : Cluster Obj) (sr : ResourceSelector) (matches : Assoc String → Bool)
    (items : List Namespace) (gvk : Option GroupVersionKind)
    → Cluster.parse c sr.namespace_selector ≡ ok matches
    → Cluster.list_namespaces c ≡ ok items
    → add_type_information_to_object (Cluster.object_kinds c) ≡ ok gvk
    → ((k : String) → count k (names_of items) ≤ 1)
    → (names : List String) × (get_namespaces c sr ≡ ok names) × ((j : String) → count j names ≤ 1)
get_namespaces_once c sr matches items gvk p l ty once = (
  with_own sr.namespace chosen,
  get_namespaces-selected c sr matches items gvk p l ty,
  λ j. count-with_own j sr.namespace chosen (chosen_once j),
)
  where
    chosen : List String
    chosen = if sr.namespace_selector == "" then [] else selected matches items

    chosen_once : (j : String) → count j chosen ≤ 1
    chosen_once j = elim (Bool-cases (sr.namespace_selector == "")) [
      | inl e ↦ rw e (unfold count in omega arith)
      | inr e ↦ rw e (omega (arith, count-selected-le j matches items, once j))
    ]
