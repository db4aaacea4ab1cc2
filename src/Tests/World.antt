-- ===== src/Tests/World.antt =====
-- A small cluster, a world to write to, and a script language with one script, which the runs of
-- the executor use.
use package.text.Mathlib.TextLemmas.{append_cancel_left, append-eq-nil_iff}
use k8s_cleaner.Common.{
  ℕ, String, ◌<>◌, Bool, true, false, ◌≡◌, sym, none, some, List, [], ◌∷◌, map, Assoc, lookup,
  contains, ok, err, panic, ok-injective, subst, errorf, ◌==◌, eq_iff, All, if◌then◌else◌,
  Bool-cases, inl, inr,
}
use k8s_cleaner.Common.Int.{ℤ}
use k8s_cleaner.Api.{ResourceSelector}
use k8s_cleaner.Executor.Cluster.{Objects, Namespace, mapped, Cluster}
use k8s_cleaner.Executor.Fetch.Breadth.{Restricts}
use k8s_cleaner.Executor.Lua.{
  Fields, LuaValue, Tables, text, object, end, field, nil, boolean, string, number, table, userdata,
}
use k8s_cleaner.Executor.Scripts.{Interpreter}
use k8s_cleaner.Executor.Actions.{Writes}

pub record Item : Type 0 where
  pub namespace : String
  pub name : String
  pub used : String
  pub is_deleted : Bool

abbrev pub items : Objects
items = record {
  Obj = Item;
  get_kind = λ x. "ConfigMap";
  get_namespace = λ x. x.namespace;
  get_name = λ x. x.name;
  get_api_version = λ x. "v1";
  is_deleted = λ x. x.is_deleted;
}

abbrev pub stale : Item
stale = record { namespace = "dev"; name = "stale"; used = "false"; is_deleted = false }

abbrev pub fresh : Item
fresh = record { namespace = "dev"; name = "fresh"; used = "true"; is_deleted = false }

abbrev pub leaving : Item
leaving = record { namespace = "dev"; name = "leaving"; used = "false"; is_deleted = true }

abbrev pub other : Item
other = record { namespace = "prod"; name = "other"; used = "false"; is_deleted = false }

abbrev pub all_items : List Item
all_items = stale ∷ fresh ∷ leaving ∷ other ∷ []

abbrev pub dev : Namespace
dev = record { name = "dev"; labels = ("env", "test") ∷ []; is_deleted = false }

abbrev pub prod : Namespace
prod = record { name = "prod"; labels = ("env", "live") ∷ []; is_deleted = false }

-- A selector text here is the value of the label `env`.
abbrev pub has_env : String → Assoc String → Bool
has_env v labels = elim (lookup "env" labels) [ none ↦ false | some w ↦ w == v ]

-- The items that a field selector leaves.
unfoldable pub listed : String → List Item → List Item
listed s [] = []
listed s (x ∷ xs) =
    let rest = listed s xs in
    if s == "metadata.namespace=" <> x.namespace
    then x ∷ rest
    else if s == ""
    then x ∷ rest
    else rest

abbrev pub cluster : Cluster Item
cluster = record {
  GroupResources = Unit;
  get_api_group_resources = ok tt;
  rest_mapping = λ groups gvk. mapped "configmaps";
  list = λ r options. ok (listed options.field_selector all_items);
  list_namespaces = ok (dev ∷ prod ∷ []);
  parse = λ s. ok (has_env s);
  object_kinds = ok (record { group = ""; version = "v1"; kind = "Namespace" } ∷ []);
}

within_ne_nil : (ns : String) → (("metadata.namespace=" <> ns) == "") ≡ false
within_ne_nil ns = elim (Bool-cases (("metadata.namespace=" <> ns) == "")) [
  | inr e ↦ e
  | inl e ↦ cc (
      (eq_iff "metadata.namespace=" "").1
        (append-eq-nil_iff.0 ((eq_iff ("metadata.namespace=" <> ns) "").0 e)).0)
]

listed-namespace :
    (ns : String) (xs : List Item)
    → All (λ x. x.namespace ≡ ns) (listed ("metadata.namespace=" <> ns) xs)
unfolding listed
listed-namespace ns [] = tt
listed-namespace ns (x ∷ xs) =
    elim (Bool-cases (("metadata.namespace=" <> ns) == ("metadata.namespace=" <> x.namespace))) [
      | inl e ↦ rw e (
        sym (
            append_cancel_left "metadata.namespace=" ns x.namespace
              ((eq_iff ("metadata.namespace=" <> ns) ("metadata.namespace=" <> x.namespace)).0 e)),
        listed-namespace ns xs,
      )
      | inr e ↦ rw (e, within_ne_nil ns) (listed-namespace ns xs)
    ]

pub cluster-Restricts : Restricts items cluster
cluster-Restricts r options ns found e h =
    subst (All (λ x. x.namespace ≡ ns)) (ok-injective h) (rw e (listed-namespace ns all_items))

-- Tables with texts only, whose fields a script reads.
abbrev put_text : Assoc String → String → LuaValue ℤ (Assoc String) → Assoc String
put_text t key (string s) = (key, s) ∷ t
put_text t key nil = t
put_text t key (boolean b) = t
put_text t key (number n) = t
put_text t key (table u) = t
put_text t key userdata = t

abbrev pub flat_tables : Tables
flat_tables = record {
  Num = ℤ;
  of_int = λ n. n;
  Table = Assoc String;
  new_table = [];
  raw_set_string = put_text;
  append = λ t v. t;
  max_n = λ t. 0;
  for_each = λ t. map (λ e. (string (e.0), string (e.1))) t;
  raw_get_int = λ t i. nil;
  sprint = λ v. elim v [ text s ↦ s | _ ↦ "" ];
}

-- A table stands above its texts.
abbrev height : LuaValue ℤ (Assoc String) → ℕ
height (table t) = 1
height (string s) = 0
height nil = 0
height (boolean b) = 0
height (number n) = 0
height userdata = 0

-- The text of a field.
unfoldable pub text_at : String → Fields ℤ → String
text_at key end = ""
text_at key (field k v rest) = if k == key then elim v [ text s ↦ s | _ ↦ "" ] else text_at key rest

-- The one script that loads accepts the objects that are not used; the JSON of its table is here the
-- text under `matching`.
abbrev pub interpreter : Interpreter items flat_tables
interpreter = record {
  content = λ x. field "name" (text x.name) (field "used" (text x.used) end);
  State = Unit;
  do_string = λ s. if s == "unused" then ok tt else err (errorf "syntax error");
  call = λ state global function arg. ok (
      table (
        (
          "matching",
          elim (lookup "used" arg) [ some u ↦ if u == "false" then "yes" else "no" | none ↦ "no" ],
        )
        ∷ []));
  nesting = λ v. some (height v);
  marshal = λ v. elim v [ object fs ↦ ok (text_at "matching" fs) | _ ↦ ok "" ];
  unmarshal_evaluate = λ s. ok (s == "yes", "unused");
  unmarshal_transform = λ s. if s == "yes" then ok (some fresh, "") else ok (none, "");
  unmarshal_aggregated = λ s. ok ((some stale, "kept") ∷ []);
}

unfoldable pub without : String → List String → List String
without n [] = []
without n (m ∷ ms) = let rest = without n ms in if m == n then rest else m ∷ rest

-- The names of the objects that exist; the server answers an update with a mark,
-- and an update of a nil pointer panics.
abbrev pub writes : Writes Item
writes = record {
  World = List String;
  delete = λ x options w.
      if contains w x.name then (ok tt, without x.name w) else (err (errorf "not found"), w);
  update = λ x w. (ok (record x { used = "updated" }), x.name ∷ w);
  update_nil = λ w. (panic, w);
}

-- All config maps, by script, in the namespaces with the given label.
abbrev pub selector : String → String → ResourceSelector
selector env script = record {
  namespace = "";
  namespace_selector = env;
  group = "";
  version = "v1";
  kind = "ConfigMap";
  label_filters = [];
  evaluate = script;
  exclude_deleted = true;
}
