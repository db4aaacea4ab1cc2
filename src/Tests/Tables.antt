-- ===== src/Tests/Tables.antt =====
-- A Lua library whose tables hold fields of every kind, and an object that goes to it and back.
use k8s_cleaner.Common.{
  suc, length, ◌+◌, String, Bool, Bool-cases, inl, inr, ◌≡◌, refl, some, none, Option, List, [],
  ◌∷◌, ◌==◌, eq_iff, sym, ◌∙◌, subst, false, if◌then◌else◌,
}
use k8s_cleaner.Common.Int.{ℤ, pos}
use k8s_cleaner.Executor.Lua.{
  Fields, LuaValue, Tables, text, int, object, slice, float, nil, end, field, table, boolean,
  string, number, userdata, map_to_table, to_go_value,
}
use k8s_cleaner.Executor.Lua.RoundTrip.{
  find_field, at_path, IsMap, key_is, entry, IsText, TextKeys, is_nil, KeepsFields, carried,
}
use k8s_cleaner.Executor.Lua.RoundTrip.Paths.{scalar_returns, empty_list_returns_map}

mutual
  data Stored : Type 0 where
    num : ℤ → Stored
    chars : String → Stored
    flag : Bool → Stored
    inner : FieldTable → Stored
    other : Stored

  data FieldTable : Type 0 where
    empty : FieldTable
    with_field : String → Stored → FieldTable → FieldTable

abbrev Lua : Type 0
Lua = LuaValue ℤ FieldTable

restore : Stored → Lua
restore (num n) = number n
restore (chars s) = string s
restore (flag b) = boolean b
restore (inner t) = table t
restore other = userdata

store : Lua → Option Stored
store nil = none
store (boolean b) = some (flag b)
store (string s) = some (chars s)
store (number n) = some (num n)
store (table t) = some (inner t)
store userdata = some other

remove : String → FieldTable → FieldTable
remove k empty = empty
remove k (with_field key v t) =
    let rest = remove k t in if key == k then rest else with_field key v rest

abbrev put_stored : String → Option Stored → FieldTable → FieldTable
put_stored k none t = t
put_stored k (some v) t = with_field k v t

set_field : FieldTable → String → Lua → FieldTable
set_field t k v = put_stored k (store v) (remove k t)

fields_of : FieldTable → List (Lua × Lua)
fields_of empty = []
fields_of (with_field k v t) = (string k, restore v) ∷ fields_of t

abbrev tables : Tables
tables = record {
  Num = ℤ;
  of_int = λ n. n;
  Table = FieldTable;
  new_table = empty;
  raw_set_string = set_field;
  append = λ t v. t;
  max_n = λ t. 0;
  for_each = fields_of;
  raw_get_int = λ t i. nil;
  sprint = λ v. elim v [ text s ↦ s | _ ↦ "" ];
}

text_keys : (t : FieldTable) → TextKeys (fields_of t)
unfolding TextKeys IsText fields_of
text_keys empty = tt
text_keys (with_field k v t) = ((k, refl), text_keys t)

-- The last of two entries.
later : Option Lua → Bool → Lua → Option Lua
later (some u) b v = some u
later none b v = if b then some v else none

later-false : (o : Option Lua) (v : Lua) → later o false v ≡ o
unfolding later
later-false none v = refl
later-false (some u) v = refl

entry-with_field :
    (j k : String) (v : Stored) (t : FieldTable)
    → entry k (fields_of (with_field j v t)) ≡ later (entry k (fields_of t)) (j == k) (restore v)
unfolding entry fields_of key_is later
entry-with_field j k v t = go (entry k (fields_of t))
  where
    go :
        (o : Option Lua)
        → (elim o [ some u ↦ some u | none ↦ if j == k then some (restore v) else none ])
          ≡ later o (j == k) (restore v)
    go none = refl
    go (some u) = refl

entry-remove :
    (key k : String) (t : FieldTable)
    → entry k (fields_of (remove key t)) ≡ (if key == k then none else entry k (fields_of t))
unfolding remove
entry-remove key k empty = elim (Bool-cases (key == k)) [
  | inl e ↦ unfold entry fields_of in rw e refl
  | inr e ↦ rw e refl
]
entry-remove key k (with_field j v t) = elim (Bool-cases (j == key)) [
  | inl e ↦
      let same : key ≡ j = sym ((eq_iff j key).0 e) in
      rw (e, entry-remove key k t, entry-with_field j k v t)
        (elim (Bool-cases (key == k)) [
          | inl f ↦ rw f refl
          | inr f ↦
              let g : (j == k) ≡ false = subst (λ (x : String). (x == k) ≡ false) same f in
              rw (f, g) (sym (later-false (entry k (fields_of t)) (restore v)))
        ])
  | inr e ↦
      rw (e, entry-with_field j k v (remove key t), entry-remove key k t, entry-with_field j k v t)
        (elim (Bool-cases (key == k)) [
          | inl f ↦
              let g : (j == k) ≡ false =
                subst (λ (x : String). (j == x) ≡ false) ((eq_iff key k).0 f) e in
              rw (f, g) (unfold later in refl)
          | inr f ↦ rw f refl
        ])
]

restore-store : (v : Lua) → is_nil v ≡ false → (x : Stored) × (store v ≡ some x) × (restore x ≡ v)
unfolding store restore is_nil
restore-store nil h = absurd (cc h)
restore-store (boolean b) h = (flag b, refl, refl)
restore-store (string k) h = (chars k, refl, refl)
restore-store (number n) h = (num n, refl, refl)
restore-store (table t) h = (inner t, refl, refl)
restore-store userdata h = (other, refl, refl)

entry-set_field :
    (t : FieldTable) (key k : String) (v : Lua)
    → is_nil v ≡ false
    → entry k (fields_of (set_field t key v)) ≡ (if key == k then some v else entry k (fields_of t))
unfolding entry fields_of set_field key_is
entry-set_field t key k v h =
    let (x, stored, restored) = restore-store v h in
    rw stored (
      entry-with_field key k x (remove key t)
      ∙ rw (restored, entry-remove key k t)
          (elim (Bool-cases (key == k)) [
            | inl e ↦ rw e (unfold later in refl)
            | inr e ↦ rw e (later-false (entry k (fields_of t)) v)
          ]))

keeps_fields : KeepsFields tables
unfolding fields_of
keeps_fields = record {
  new_fields = refl;
  new_max = refl;
  set_max = λ t k v. refl;
  set_entry = entry-set_field;
  set_keys = λ t k v h. text_keys (set_field t k v);
  print_text = λ k. refl;
}

abbrev deployment : Fields ℤ
deployment =
    field "kind" (text "Deployment")
      (field "spec" (object (field "replicas" (int (pos 3)) (field "volumes" (slice nil) end))) end)

deployment-IsMap : IsMap deployment
unfolding IsMap find_field
deployment-IsMap = (refl, tt, (refl, (refl, tt, (refl, tt, tt)), tt))

abbrev replicas : List String
replicas = "spec" ∷ "replicas" ∷ []

abbrev volumes : List String
volumes = "spec" ∷ "volumes" ∷ []

scalar_returns_example :
    at_path replicas
      (to_go_value tables (length replicas + 0) (table (map_to_table tables deployment)))
    ≡ some (float (pos 3))
unfolding at_path find_field carried
scalar_returns_example =
    scalar_returns tables keeps_fields replicas 0 deployment (int (pos 3)) (float (pos 3))
      deployment-IsMap refl refl

empty_list_returns_map_example :
    at_path volumes
      (to_go_value tables (length volumes + suc 0) (table (map_to_table tables deployment)))
    ≡ some (object end)
unfolding at_path find_field
empty_list_returns_map_example =
    empty_list_returns_map tables keeps_fields volumes 0 deployment deployment-IsMap refl
