-- ===== src/Executor/Lua/RoundTrip.antt =====
-- An object that goes to a script by `mapToTable` and comes back by `toGoValue`, as `transform` sends
-- it, field by field.
pub mod Filling
pub mod Paths
use k8s_cleaner.Common.{
  ℕ, zero, suc, ◌+◌, length, ◌<◌, ◌≤◌, String, Bool, true, false, not, Bool-cases, ◌≡◌, ◌≢◌, refl,
  sym, ◌∙◌, ap, inl, inr, List, [], ◌∷◌, Option, none, some, ◌==◌, eq_iff, subst, if◌then◌else◌,
  arith,
}
use k8s_cleaner.Executor.Lua.{
  Value, Fields, LuaValue, Tables, null, float, int, text, bool, bytes, time, object, objects,
  slice, foreign, end, field, nil, table, boolean, string, number, userdata, fill_table,
  set_element, append_items, append_objects, map_to_table, put_field, collect_fields, convert_table,
  to_go_value,
}

-- The value of a key.
unfoldable pub find_field : {Num : Type 0} → String → Fields Num → Option (Value Num)
find_field k end = none
find_field k (field key v rest) =
    let others = find_field k rest in if key == k then some v else others

-- The value that a path of keys leads to, through objects.
unfoldable pub at_path : {Num : Type 0} → List String → Value Num → Option (Value Num)
at_path [] v = some v
at_path (k ∷ path) (object fs) = elim (find_field k fs) [ none ↦ none | some v ↦ at_path path v ]
at_path (k ∷ path) v = none

-- A Go map has each key once, and so have the maps in it.
unfoldable mutual
  pub IsMap : {Num : Type 0} → Fields Num → Type 0
  IsMap end = Unit
  IsMap (field key v rest) = (find_field key rest ≡ none) × IsMapped v × IsMap rest

  pub IsMapped : {Num : Type 0} → Value Num → Type 0
  IsMapped (object fs) = IsMap fs
  IsMapped v = Unit

module _ {Num Table : Type 0} where
  -- A key of a table is a text, and this one.
  unfoldable pub key_is : String → LuaValue Num Table → Bool
  key_is k (string key) = key == k
  key_is k nil = false
  key_is k (boolean b) = false
  key_is k (number x) = false
  key_is k (table t) = false
  key_is k userdata = false

  -- The last of the entries of a key.
  unfoldable pub entry :
      String → List (LuaValue Num Table × LuaValue Num Table) → Option (LuaValue Num Table)
  entry k [] = none
  entry k ((key, v) ∷ rest) = elim (entry k rest) [
    | some u ↦ some u
    | none ↦ if key_is k key then some v else none
  ]

  unfoldable pub IsText : LuaValue Num Table → Type 0
  IsText v = (k : String) × (v ≡ string k)

  unfoldable pub TextKeys : List (LuaValue Num Table × LuaValue Num Table) → Type 0
  TextKeys [] = Unit
  TextKeys ((key, v) ∷ rest) = IsText key × TextKeys rest

  unfoldable pub is_nil : LuaValue Num Table → Bool
  is_nil nil = true
  is_nil (string key) = false
  is_nil (boolean b) = false
  is_nil (number x) = false
  is_nil (table t) = false
  is_nil userdata = false

module _ (lua : Tables) where
  open lua use {Num, of_int, Table, new_table, raw_set_string, max_n, for_each, sprint}

  -- What gopher-lua documents of a table that is filled by `RawSetString`: it has no list part, and
  -- `ForEach` visits the fields that were set, in an order of its own. A text prints as it is.
  pub record KeepsFields : Type 0 where
    pub new_fields : for_each new_table ≡ []
    pub new_max : max_n new_table ≡ 0
    pub set_max :
        (t : Table) (k : String) (v : LuaValue Num Table) → max_n (raw_set_string t k v) ≡ max_n t
    pub set_entry :
        (t : Table) (key k : String) (v : LuaValue Num Table)
        → is_nil v ≡ false
        → entry k (for_each (raw_set_string t key v))
          ≡ (if key == k then some v else entry k (for_each t))
    pub set_keys :
        (t : Table) (k : String) (v : LuaValue Num Table)
        → TextKeys (for_each t)
        → TextKeys (for_each (raw_set_string t k v))
    pub print_text : (k : String) → sprint (text k) ≡ k

  -- The form in which a value other than an object and a list comes back: bytes as a text, and a
  -- number of any type as a float64.
  unfoldable pub carried : Value Num → Option (Value Num)
  carried (float x) = some (float x)
  carried (int n) = some (float (of_int n))
  carried (text s) = some (text s)
  carried (bool b) = some (bool b)
  carried (bytes s) = some (text s)
  carried (time u) = some (float (of_int u))
  carried v = none

  -- What a script sees of a value under a key.
  pub to_lua : Value Num → Option (LuaValue Num Table)
  to_lua null = none
  to_lua (float x) = some (number x)
  to_lua (int n) = some (number (of_int n))
  to_lua (text s) = some (string s)
  to_lua (bool b) = some (boolean b)
  to_lua (bytes s) = some (string s)
  to_lua (time u) = some (number (of_int u))
  to_lua (object fs) = some (table (map_to_table lua fs))
  to_lua (objects os) = some (table (append_objects lua os new_table))
  to_lua (slice xs) = some (table (append_items lua xs new_table))
  to_lua foreign = none

  pub put : Option (LuaValue Num Table) → String → Table → Table
  put none key t = t
  put (some v) key t = raw_set_string t key v

  pub set_element-put :
      (v : Value Num) (key : String) (t : Table) → set_element lua v key t ≡ put (to_lua v) key t
  unfolding set_element map_to_table to_lua put
  set_element-put null key t = refl
  set_element-put (float x) key t = refl
  set_element-put (int n) key t = refl
  set_element-put (text s) key t = refl
  set_element-put (bool b) key t = refl
  set_element-put (bytes s) key t = refl
  set_element-put (time u) key t = refl
  set_element-put (object fs) key t = refl
  set_element-put (objects os) key t = refl
  set_element-put (slice xs) key t = refl
  set_element-put foreign key t = refl

  -- The first of two, if it is there.
  pub or_else :
      Option (LuaValue Num Table) → Option (LuaValue Num Table) → Option (LuaValue Num Table)
  or_else none old = old
  or_else (some v) old = some v

  pub seen : Option (Value Num) → Option (LuaValue Num Table)
  seen none = none
  seen (some v) = to_lua v
