-- ===== src/Executor/Lua.antt =====
-- internal/controller/executor/worker.go, `mapToTable` and `toGoValue`: values that go to a Lua
-- script and come back. The Lua library is a parameter.
pub mod Conversion
pub mod RoundTrip
use k8s_cleaner.Common.{
  ℕ, zero, suc, ◌+◌, ◌<◌, ◌≤◌, String, Bool, Option, none, some, List, [], ◌∷◌, ◌==◌, if◌then◌else◌,
  Outcome, ok, panic,
}
use k8s_cleaner.Common.Int.{ℤ}

-- The dynamic types of `interface{}` that the switches name; `Num` is float64. `bytes` holds the
-- text of the bytes, `time` its Unix time, and `foreign` is a value of any other type. The fields
-- of a map are in the order in which Go goes through them, which may be any.
mutual
  pub data Value (Num : Type 0) : Type 0 where
    null : Value Num
    float : Num → Value Num
    int : ℤ → Value Num
    text : String → Value Num
    bool : Bool → Value Num
    bytes : String → Value Num
    time : ℤ → Value Num
    object : Fields Num → Value Num
    objects : ObjectList Num → Value Num
    slice : Items Num → Value Num
    foreign : Value Num

  pub data Fields (Num : Type 0) : Type 0 where
    end : Fields Num
    field : String → Value Num → Fields Num → Fields Num

  pub data Items (Num : Type 0) : Type 0 where
    nil : Items Num
    cons : Value Num → Items Num → Items Num

  pub data ObjectList (Num : Type 0) : Type 0 where
    none_left : ObjectList Num
    more : Fields Num → ObjectList Num → ObjectList Num

-- `lua.LValue`; `userdata` is a value of any type that `toGoValue` does not name.
pub data LuaValue (Num Table : Type 0) : Type 0 where
  nil : LuaValue Num Table
  boolean : Bool → LuaValue Num Table
  string : String → LuaValue Num Table
  number : Num → LuaValue Num Table
  table : Table → LuaValue Num Table
  userdata : LuaValue Num Table

-- The tables of github.com/yuin/gopher-lua, and `fmt.Sprint`.
pub record Tables : Type 1 where
  pub Num : Type 0
  -- `lua.LNumber` of an int64
  pub of_int : ℤ → Num
  pub Table : Type 0
  -- `&lua.LTable{}`
  pub new_table : Table
  pub raw_set_string : Table → String → LuaValue Num Table → Table
  pub append : Table → LuaValue Num Table → Table
  pub max_n : Table → ℕ
  -- the calls that `ForEach` makes, in order
  pub for_each : Table → List (LuaValue Num Table × LuaValue Num Table)
  pub raw_get_int : Table → ℕ → LuaValue Num Table
  pub sprint : Value Num → String

module _ (lua : Tables) where
  open lua use {Num, of_int, Table, new_table, raw_set_string, append}

  unfoldable mutual
    -- `mapToTable`, with the table that the loop fills
    pub fill_table : Fields Num → Table → Table
    fill_table end t = t
    fill_table (field key element rest) t = fill_table rest (set_element element key t)

    -- one case of the loop; an element of a type that is not named is left out
    pub set_element : Value Num → String → Table → Table
    set_element null key t = t
    set_element (float x) key t = raw_set_string t key (number x)
    set_element (int n) key t = raw_set_string t key (number (of_int n))
    set_element (text s) key t = raw_set_string t key (string s)
    set_element (bool b) key t = raw_set_string t key (boolean b)
    set_element (bytes s) key t = raw_set_string t key (string s)
    set_element (time u) key t = raw_set_string t key (number (of_int u))
    set_element (object fs) key t = raw_set_string t key (table (fill_table fs new_table))
    set_element (objects os) key t = raw_set_string t key (table (append_objects os new_table))
    set_element (slice xs) key t = raw_set_string t key (table (append_items xs new_table))
    set_element foreign key t = t

    -- the loop over `[]map[string]interface{}`
    pub append_objects : ObjectList Num → Table → Table
    append_objects none_left t = t
    append_objects (more fs rest) t =
        append_objects rest (append t (table (fill_table fs new_table)))

    -- the loop over `[]interface{}`; an item of a type that is not named is left out
    pub append_items : Items Num → Table → Table
    append_items nil t = t
    append_items (cons x rest) t = append_items rest (append_item x t)

    pub append_item : Value Num → Table → Table
    append_item null t = t
    append_item (float x) t = append t (number x)
    append_item (int n) t = t
    append_item (text s) t = append t (string s)
    append_item (bool b) t = append t (boolean b)
    append_item (bytes s) t = t
    append_item (time u) t = t
    append_item (object fs) t = append t (table (fill_table fs new_table))
    append_item (objects os) t = t
    append_item (slice xs) t = t
    append_item foreign t = t

  -- `mapToTable`
  unfoldable pub map_to_table : Fields Num → Table
  map_to_table m = fill_table m new_table

-- A Go map after `ret[key] = value`: the entry of that key is replaced.
unfoldable pub put_field : {Num : Type 0} → String → Value Num → Fields Num → Fields Num
put_field key v end = field key v end
put_field key v (field k w rest) =
    let others = put_field key v rest in if k == key then field key v rest else field k w others

module _ (lua : Tables) where
  open lua use {Num, Table, max_n, for_each, raw_get_int, sprint}

  -- The loop over `ForEach`, with the conversion of a value.
  unfoldable pub collect_fields :
      (LuaValue Num Table → Value Num)
      → List (LuaValue Num Table × LuaValue Num Table)
      → Fields Num
      → Fields Num
  unfolding put_field
  collect_fields convert [] ret = ret
  collect_fields convert ((key, v) ∷ rest) ret =
      collect_fields convert rest (put_field (sprint (convert key)) (convert v) ret)

  -- `for i := 1; i <= maxn; i++`: the first number is how many rounds are left.
  unfoldable pub collect_items : (LuaValue Num Table → Value Num) → ℕ → ℕ → Table → Items Num
  collect_items convert zero i t = nil
  collect_items convert (suc left) i t =
      cons (convert (raw_get_int t i)) (collect_items convert left (suc i) t)

  unfoldable pub convert_table : (LuaValue Num Table → Value Num) → ℕ → Table → Value Num
  unfolding collect_fields collect_items
  convert_table convert zero t = object (collect_fields convert (for_each t) end)
  convert_table convert (suc n) t = slice (collect_items convert (suc n) 1 t)

  -- The recursion of `toGoValue` down to a depth; a table below it is left as a foreign value.
  unfoldable pub to_go_value : ℕ → LuaValue Num Table → Value Num
  unfolding convert_table
  to_go_value depth nil = null
  to_go_value depth (boolean b) = bool b
  to_go_value depth (string s) = text s
  to_go_value depth (number x) = float x
  to_go_value zero (table t) = foreign
  to_go_value (suc depth) (table t) = convert_table (to_go_value depth) (max_n t) t
  to_go_value depth userdata = foreign

  -- `toGoValue`, with how deep the tables in a value are nested. A table that contains itself has no
  -- such number: the recursion never ends, and the overflow of the stack ends the program.
  unfoldable pub go_value :
      (LuaValue Num Table → Option ℕ) → LuaValue Num Table → Outcome (Value Num)
  unfolding to_go_value
  go_value nesting v = elim (nesting v) [ none ↦ panic | some n ↦ ok (to_go_value (suc n) v) ]
