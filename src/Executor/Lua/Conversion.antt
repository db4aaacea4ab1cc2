-- ===== src/Executor/Lua/Conversion.antt =====
-- What survives the way to a script, and what `toGoValue` makes of the values of Lua.
use k8s_cleaner.Common.{
  ℕ, zero, suc, ◌+◌, ◌<◌, ◌≤◌, String, Bool, ◌≡◌, refl, ap, Option, some, List, [], ◌∷◌, arith, All,
  ok,
}
use k8s_cleaner.Common.Int.{ℤ}
use k8s_cleaner.Executor.Lua.{
  Value, Fields, Items, LuaValue, Tables, null, float, int, text, bool, foreign, slice, object, end,
  nil, cons, field, table, boolean, string, number, userdata, fill_table, set_element, append_items,
  map_to_table, collect_fields, collect_items, convert_table, to_go_value, go_value, put_field,
}

-- A list of integers, as it comes from JSON.
abbrev pub int_items : {Num : Type 0} → List ℤ → Items Num
int_items [] = nil
int_items (n ∷ ns) = cons (int n) (int_items ns)

module _ (lua : Tables) where
  open lua use {Num, Table, raw_set_string, new_table}

  append_items-ints : (ns : List ℤ) (t : Table) → append_items lua (int_items ns) t ≡ t
  unfolding append_items
  append_items-ints [] t = refl
  append_items-ints (n ∷ ns) t = append_items-ints ns t

  -- `mapToTable` loses the integers of a list: whatever they are, a script sees an empty table in
  -- their place, as it does for the empty list.
  ints_are_lost :
      (key : String) (ns : List ℤ) (rest : Fields Num)
      → map_to_table lua (field key (slice (int_items ns)) rest)
        ≡ map_to_table lua (field key (slice nil) rest)
  unfolding map_to_table fill_table set_element append_items
  ints_are_lost key ns rest =
      ap (λ (t : Table). fill_table lua rest (raw_set_string new_table key (table t)))
        (append_items-ints ns new_table)

-- What `toGoValue` makes of a value, with no bound on the depth.
module _ (lua : Tables) where
  open lua use {Num, Table, max_n, for_each, raw_get_int, sprint}

  mutual
    pub data Converts : LuaValue Num Table → Value Num → Type 0 where
      from_nil : Converts nil null
      from_boolean : {b : Bool} → Converts (boolean b) (bool b)
      from_string : {s : String} → Converts (string s) (text s)
      from_number : {x : Num} → Converts (number x) (float x)
      from_userdata : Converts userdata foreign
      -- a table without items is a map of its entries
      from_map :
          {t : Table} {fs : Fields Num}
          → max_n t ≡ 0
          → Entries (for_each t) end fs
          → Converts (table t) (object fs)
      -- any other one is the list of its items, from the first to the last
      from_list :
          {t : Table} {xs : Items Num}
          → 0 < max_n t
          → ItemsFrom t 1 xs
          → Converts (table t) (slice xs)

    -- `ForEach`: a key is stored as the text of its conversion.
    pub data Entries
        : List (LuaValue Num Table × LuaValue Num Table) → Fields Num → Fields Num → Type 0 where
      no_entry : {ret : Fields Num} → Entries [] ret ret
      entry :
          {k v : LuaValue Num Table} {es : List (LuaValue Num Table × LuaValue Num Table)}
          {k' v' : Value Num} {ret ret' : Fields Num}
          → Converts k k'
          → Converts v v'
          → Entries es (put_field (sprint k') v' ret) ret'
          → Entries ((k, v) ∷ es) ret ret'

    -- `for i := 1; i <= maxn; i++`, from a given `i`
    pub data ItemsFrom : Table → ℕ → Items Num → Type 0 where
      past_end : {t : Table} {i : ℕ} → max_n t < i → ItemsFrom t i nil
      item :
          {t : Table} {i : ℕ} {x : Value Num} {xs : Items Num}
          → i ≤ max_n t
          → Converts (raw_get_int t i) x
          → ItemsFrom t (suc i) xs
          → ItemsFrom t i (cons x xs)

  collect_fields-Entries :
      (convert : LuaValue Num Table → Value Num)
      (es : List (LuaValue Num Table × LuaValue Num Table)) (ret : Fields Num)
      → All
          (λ (e : LuaValue Num Table × LuaValue Num Table).
            Converts e.0 (convert e.0) × Converts e.1 (convert e.1))
          es
      → Entries es ret (collect_fields lua convert es ret)
  unfolding collect_fields
  collect_fields-Entries convert [] ret h = no_entry
  collect_fields-Entries convert ((k, v) ∷ es) ret h =
      entry h.0.0 h.0.1 (collect_fields-Entries convert es _ h.1)

  collect_items-ItemsFrom :
      (convert : LuaValue Num Table → Value Num) (t : Table) (left i : ℕ)
      → i + left ≡ suc (max_n t)
      → ((j : ℕ) → Converts (raw_get_int t j) (convert (raw_get_int t j)))
      → ItemsFrom t i (collect_items lua convert left i t)
  unfolding collect_items
  collect_items-ItemsFrom convert t zero i e h = past_end (omega (arith, e))
  collect_items-ItemsFrom convert t (suc left) i e h =
      item (omega (arith, e)) (h i)
        (collect_items-ItemsFrom convert t left (suc i) (omega (arith, e)) h)

  convert_table-Converts :
      (convert : LuaValue Num Table → Value Num) (t : Table) (n : ℕ)
      → max_n t ≡ n
      → All
          (λ (e : LuaValue Num Table × LuaValue Num Table).
            Converts e.0 (convert e.0) × Converts e.1 (convert e.1))
          (for_each t)
      → ((j : ℕ) → Converts (raw_get_int t j) (convert (raw_get_int t j)))
      → Converts (table t) (convert_table lua convert n t)
  unfolding convert_table
  convert_table-Converts convert t zero e h k =
      from_map e (collect_fields-Entries convert (for_each t) end h)
  convert_table-Converts convert t (suc n) e h k =
      from_list (omega (arith, e))
        (collect_items-ItemsFrom convert t (suc n) 1 (omega (arith, e)) k)

module _ (lua : Tables) (nesting : LuaValue (Tables.Num lua) (Tables.Table lua) → Option ℕ) where
  open lua use {Num, Table, for_each, raw_get_int}

  -- A value that is nested less deep than the number.
  pub record Below (n : ℕ) (v : LuaValue Num Table) : Type 0 where
    pub depth : ℕ
    pub measured : nesting v ≡ some depth
    pub below : depth < n

  -- What is in a table that has a depth is nested less deep.
  pub record Nested : Type 0 where
    pub entries :
        (t : Table) (n : ℕ)
        → nesting (table t) ≡ some n
        → All
            (λ (e : LuaValue Num Table × LuaValue Num Table). Below n e.0 × Below n e.1)
            (for_each t)
    pub items : (t : Table) (n i : ℕ) → nesting (table t) ≡ some n → Below n (raw_get_int t i)

  All-map :
      {P Q : LuaValue Num Table × LuaValue Num Table → Type 0}
      (es : List (LuaValue Num Table × LuaValue Num Table))
      → ((e : LuaValue Num Table × LuaValue Num Table) → P e → Q e)
      → All P es
      → All Q es
  All-map [] k h = tt
  All-map (e ∷ es) k h = (k e h.0, All-map es k h.1)

  to_go_value-Converts :
      Nested
      → (f n : ℕ) (v : LuaValue Num Table) → nesting v ≡ some n
      → n < f
      → Converts lua v (to_go_value lua f v)
  unfolding to_go_value
  to_go_value-Converts nested zero n v e a = elim a [ ]
  to_go_value-Converts nested (suc f) n nil e a = from_nil
  to_go_value-Converts nested (suc f) n (boolean b) e a = from_boolean
  to_go_value-Converts nested (suc f) n (string s) e a = from_string
  to_go_value-Converts nested (suc f) n (number x) e a = from_number
  to_go_value-Converts nested (suc f) n userdata e a = from_userdata
  to_go_value-Converts nested (suc f) n (table t) e a =
      let inside = λ (w : LuaValue Num Table) (b : Below n w).
        to_go_value-Converts nested f b.depth w b.measured (omega (arith, b.below, a)) in
      convert_table-Converts lua (to_go_value lua f) t _ refl
        (All-map (for_each t) (λ x h. (inside x.0 h.0, inside x.1 h.1)) (nested.entries t n e))
        (λ j. inside (raw_get_int t j) (nested.items t n j e))

  -- `toGoValue` returns for every value whose tables are nested finitely deep, when the depth falls
  -- from a table to what is in it: nil, truth values, texts and numbers as such, a table without a
  -- list part as the map of its entries, converted, under the texts of their converted keys, any
  -- other table as the list of its items, converted, from the first to the last, and anything else
  -- as a foreign value.
  pub go_value-Converts :
      Nested
      → (v : LuaValue Num Table) (n : ℕ) → nesting v ≡ some n
      → (x : Value Num) × (go_value lua nesting v ≡ ok x) × Converts lua v x
  unfolding go_value
  go_value-Converts nested v n e = (
    to_go_value lua (suc n) v,
    rw (e, go_value) refl,
    to_go_value-Converts nested (suc n) n v e (omega arith),
  )
