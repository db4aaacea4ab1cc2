-- ===== src/Executor/Lua/RoundTrip/Filling.antt =====
-- The fields of a map in a table that `mapToTable` fills, and in the map that `toGoValue` reads from it.
use k8s_cleaner.Common.{
  ℕ, zero, suc, String, Bool, true, false, Bool-cases, ◌≡◌, refl, sym, ◌∙◌, inl, inr, List, [], ◌∷◌,
  Option, none, some, ◌==◌, eq_iff, subst, if◌then◌else◌,
}
use k8s_cleaner.Executor.Lua.{
  Value, Fields, LuaValue, Tables, null, float, int, text, bool, bytes, time, object, objects,
  slice, foreign, end, field, table, string, fill_table, set_element, map_to_table, put_field,
  collect_fields, convert_table, to_go_value,
}
use k8s_cleaner.Executor.Lua.RoundTrip.{
  find_field, IsMap, key_is, entry, IsText, TextKeys, is_nil, KeepsFields, to_lua, put,
  set_element-put, or_else, seen,
}

module _ (lua : Tables) where
  open lua use {Num, of_int, Table, new_table, raw_set_string, max_n, for_each, sprint}

  IsThere : Option (LuaValue Num Table) → Type 0
  IsThere none = Unit
  IsThere (some v) = is_nil v ≡ false

  to_lua-IsThere : (v : Value Num) → IsThere (to_lua lua v)
  unfolding to_lua IsThere is_nil
  to_lua-IsThere null = tt
  to_lua-IsThere (float x) = refl
  to_lua-IsThere (int n) = refl
  to_lua-IsThere (text s) = refl
  to_lua-IsThere (bool b) = refl
  to_lua-IsThere (bytes s) = refl
  to_lua-IsThere (time u) = refl
  to_lua-IsThere (object fs) = refl
  to_lua-IsThere (objects os) = refl
  to_lua-IsThere (slice xs) = refl
  to_lua-IsThere foreign = tt

  module _ (laws : KeepsFields lua) where
    put-entry :
        (v : Option (LuaValue Num Table)) (key k : String) (t : Table)
        → IsThere v
        → entry k (for_each (put lua v key t))
          ≡ (if key == k then or_else lua v (entry k (for_each t)) else entry k (for_each t))
    unfolding put or_else IsThere
    put-entry none key k t h = elim (Bool-cases (key == k)) [
      | inl e ↦ rw e refl
      | inr e ↦ rw e refl
    ]
    put-entry (some v) key k t h = laws.set_entry t key k v h

    put-max :
        (v : Option (LuaValue Num Table)) (key : String) (t : Table)
        → max_n (put lua v key t) ≡ max_n t
    unfolding put
    put-max none key t = refl
    put-max (some v) key t = laws.set_max t key v

    put-keys :
        (v : Option (LuaValue Num Table)) (key : String) (t : Table)
        → TextKeys (for_each t)
        → TextKeys (for_each (put lua v key t))
    unfolding put
    put-keys none key t h = h
    put-keys (some v) key t h = laws.set_keys t key v h

    fill_table-max : (fs : Fields Num) (t : Table) → max_n (fill_table lua fs t) ≡ max_n t
    unfolding fill_table
    fill_table-max end t = refl
    fill_table-max (field key v rest) t =
        fill_table-max rest (set_element lua v key t)
        ∙ rw (set_element-put lua v key t) (put-max (to_lua lua v) key t)

    fill_table-keys :
        (fs : Fields Num) (t : Table)
        → TextKeys (for_each t)
        → TextKeys (for_each (fill_table lua fs t))
    unfolding fill_table
    fill_table-keys end t h = h
    fill_table-keys (field key v rest) t h =
        fill_table-keys rest (set_element lua v key t)
          (rw (set_element-put lua v key t) (put-keys (to_lua lua v) key t h))

    -- Filling a table with the fields of a map sets each field, whatever the order of the map.
    fill_table-entry :
        (fs : Fields Num) (k : String) (t : Table)
        → IsMap fs
        → entry k (for_each (fill_table lua fs t))
          ≡ or_else lua (seen lua (find_field k fs)) (entry k (for_each t))
    unfolding fill_table find_field seen or_else IsMap
    fill_table-entry end k t h = refl
    fill_table-entry (field key v rest) k t h =
        fill_table-entry rest k (set_element lua v key t) h.2
        ∙ rw (set_element-put lua v key t, put-entry (to_lua lua v) key k t (to_lua-IsThere v))
            (elim (Bool-cases (key == k)) [
              | inl e ↦
                  let gone : find_field k rest ≡ none =
                    subst (λ (j : String). find_field j rest ≡ none) ((eq_iff key k).0 e) h.0 in
                  rw (e, gone) refl
              | inr e ↦ rw e refl
            ])

    swapped :
        (j key k : String) (w v : Value Num) (others : Option (Value Num))
        → (j == key) ≡ false
        → (if j == k then some w else (if key == k then some v else others))
          ≡ (if key == k then some v else (if j == k then some w else others))
    swapped j key k w v others e = elim (Bool-cases (j == k)) [
      | inr d ↦ rw d refl
      | inl d ↦ elim (Bool-cases (key == k)) [
        | inr c ↦ rw (c, d) refl
        | inl c ↦
            absurd (cc (sym ((eq_iff j key).1 ((eq_iff j k).0 d ∙ sym ((eq_iff key k).0 c))) ∙ e))
      ]
    ]

    find_field-put :
        (key k : String) (v : Value Num) (fs : Fields Num)
        → find_field k (put_field key v fs) ≡ (if key == k then some v else find_field k fs)
    unfolding find_field put_field
    find_field-put key k v end = refl
    find_field-put key k v (field j w rest) = elim (Bool-cases (j == key)) [
      | inl e ↦
          rw (e, sym ((eq_iff j key).0 e))
            (elim (Bool-cases (j == k)) [ inl d ↦ rw d refl | inr d ↦ rw d refl ])
      | inr e ↦ rw (e, find_field-put key k v rest) (swapped j key k w v (find_field k rest) e)
    ]

    unfoldable pub converted :
        (LuaValue Num Table → Value Num)
        → Option (LuaValue Num Table)
        → Option (Value Num)
        → Option (Value Num)
    converted convert none old = old
    converted convert (some v) old = some (convert v)

    -- The map that is read from a table has the last entry of each key.
    collect_fields-find :
        (convert : LuaValue Num Table → Value Num)
        → ((j : String) → convert (string j) ≡ text j)
        → (k : String) (es : List (LuaValue Num Table × LuaValue Num Table)) (ret : Fields Num)
        → TextKeys es
        → find_field k (collect_fields lua convert es ret)
          ≡ converted convert (entry k es) (find_field k ret)
    unfolding collect_fields entry TextKeys IsText key_is converted
    collect_fields-find convert texts k [] ret h = refl
    collect_fields-find convert texts k ((key, v) ∷ es) ret ((j, e), h) =
        subst
          (λ (x : LuaValue Num Table).
            find_field k (collect_fields lua convert ((x, v) ∷ es) ret)
            ≡ converted convert (entry k ((x, v) ∷ es)) (find_field k ret))
          (sym e)
          (rw (texts j, laws.print_text j)
            (collect_fields-find convert texts k es (put_field j (convert v) ret) h
              ∙ rw (find_field-put j k (convert v) ret) (settled (entry k es) (j == k))))
      where
        settled :
            (o : Option (LuaValue Num Table)) (b : Bool)
            → converted convert o (if b then some (convert v) else find_field k ret)
              ≡ converted convert
                  (elim o [ some u ↦ some u | none ↦ if b then some v else none ])
                  (find_field k ret)
        settled none true = refl
        settled none false = refl
        settled (some u) b = refl

    go_text : (d : ℕ) (j : String) → to_go_value lua d (string j) ≡ text j
    unfolding to_go_value
    go_text zero j = refl
    go_text (suc d) j = refl

    pub to_go_value-find :
        (d : ℕ) (k : String) (fs : Fields Num)
        → IsMap fs
        → (es : Fields Num) × (to_go_value lua (suc d) (table (map_to_table lua fs)) ≡ object es)
          × (find_field k es ≡ converted (to_go_value lua d) (seen lua (find_field k fs)) none)
    unfolding to_go_value convert_table map_to_table find_field entry or_else converted TextKeys
    to_go_value-find d k fs h =
        let t : Table = fill_table lua fs new_table in
        (
          collect_fields lua (to_go_value lua d) (for_each t) end,
          rw (fill_table-max fs new_table, laws.new_max) refl,
          collect_fields-find (to_go_value lua d) (λ j. go_text d j) k (for_each t) end
                (fill_table-keys fs new_table (rw laws.new_fields tt))
              ∙ rw (fill_table-entry fs k new_table h, laws.new_fields)
                  (or_else_none (seen lua (find_field k fs))),
        )
      where
        or_else_none :
            (o : Option (LuaValue Num Table))
            → converted (to_go_value lua d) (or_else lua o none) none
              ≡ converted (to_go_value lua d) o none
        or_else_none none = refl
        or_else_none (some v) = refl
