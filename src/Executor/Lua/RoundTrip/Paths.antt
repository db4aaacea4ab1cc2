-- ===== src/Executor/Lua/RoundTrip/Paths.antt =====
-- What stands at a path of an object when `transform` sends it to a script and reads it back.
use k8s_cleaner.Common.{
  ℕ, zero, suc, ◌+◌, length, String, Bool, Bool-cases, ◌≡◌, ◌≢◌, refl, ◌∙◌, ap, inl, inr, List, [],
  ◌∷◌, Option, none, some, ◌==◌, subst, if◌then◌else◌, arith,
}
use k8s_cleaner.Executor.Lua.{
  Value, Fields, LuaValue, Tables, null, float, int, text, bool, bytes, time, object, slice,
  foreign, end, field, nil, table, boolean, string, number, append_items, map_to_table,
  collect_fields, convert_table, to_go_value,
}
use k8s_cleaner.Executor.Lua.RoundTrip.{
  find_field, at_path, IsMap, IsMapped, KeepsFields, carried, to_lua, seen,
}
use k8s_cleaner.Executor.Lua.RoundTrip.Filling.{converted, to_go_value-find}

module _ (lua : Tables) where
  open lua use {Num, of_int, Table, new_table, raw_set_string, max_n, for_each, sprint}

  module _ (laws : KeepsFields lua) where
    find_field-IsMapped :
        (fs : Fields Num) (k : String) (v : Value Num)
        → IsMap fs
        → find_field k fs ≡ some v
        → IsMapped v
    unfolding IsMap find_field
    find_field-IsMapped end k v h e = absurd (cc e)
    find_field-IsMapped (field key x rest) k v h e = elim (Bool-cases (key == k)) [
      | inl b ↦
          let same : some x ≡ some v =
            subst (λ (c : Bool). (if c then some x else find_field k rest) ≡ some v) b e in
          subst IsMapped (cc same) h.1
      | inr b ↦
          find_field-IsMapped rest k v h.2
            (subst (λ (c : Bool). (if c then some x else find_field k rest) ≡ some v) b e)
    ]

    -- A value that a script does not see has nothing in it that a script sees.
    unseen :
        (path : List String) (v w : Value Num) (u : LuaValue Num Table)
        → to_lua lua v ≡ none
        → at_path path v ≡ some w
        → to_lua lua w ≢ some u
    unfolding at_path to_lua
    unseen [] v w u n e q = absurd (cc (n, e, q))
    unseen (k ∷ path) null w u n e q = cc e
    unseen (k ∷ path) foreign w u n e q = cc e
    unseen (k ∷ path) (object fs) w u n e q = cc n
    unseen (k ∷ path) v w u n e q = cc n

    -- What stands at a path of a map, in whatever form, comes back as the form that it has for a script.
    path_returns :
        (path : List String) (extra : ℕ) (v w : Value Num) (l u : LuaValue Num Table)
        → IsMapped v
        → to_lua lua v ≡ some l
        → at_path path v ≡ some w
        → to_lua lua w ≡ some u
        → at_path path (to_go_value lua (length path + extra) l) ≡ some (to_go_value lua extra u)
    unfolding at_path IsMapped to_lua converted seen
    path_returns [] extra v w l u h p at q =
        let same : l ≡ u = cc (p, at, q) in
        let none_left : length path_end + extra ≡ extra = omega arith in rw (same, none_left) refl
      where
        path_end : List String
        path_end = []
    path_returns (k ∷ path) extra (object fs) w l u h p at q =
        let (es, e, found) = to_go_value-find lua laws (length path + extra) k fs h in
        let same : l ≡ table (map_to_table lua fs) = cc p in
        let more : suc (length path) + extra ≡ suc (length path + extra) = omega arith in
        rw (same, more, e, at_path, found)
          (go (find_field k fs) refl at (λ x y. path_returns path extra x w y u))
      where
        Returns : Type 0
        Returns =
            (x : Value Num) (y : LuaValue Num Table)
            → IsMapped x
            → to_lua lua x ≡ some y
            → at_path path x ≡ some w
            → to_lua lua w ≡ some u
            → at_path path (to_go_value lua (length path + extra) y)
              ≡ some (to_go_value lua extra u)

        inner :
            (x : Value Num) (o : Option (LuaValue Num Table))
            → to_lua lua x ≡ o
            → IsMapped x
            → at_path path x ≡ some w
            → Returns
            → (elim (converted lua laws (to_go_value lua (length path + extra)) o none) [
              | none ↦ none
              | some y ↦ at_path path y
            ])
              ≡ some (to_go_value lua extra u)
        inner x none o m a r = absurd (unseen path x w u o a q)
        inner x (some y) o m a r = r x y m o a q

        go :
            (o : Option (Value Num))
            → find_field k fs ≡ o
            → (elim o [ none ↦ none | some x ↦ at_path path x ]) ≡ some w
            → Returns
            → (elim (converted lua laws (to_go_value lua (length path + extra)) (seen lua o) none) [
              | none ↦ none
              | some y ↦ at_path path y
            ])
              ≡ some (to_go_value lua extra u)
        go none o a r = absurd (cc a)
        go (some x) o a r = inner x (to_lua lua x) refl (find_field-IsMapped fs k x h o) a r
    path_returns (k ∷ path) extra v w l u h p at q = absurd (cc at)

    go_back :
        (d : ℕ) (w x : Value Num)
        → carried lua w ≡ some x
        → (u : LuaValue Num Table) × (to_lua lua w ≡ some u) × (to_go_value lua d u ≡ x)
    unfolding carried to_lua to_go_value
    go_back zero (float n) x e = (number n, refl, cc e)
    go_back (suc d) (float n) x e = (number n, refl, cc e)
    go_back zero (int n) x e = (number (of_int n), refl, cc e)
    go_back (suc d) (int n) x e = (number (of_int n), refl, cc e)
    go_back zero (text k) x e = (string k, refl, cc e)
    go_back (suc d) (text k) x e = (string k, refl, cc e)
    go_back zero (bool b) x e = (boolean b, refl, cc e)
    go_back (suc d) (bool b) x e = (boolean b, refl, cc e)
    go_back zero (bytes k) x e = (string k, refl, cc e)
    go_back (suc d) (bytes k) x e = (string k, refl, cc e)
    go_back zero (time n) x e = (number (of_int n), refl, cc e)
    go_back (suc d) (time n) x e = (number (of_int n), refl, cc e)
    go_back d w x e = absurd (cc e)

    -- A number, a truth value, a text, bytes or a time comes back to the place where it stood: at
    -- any path through nested maps, none of which has a key twice, `toGoValue` of the table that
    -- `mapToTable` makes has the same number, as a float64, the same truth value or the same text,
    -- and for a time its Unix time as a float64. The tables keep the fields that are set, as
    -- `KeepsFields` says.
    pub scalar_returns :
        (path : List String) (extra : ℕ) (m : Fields Num) (w x : Value Num)
        → IsMap m
        → at_path path (object m) ≡ some w
        → carried lua w ≡ some x
        → at_path path (to_go_value lua (length path + extra) (table (map_to_table lua m))) ≡ some x
    unfolding IsMapped to_lua
    scalar_returns path extra m w x h at e =
        let (u, seen_as, back) = go_back extra w x e in
        path_returns path extra (object m) w (table (map_to_table lua m)) u h refl at seen_as
        ∙ ap some back

    -- An empty list does not come back: where it stood, at any path through nested maps, none of which
    -- has a key twice, there is an empty map afterwards, if the tables keep the fields that are set, as
    -- `KeepsFields` says.
    pub empty_list_returns_map :
        (path : List String) (extra : ℕ) (m : Fields Num)
        → IsMap m
        → at_path path (object m) ≡ some (slice nil)
        → at_path path (to_go_value lua (length path + suc extra) (table (map_to_table lua m)))
          ≡ some (object end)
    unfolding IsMapped to_lua append_items to_go_value convert_table collect_fields
    empty_list_returns_map path extra m h at =
        path_returns path (suc extra) (object m) (slice nil) (table (map_to_table lua m))
          (table new_table) h refl at refl
        ∙ rw (laws.new_max, laws.new_fields) refl
