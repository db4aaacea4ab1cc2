-- ===== src/Executor/Scripts.antt =====
-- internal/controller/executor/worker.go: `isMatch`, `transform` and `aggregatedSelection`, which
-- run a Lua script of the user. The Lua interpreter and encoding/json are parameters.
use k8s_cleaner.Common.{
  ℕ, String, Bool, true, Option, none, some, List, [], ◌∷◌, Outcome, ok, err, panic, errorf, ◌>>=◌,
  ◌==◌, if◌then◌else◌,
}
use k8s_cleaner.Executor.Cluster.{Objects}
use k8s_cleaner.Executor.Lua.{
  Value, Fields, LuaValue, Tables, table, nil, boolean, string, number, userdata, map_to_table,
  go_value,
}

pub record Interpreter (o : Objects) (lua : Tables) : Type 1 where
  -- `resource.UnstructuredContent()`
  pub content : Objects.Obj o → Fields (Tables.Num lua)
  pub State : Type 0
  -- `lua.NewState` and `DoString`
  pub do_string : String → Outcome State
  -- `SetGlobal(name, arg)`, `CallByParam` of a global function on `arg`, and `Get(-1)`
  pub call :
      State
      → String
      → String
      → Tables.Table lua
      → Outcome (LuaValue (Tables.Num lua) (Tables.Table lua))
  -- how deep the tables in a value are nested; none for a table that contains itself
  pub nesting : LuaValue (Tables.Num lua) (Tables.Table lua) → Option ℕ
  pub marshal : Value (Tables.Num lua) → Outcome String
  -- `json.Unmarshal` into `evaluateStatus`, `transformStatus` and `aggregatedStatus`; a resource
  -- that is missing is a nil pointer
  pub unmarshal_evaluate : String → Outcome (Bool × String)
  pub unmarshal_transform : String → Outcome (Option (Objects.Obj o) × String)
  pub unmarshal_aggregated : String → Outcome (List (Option (Objects.Obj o) × String))

-- `ResourceResult`
pub record ResourceResult (Obj : Type 0) : Type 0 where
  pub resource : Obj
  pub message : String

-- `lv.(*lua.LTable)`
unfoldable pub as_table : {Num Table : Type 0} → LuaValue Num Table → Outcome Table
as_table (table t) = ok t
as_table nil = err (errorf "lua script output is not a lua table")
as_table (boolean b) = err (errorf "lua script output is not a lua table")
as_table (string s) = err (errorf "lua script output is not a lua table")
as_table (number x) = err (errorf "lua script output is not a lua table")
as_table userdata = err (errorf "lua script output is not a lua table")

-- The loop over `result.Resources` in `aggregatedSelection` reads the kind, namespace and name of
-- each resource: a nil pointer panics.
unfoldable pub check_resources :
    {Obj : Type 0} → List (Option Obj × String) → Outcome (List (ResourceResult Obj))
check_resources [] = ok []
check_resources ((none, m) ∷ rest) = panic
check_resources ((some r, m) ∷ rest) = do
  others ← check_resources rest
  ok (record { resource = r; message = m } ∷ others)

module _ (o : Objects) (lua : Tables) (i : Interpreter o lua) where
  open o use {Obj}
  open i use {
    content, State, do_string, call, nesting, marshal, unmarshal_evaluate, unmarshal_transform,
    unmarshal_aggregated,
  }

  -- What the three functions have in common: load the script, call its function, and turn the table
  -- that it returns into JSON.
  unfoldable pub run_script : String → String → String → Tables.Table lua → Outcome String
  unfolding as_table go_value
  run_script script global function arg = do
    state ← do_string script
    lv ← call state global function arg
    tbl ← as_table lv
    value ← go_value lua nesting (table tbl)
    marshal value

  -- `isMatch`: the verdict and the message
  unfoldable pub is_match : Obj → String → Outcome (Bool × String)
  unfolding run_script map_to_table
  is_match resource script = if script == "" then ok (true, "") else do
    json ← run_script script "obj" "evaluate" (map_to_table lua (content resource))
    unmarshal_evaluate json

  -- `transform`: the new resource, which may be a nil pointer
  unfoldable pub transform : Obj → String → Outcome (Option Obj)
  unfolding run_script map_to_table
  transform resource script = if script == "" then ok (some resource) else do
    json ← run_script script "obj" "transform" (map_to_table lua (content resource))
    result ← unmarshal_transform json
    ok (result.0)

  -- The argument table of `aggregatedSelection`.
  unfoldable pub argument_table : List (ResourceResult Obj) → Tables.Table lua → Tables.Table lua
  unfolding map_to_table
  argument_table [] t = t
  argument_table (r ∷ rs) t =
      argument_table rs (Tables.append lua t (table (map_to_table lua (content r.resource))))

  -- `aggregatedSelection`
  unfoldable pub aggregated_selection :
      String → List (ResourceResult Obj) → Outcome (List (ResourceResult Obj))
  unfolding run_script argument_table check_resources
  aggregated_selection script resources = if script == "" then ok resources else do
    json ←
        run_script script "resources" "evaluate" (argument_table resources (Tables.new_table lua))
    result ← unmarshal_aggregated json
    check_resources result
