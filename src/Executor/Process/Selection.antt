-- ===== src/Executor/Process/Selection.antt =====
-- What the resources are that `processCleanerInstance` acts on.
use mathlib.Core.List.{append_assoc, append-nil}
use k8s_cleaner.Common.{
  String, ◌≡◌, ◌≢◌, refl, sym, ◌∙◌, ap, subst, ◌⊎◌, inl, inr, Bool-cases, ◌==◌, eq_iff, Option,
  none, some, List, [], ◌∷◌, ◌++◌, map, ok, ◌>>=◌, >>=-eq-ok, ok-injective,
}
use k8s_cleaner.Api.{Cleaner, ResourceSelector}
use k8s_cleaner.Executor.Cluster.{Objects, Cluster}
use k8s_cleaner.Executor.Lua.{
  Value, LuaValue, Tables, nil, boolean, string, number, table, userdata, map_to_table, go_value,
}
use k8s_cleaner.Executor.Scripts.{
  Interpreter, ResourceResult, as_table, check_resources, run_script, argument_table,
  aggregated_selection,
}
use k8s_cleaner.Executor.Actions.{get_matching_resources}
use k8s_cleaner.Executor.Process.{collect_matching, select_resources}

module _ (o : Objects) (lua : Tables) (i : Interpreter o lua) (c : Cluster (Objects.Obj o)) where
  open o use {Obj}
  open lua use {Num, Table, new_table, append}
  open i use {content, State, do_string, call, nesting, marshal, unmarshal_aggregated}

  -- The matches of each selector, one selector after the other.
  pub data Gathered : List ResourceSelector → List (ResourceResult Obj) → Type 0 where
    none_left : Gathered [] []
    gathered :
        {sr : ResourceSelector} {srs : List ResourceSelector}
        {found rest : List (ResourceResult Obj)}
        → get_matching_resources o lua i c sr ≡ ok found
        → Gathered srs rest
        → Gathered (sr ∷ srs) (found ++ rest)

  collect_matching-Gathered :
      (srs : List ResourceSelector) (acc rs : List (ResourceResult Obj))
      → collect_matching o lua i c srs acc ≡ ok rs
      → (found : List (ResourceResult Obj)) × (acc ++ found ≡ rs) × Gathered srs found
  unfolding collect_matching
  collect_matching-Gathered [] acc rs e = ([], append-nil acc ∙ ok-injective e, none_left)
  collect_matching-Gathered (sr ∷ srs) acc rs e =
      let (tmp, p, e') = >>=-eq-ok (get_matching_resources o lua i c sr) _ e in
      let (found, q, g) = collect_matching-Gathered srs (acc ++ tmp) rs e' in
      (tmp ++ found, sym (append_assoc acc tmp found) ∙ q, gathered p g)

  -- The argument of the aggregating script: the contents of the matches, appended in order.
  pub data Passed : List (ResourceResult Obj) → Table → Table → Type 0 where
    passed : {t : Table} → Passed [] t t
    pass :
        {r : ResourceResult Obj} {rs : List (ResourceResult Obj)} {t t' : Table}
        → Passed rs (append t (table (map_to_table lua (content r.resource)))) t'
        → Passed (r ∷ rs) t t'

  -- The JSON entries that stand for resources that are there.
  abbrev pub entries_of : List (ResourceResult Obj) → List (Option Obj × String)
  entries_of rs = map (λ r. (some r.resource, r.message)) rs

  -- The script was loaded and called on the matches, and the JSON of the table that it returned
  -- lists the resources.
  pub record Aggregated (script : String) (matches rs : List (ResourceResult Obj)) : Type 0 where
    pub given : script ≢ ""
    pub argument : Table
    pub argued : Passed matches new_table argument
    pub state : State
    pub loaded : do_string script ≡ ok state
    pub answer : Table
    pub called : call state "resources" "evaluate" argument ≡ ok (table answer)
    pub value : Value Num
    pub converted : go_value lua nesting (table answer) ≡ ok value
    pub json : String
    pub printed : marshal value ≡ ok json
    pub parsed : unmarshal_aggregated json ≡ ok (entries_of rs)

  argument_table-Passed :
      (rs : List (ResourceResult Obj)) (t : Table) → Passed rs t (argument_table o lua i rs t)
  unfolding argument_table
  argument_table-Passed [] t = passed
  argument_table-Passed (r ∷ rs) t = pass (argument_table-Passed rs _)

  check_resources-map :
      (found : List (Option Obj × String)) (rs : List (ResourceResult Obj))
      → check_resources found ≡ ok rs
      → found ≡ entries_of rs
  unfolding check_resources
  check_resources-map [] rs e =
      subst (λ (l : List (ResourceResult Obj)). [] ≡ entries_of l) (ok-injective e) refl
  check_resources-map ((none, m) ∷ found) rs e = absurd (cc e)
  check_resources-map ((some r, m) ∷ found) rs e =
      let (others, p, q) = >>=-eq-ok (check_resources found) _ e in
      let tail : ◌≡◌ {A = List (Option Obj × String)} ((some r, m) ∷ found)
          (entries_of (record { resource = r; message = m } ∷ others)) =
        ap (λ (l : List (Option Obj × String)). (some r, m) ∷ l)
          (check_resources-map found others p) in
      tail ∙ ap entries_of (ok-injective q)

  as_table-ok : (v : LuaValue Num Table) (t : Table) → as_table v ≡ ok t → v ≡ table t
  unfolding as_table
  as_table-ok (table u) t e = ap table (ok-injective e)
  as_table-ok nil t e = absurd (cc e)
  as_table-ok (boolean b) t e = absurd (cc e)
  as_table-ok (string s) t e = absurd (cc e)
  as_table-ok (number x) t e = absurd (cc e)
  as_table-ok userdata t e = absurd (cc e)

  script-Aggregated :
      (script : String) (matches rs : List (ResourceResult Obj))
      → script ≢ ""
      → (run_script o lua i script "resources" "evaluate" (argument_table o lua i matches new_table)
          >>= λ json. unmarshal_aggregated json >>= check_resources)
        ≡ ok rs
      → Aggregated script matches rs
  unfolding run_script
  script-Aggregated script matches rs given e =
      let argument = argument_table o lua i matches new_table in
      let (json, p, e') =
        >>=-eq-ok (run_script o lua i script "resources" "evaluate" argument) _ e in
      let (result, parsed, e'') = >>=-eq-ok (unmarshal_aggregated json) _ e' in
      let (state, loaded, p') = >>=-eq-ok (do_string script) _ p in
      let (v, called, p'') = >>=-eq-ok (call state "resources" "evaluate" argument) _ p' in
      let (answer, is_table, r) = >>=-eq-ok (as_table v) _ p'' in
      let (value, converted, printed) = >>=-eq-ok (go_value lua nesting (table answer)) _ r in
      record {
        given = given;
        argument = argument;
        argued = argument_table-Passed matches new_table;
        state = state;
        loaded = loaded;
        answer = answer;
        called = called ∙ ap ok (as_table-ok v answer is_table);
        value = value;
        converted = converted;
        json = json;
        printed = printed;
        parsed = parsed ∙ ap ok (check_resources-map result rs e'');
      }

  aggregated_selection-cases :
      (script : String) (matches rs : List (ResourceResult Obj))
      → aggregated_selection o lua i script matches ≡ ok rs
      → ((script ≡ "") × (rs ≡ matches)) ⊎ Aggregated script matches rs
  unfolding aggregated_selection
  aggregated_selection-cases script matches rs = elim (Bool-cases (script == "")) [
    | inl p ↦ rw p (λ e. inl ((eq_iff script "").0 p, sym (ok-injective e)))
    | inr p ↦
        let given : script ≢ "" = λ empty. cc (sym p ∙ (eq_iff script "").1 empty) in
        rw p (λ e. inr (script-Aggregated script matches rs given e))
  ]

  -- When the selection succeeds, every selector did, and with the empty aggregating script the
  -- result is the matches of the selectors, in their order. Any other script was loaded, its
  -- function was called on the list of the contents of exactly these matches, and the result is
  -- what the JSON of the table that it returned lists, in which every entry has a resource.
  pub select_resources-Gathered :
      (cleaner : Cleaner) (rs : List (ResourceResult Obj))
      → select_resources o lua i c cleaner ≡ ok rs
      → (matches : List (ResourceResult Obj)) × Gathered
          cleaner.spec.resource_policy_set.resource_selectors matches
        × (((cleaner.spec.resource_policy_set.aggregated_selection ≡ "") × (rs ≡ matches))
            ⊎ Aggregated cleaner.spec.resource_policy_set.aggregated_selection matches rs)
  unfolding select_resources
  select_resources-Gathered cleaner rs e =
      let set = cleaner.spec.resource_policy_set in
      let (all, p, q) = >>=-eq-ok (collect_matching o lua i c set.resource_selectors []) _ e in
      let (found, eq, g) = collect_matching-Gathered _ [] all p in
      (
        found,
        g,
        aggregated_selection-cases set.aggregated_selection found rs (
            subst
              (λ (l : List (ResourceResult Obj)).
                aggregated_selection o lua i set.aggregated_selection l ≡ ok rs)
              (sym eq) q),
      )
