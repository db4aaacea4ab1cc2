-- ===== src/Executor/Actions.antt =====
-- internal/controller/executor/worker.go: `getMatchingResources`, `deleteMatchingResources` and
-- `updateMatchingResources`. Writes to the cluster change a state of the world, which is passed on.
pub mod Matching
pub mod Loops
pub mod Updates
use k8s_cleaner.Common.{
  String, Bool, true, false, Option, none, some, List, [], ◌∷◌, ◌++◌, Outcome, ok, err, panic,
  ◌>>=◌, ◌&&◌, ◌==◌, if◌then◌else◌,
}
use k8s_cleaner.Common.Effects.{Effect, continue}
use k8s_cleaner.Api.{DeleteOptions, ResourceSelector}
use k8s_cleaner.Executor.Cluster.{Objects, Cluster}
use k8s_cleaner.Executor.Lua.{Tables}
use k8s_cleaner.Executor.Scripts.{Interpreter, ResourceResult, is_match, transform}
use k8s_cleaner.Executor.Fetch.{fetch_resources}

-- `k8sClient.Delete` and `k8sClient.Update`. An update that succeeds writes the answer of the server
-- over the object that it is handed: it returns what is in memory then.
pub record Writes (Obj : Type 0) : Type 1 where
  pub World : Type 0
  pub delete : Obj → DeleteOptions → World → Outcome (Unit {0}) × World
  pub update : Obj → World → Outcome Obj × World
  -- an update that is handed a nil pointer
  pub update_nil : World → Outcome (Unit {0}) × World

-- A loop that acts on resources returns those that are done together with its error.
pub record Acted (Obj World : Type 0) : Type 0 where
  pub processed : List (ResourceResult Obj)
  pub outcome : Outcome (Unit {0})
  pub world : World

-- A call that fails ends the loop; otherwise the rest of it runs.
unfoldable pub after_call :
    {Obj World A : Type 0}
    → List (ResourceResult Obj)
    → Outcome A × World
    → (A → World → Acted Obj World)
    → Acted Obj World
after_call processed (ok x, w) rest = rest x w
after_call processed (err e, w) rest = record { processed = processed; outcome = err e; world = w }
after_call processed (panic, w) rest = record { processed = processed; outcome = panic; world = w }

-- The loop of `deleteMatchingResources`, over the call that is made for one resource.
unfoldable pub act_on :
    {Obj World : Type 0}
    → (ResourceResult Obj → World → Outcome (Unit {0}) × World)
    → List (ResourceResult Obj)
    → List (ResourceResult Obj)
    → World
    → Acted Obj World
unfolding after_call
act_on act processed [] w = record { processed = processed; outcome = ok tt; world = w }
act_on act processed (r ∷ rs) w =
    after_call processed (act r w) (λ u. act_on act (processed ++ r ∷ []) rs)

-- The options of `deleteMatchingResources`: those of the cleaner, if it has some.
unfoldable pub delete_options : Option DeleteOptions → DeleteOptions
delete_options none = record { grace_period_seconds = none; propagation_policy = none }
delete_options (some d) = record {
  grace_period_seconds = d.grace_period_seconds;
  propagation_policy = d.propagation_policy;
}

module _ {Obj : Type 0} (w : Writes Obj) where
  open w use {World, delete}

  -- `deleteMatchingResources`
  unfoldable pub delete_matching_resources :
      List (ResourceResult Obj) → Option DeleteOptions → World → Acted Obj World
  unfolding act_on delete_options
  delete_matching_resources resources options world =
      act_on (λ r w'. delete r.resource (delete_options options) w') [] resources world

-- The entry of `resources` after an update: with the empty script `newResource` is the resource of
-- the entry itself, which the update has overwritten.
unfoldable pub entry_after : {Obj : Type 0} → String → ResourceResult Obj → Obj → ResourceResult Obj
entry_after script r updated = if script == "" then record r { resource = updated } else r

module _ (o : Objects) (lua : Tables) (i : Interpreter o lua) (w : Writes (Objects.Obj o)) where
  open o use {Obj}
  open w use {World, update, update_nil}

  unfoldable pub update_new :
      String → ResourceResult Obj → Option Obj → Effect World (ResourceResult Obj)
  unfolding entry_after
  update_new script r none world = continue (update_nil world) (λ u w'. (ok r, w'))
  update_new script r (some new) world =
      continue (update new world) (λ updated w'. (ok (entry_after script r updated), w'))

  -- One round of `updateMatchingResources`: the entry that it appends to `processedResources`, as it
  -- is in memory then.
  unfoldable pub update_one : String → ResourceResult Obj → Effect World (ResourceResult Obj)
  unfolding update_new
  update_one script r world =
      continue (transform o lua i r.resource script, world) (update_new script r)

  -- The loop of `updateMatchingResources`, with `processedResources`.
  unfoldable pub update_all :
      String → List (ResourceResult Obj) → List (ResourceResult Obj) → World → Acted Obj World
  unfolding after_call update_one
  update_all script processed [] world = record {
    processed = processed;
    outcome = ok tt;
    world = world;
  }
  update_all script processed (r ∷ rs) world =
      after_call processed (update_one script r world)
        (λ r'. update_all script (processed ++ r' ∷ []) rs)

  unfoldable pub update_matching_resources :
      List (ResourceResult Obj) → String → World → Acted Obj World
  unfolding update_all
  update_matching_resources resources script world = update_all script [] resources world

module _ (o : Objects) (lua : Tables) (i : Interpreter o lua) where
  open o use {Obj, is_deleted}

  -- The loop of `getMatchingResources`, with `results`.
  unfoldable pub match_resources :
      ResourceSelector → List Obj → List (ResourceResult Obj) → Outcome (List (ResourceResult Obj))
  match_resources sr [] results = ok results
  match_resources sr (r ∷ rs) results =
      let skip = match_resources sr rs results in
      let keep = λ (message : String).
        match_resources sr rs (results ++ record { resource = r; message = message } ∷ []) in
      if sr.exclude_deleted && is_deleted r
      then skip
      else (is_match o lua i r sr.evaluate >>= λ verdict.
          if verdict.0 then keep verdict.1 else skip)

  -- `getMatchingResources`; a nil slice and an empty one are not told apart by its caller.
  unfoldable pub get_matching_resources :
      Cluster Obj → ResourceSelector → Outcome (List (ResourceResult Obj))
  unfolding match_resources
  get_matching_resources c sr = do
    fetched ← fetch_resources c sr
    elim fetched [ none ↦ ok [] | some resources ↦ match_resources sr resources [] ]
