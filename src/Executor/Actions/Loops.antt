-- ===== src/Executor/Actions/Loops.antt =====
-- What the loop of deletions does, as a relation: which calls are made, in which world, and which
-- resources are reported as processed.
use mathlib.Core.List.{append_assoc, append-nil}
use k8s_cleaner.Common.{
  ◌≡◌, refl, sym, ◌∙◌, subst, Option, List, [], ◌∷◌, ◌++◌, GoError, Outcome, ok, err, panic,
}
use k8s_cleaner.Api.{DeleteOptions}
use k8s_cleaner.Executor.Scripts.{ResourceResult}
use k8s_cleaner.Executor.Actions.{
  Writes, Acted, after_call, act_on, delete_options, delete_matching_resources,
}

-- `Ran act rs w ps o w'`: acting on `rs` from the world `w`, in order, processed `ps` and ended with
-- `o` in the world `w'`.
pub data Ran {Obj World : Type 0} (act : ResourceResult Obj → World → Outcome (Unit {0}) × World)
    : List (ResourceResult Obj)
      → World
      → List (ResourceResult Obj)
      → Outcome (Unit {0})
      → World
      → Type 0 where
  all_done : {w : World} → Ran act [] w [] (ok tt) w
  next :
      {r : ResourceResult Obj} {rs ps : List (ResourceResult Obj)} {w w' w'' : World}
      {o : Outcome (Unit {0})} {u : Unit {0}}
      → act r w ≡ (ok u, w')
      → Ran act rs w' ps o w''
      → Ran act (r ∷ rs) w (r ∷ ps) o w''
  failed :
      {r : ResourceResult Obj} {rs : List (ResourceResult Obj)} {w w' : World} {e : GoError}
      → act r w ≡ (err e, w')
      → Ran act (r ∷ rs) w [] (err e) w'
  crashed :
      {r : ResourceResult Obj} {rs : List (ResourceResult Obj)} {w w' : World}
      → act r w ≡ (panic, w')
      → Ran act (r ∷ rs) w [] panic w'

module _ {Obj World : Type 0} (act : ResourceResult Obj → World → Outcome (Unit {0}) × World) where
  -- What the loop returns, seen from the resources that are still to be acted on.
  Runs : List (ResourceResult Obj) → List (ResourceResult Obj) → World → Acted Obj World → Type 0
  Runs rs acc w a =
      (ps : List (ResourceResult Obj)) × (a.processed ≡ acc ++ ps)
      × Ran act rs w ps a.outcome a.world

  after_call-Runs :
      (r : ResourceResult Obj) (rs acc : List (ResourceResult Obj)) (w : World)
      (p : Outcome (Unit {0}) × World) (rest : World → Acted Obj World)
      → act r w ≡ p
      → ((w' : World) → Runs rs (acc ++ r ∷ []) w' (rest w'))
      → Runs (r ∷ rs) acc w (after_call acc p (λ u. rest))
  unfolding after_call Runs
  after_call-Runs r rs acc w (ok u, w') rest e h =
      let (ps, q, run) = h w' in (r ∷ ps, q ∙ append_assoc acc (r ∷ []) ps, next e run)
  after_call-Runs r rs acc w (err x, w') rest e h = ([], sym (append-nil acc), failed e)
  after_call-Runs r rs acc w (panic, w') rest e h = ([], sym (append-nil acc), crashed e)

  act_on-Runs :
      (rs acc : List (ResourceResult Obj)) (w : World) → Runs rs acc w (act_on act acc rs w)
  unfolding act_on Runs
  act_on-Runs [] acc w = ([], sym (append-nil acc), all_done)
  act_on-Runs (r ∷ rs) acc w =
      after_call-Runs r rs acc w (act r w) (act_on act (acc ++ r ∷ []) rs) refl
        (act_on-Runs rs (acc ++ r ∷ []))

  pub act_on-Ran :
      (rs : List (ResourceResult Obj)) (w : World)
      → Ran act rs w
          (act_on act [] rs w).processed
          (act_on act [] rs w).outcome
          (act_on act [] rs w).world
  unfolding Runs
  act_on-Ran rs w =
      let (ps, q, run) = act_on-Runs rs [] w in
      subst (λ xs. Ran act rs w xs (act_on act [] rs w).outcome (act_on act [] rs w).world) (sym q)
        run

module _ {Obj : Type 0} (w : Writes Obj) where
  open w use {World, delete}

  -- `deleteMatchingResources` deletes the resources in order with the options of the cleaner, stops
  -- at the first deletion that fails and returns its error, and reports exactly the resources that
  -- it deleted before.
  pub delete_matching_resources-Ran :
      (rs : List (ResourceResult Obj)) (options : Option DeleteOptions) (world : World)
      → let a = delete_matching_resources w rs options world in
        Ran
          (λ r w'. delete r.resource (delete_options options) w')
          rs
          world
          a.processed
          a.outcome
          a.world
  unfolding delete_matching_resources
  delete_matching_resources-Ran rs options world = act_on-Ran _ rs world
