-- ===== src/Executor/Actions/Updates.antt =====
-- What `updateMatchingResources` does, as a relation that names the calls: the script of each resource,
-- the update that follows it, and the entry that is reported.
use mathlib.Core.List.{append_assoc, append-nil}
use k8s_cleaner.Common.{
  String, ◌≡◌, ◌≢◌, refl, sym, ◌∙◌, subst, Option, none, some, List, [], ◌∷◌, ◌++◌, GoError,
  Outcome, ok, err, panic, ◌==◌, eq_iff, Bool-cases, inl, inr,
}
use k8s_cleaner.Executor.Cluster.{Objects}
use k8s_cleaner.Executor.Lua.{Tables}
use k8s_cleaner.Executor.Scripts.{Interpreter, ResourceResult, transform}
use k8s_cleaner.Executor.Actions.{
  Writes, Acted, after_call, entry_after, update_new, update_one, update_all,
  update_matching_resources,
}

module _ (o : Objects) (lua : Tables) (i : Interpreter o lua) (w : Writes (Objects.Obj o))
    (script : String) where
  open o use {Obj}
  open w use {World, update, update_nil}

  -- One resource: the script gives the object for the update, and the empty script the resource itself.
  -- An error or a panic, of the script or of the update, is the outcome.
  pub data Round : ResourceResult Obj → World → Outcome (ResourceResult Obj) → World → Type 0 where
    -- the update overwrites the resource of the entry
    in_place :
        {r : ResourceResult Obj} {v v' : World} {updated : Obj}
        → script ≡ ""
        → update r.resource v ≡ (ok updated, v')
        → Round r v (ok (record r { resource = updated })) v'
    -- the update sends a new object, and the entry stays what it was
    replaced :
        {r : ResourceResult Obj} {v v' : World} {new updated : Obj}
        → script ≢ ""
        → transform o lua i r.resource script ≡ ok (some new)
        → update new v ≡ (ok updated, v')
        → Round r v (ok r) v'
    emptied :
        {r : ResourceResult Obj} {v v' : World} {u : Unit {0}}
        → transform o lua i r.resource script ≡ ok none
        → update_nil v ≡ (ok u, v')
        → Round r v (ok r) v'
    script_failed :
        {r : ResourceResult Obj} {v : World} {e : GoError}
        → transform o lua i r.resource script ≡ err e
        → Round r v (err e) v
    script_crashed :
        {r : ResourceResult Obj} {v : World}
        → transform o lua i r.resource script ≡ panic
        → Round r v panic v
    rejected :
        {r : ResourceResult Obj} {v v' : World} {new : Obj} {e : GoError}
        → transform o lua i r.resource script ≡ ok (some new)
        → update new v ≡ (err e, v')
        → Round r v (err e) v'
    crashed :
        {r : ResourceResult Obj} {v v' : World} {new : Obj}
        → transform o lua i r.resource script ≡ ok (some new)
        → update new v ≡ (panic, v')
        → Round r v panic v'
    nil_rejected :
        {r : ResourceResult Obj} {v v' : World} {e : GoError}
        → transform o lua i r.resource script ≡ ok none
        → update_nil v ≡ (err e, v')
        → Round r v (err e) v'
    nil_crashed :
        {r : ResourceResult Obj} {v v' : World}
        → transform o lua i r.resource script ≡ ok none
        → update_nil v ≡ (panic, v')
        → Round r v panic v'

  -- The rounds in order, up to the first that fails; what is reported are the entries before it.
  pub data Updated
      : List (ResourceResult Obj)
        → World
        → List (ResourceResult Obj)
        → Outcome (Unit {0})
        → World
        → Type 0 where
    all_done : {v : World} → Updated [] v [] (ok tt) v
    next :
        {r r' : ResourceResult Obj} {rs ps : List (ResourceResult Obj)} {v v' v'' : World}
        {a : Outcome (Unit {0})}
        → Round r v (ok r') v'
        → Updated rs v' ps a v''
        → Updated (r ∷ rs) v (r' ∷ ps) a v''
    failed :
        {r : ResourceResult Obj} {rs : List (ResourceResult Obj)} {v v' : World} {e : GoError}
        → Round r v (err e) v'
        → Updated (r ∷ rs) v [] (err e) v'
    panicked :
        {r : ResourceResult Obj} {rs : List (ResourceResult Obj)} {v v' : World}
        → Round r v panic v'
        → Updated (r ∷ rs) v [] panic v'

  -- A round as the pair that the code returns.
  Rounds : ResourceResult Obj → World → Outcome (ResourceResult Obj) × World → Type 0
  Rounds r v p = Round r v p.0 p.1

  transform-empty : (r : Obj) → script ≡ "" → transform o lua i r script ≡ ok (some r)
  unfolding transform
  transform-empty r e = rw e refl

  entry-Rounds :
      (r : ResourceResult Obj) (v v' : World) (new updated : Obj)
      → transform o lua i r.resource script ≡ ok (some new)
      → update new v ≡ (ok updated, v')
      → Round r v (ok (entry_after script r updated)) v'
  unfolding entry_after
  entry-Rounds r v v' new updated t u = elim (Bool-cases (script == "")) [
    | inl e ↦
        let empty = (eq_iff script "").0 e in
        let same : r.resource ≡ new = cc (sym (transform-empty r.resource empty) ∙ t) in
        rw e (in_place empty (subst (λ (x : Obj). update x v ≡ (ok updated, v')) (sym same) u))
    | inr e ↦ rw e (replaced (λ empty. cc (sym e ∙ (eq_iff script "").1 empty)) t u)
  ]

  sent-Rounds :
      (r : ResourceResult Obj) (v : World) (new : Obj)
      → transform o lua i r.resource script ≡ ok (some new)
      → (p : Outcome Obj × World) → update new v ≡ p
      → Rounds r v (update_new o lua i w script r (some new) v)
  unfolding Rounds update_new
  sent-Rounds r v new t (ok updated, v') u = rw u (entry-Rounds r v v' new updated t u)
  sent-Rounds r v new t (err e, v') u = rw u (rejected t u)
  sent-Rounds r v new t (panic, v') u = rw u (crashed t u)

  nil-Rounds :
      (r : ResourceResult Obj) (v : World)
      → transform o lua i r.resource script ≡ ok none
      → (p : Outcome (Unit {0}) × World) → update_nil v ≡ p
      → Rounds r v (update_new o lua i w script r none v)
  unfolding Rounds update_new
  nil-Rounds r v t (ok a, v') u = rw u (emptied t u)
  nil-Rounds r v t (err e, v') u = rw u (nil_rejected t u)
  nil-Rounds r v t (panic, v') u = rw u (nil_crashed t u)

  update_one-Rounds :
      (r : ResourceResult Obj) (v : World) (t : Outcome (Option Obj))
      → transform o lua i r.resource script ≡ t
      → Rounds r v (update_one o lua i w script r v)
  unfolding update_one Rounds
  update_one-Rounds r v (ok none) e = rw e (unfold Rounds in nil-Rounds r v e _ refl)
  update_one-Rounds r v (ok (some new)) e = rw e (unfold Rounds in sent-Rounds r v new e _ refl)
  update_one-Rounds r v (err x) e = rw e (script_failed e)
  update_one-Rounds r v panic e = rw e (script_crashed e)

  -- What the loop returns, seen from the resources that are left.
  Updates : List (ResourceResult Obj) → List (ResourceResult Obj) → World → Acted Obj World → Type 0
  Updates rs acc v a =
      (ps : List (ResourceResult Obj)) × (a.processed ≡ acc ++ ps)
      × Updated rs v ps a.outcome a.world

  after_call-Updates :
      (r : ResourceResult Obj) (rs acc : List (ResourceResult Obj)) (v : World)
      (p : Outcome (ResourceResult Obj) × World)
      (rest : ResourceResult Obj → World → Acted Obj World)
      → Rounds r v p
      → ((r' : ResourceResult Obj) (v' : World) → Updates rs (acc ++ r' ∷ []) v' (rest r' v'))
      → Updates (r ∷ rs) acc v (after_call acc p rest)
  unfolding after_call Updates Rounds
  after_call-Updates r rs acc v (ok r', v') rest round h =
      let (ps, q, run) = h r' v' in (r' ∷ ps, q ∙ append_assoc acc (r' ∷ []) ps, next round run)
  after_call-Updates r rs acc v (err e, v') rest round h = ([], sym (append-nil acc), failed round)
  after_call-Updates r rs acc v (panic, v') rest round h =
      ([], sym (append-nil acc), panicked round)

  update_all-Updates :
      (rs acc : List (ResourceResult Obj)) (v : World)
      → Updates rs acc v (update_all o lua i w script acc rs v)
  unfolding update_all Updates
  update_all-Updates [] acc v = ([], sym (append-nil acc), all_done)
  update_all-Updates (r ∷ rs) acc v =
      after_call-Updates r rs acc v (update_one o lua i w script r v)
        (λ r'. update_all o lua i w script (acc ++ r' ∷ []) rs) (update_one-Rounds r v _ refl)
        (λ r'. update_all-Updates rs (acc ++ r' ∷ []))

  -- `updateMatchingResources` goes through the resources in order: it runs the script on each,
  -- updates the cluster with the object that the script gives, or with the resource itself if the
  -- script is empty, stops at the first script or update that fails and returns its error. It
  -- reports exactly the resources that it updated before: as they were, or, with the empty script,
  -- as the update left them in memory.
  pub update_matching_resources-Updated :
      (rs : List (ResourceResult Obj)) (v : World)
      → let a = update_matching_resources o lua i w rs script v in
        Updated rs v a.processed a.outcome a.world
  unfolding update_matching_resources Updates
  update_matching_resources-Updated rs v =
      let a = update_all o lua i w script [] rs v in
      let (ps, q, run) = update_all-Updates rs [] v in
      subst (λ xs. Updated rs v xs a.outcome a.world) (sym q) run
