-- ===== src/Executor/Process/Stages.antt =====
-- The stages of `processCleanerInstance`: what each of them may change, and how they fail.
use k8s_cleaner.Common.{
  String, ◌<>◌, ◌≡◌, refl, sym, ◌∙◌, ap, subst, List, [], GoError, Outcome, ok, err, panic, ◌>>=◌,
  inl, inr, Outcome-cases,
}
use k8s_cleaner.Common.Effects.{continue-eq-ok}
use k8s_cleaner.Api.{Cleaner, Notification, delete, scan}
use k8s_cleaner.Executor.Cluster.{Objects, Cluster}
use k8s_cleaner.Executor.Lua.{Tables}
use k8s_cleaner.Executor.Scripts.{Interpreter, ResourceResult, aggregated_selection}
use k8s_cleaner.Executor.Actions.{Writes, Acted, delete_options, delete_matching_resources}
use k8s_cleaner.Executor.Actions.Loops.{Ran, delete_matching_resources-Ran}
use k8s_cleaner.Executor.Services.{found, missing, Messaging, Files, Cleaners}
use k8s_cleaner.Executor.Notify.{
  generate_report_spec, deliver, send_notification, send_notifications,
}
use k8s_cleaner.Executor.Secrets.{SecretKeys}
use k8s_cleaner.Executor.Store.{store_resources}
use k8s_cleaner.Executor.Process.{
  get_cleaner_instance, collect_matching, select_resources, perform, report, conclude,
  process_cleaner, process_cleaner_instance,
}

module _ (o : Objects) (lua : Tables) (i : Interpreter o lua) (c : Cluster (Objects.Obj o))
    (w : Writes (Objects.Obj o)) (s : Messaging (Writes.World w))
    (f : Files (Objects.Obj o) (Writes.World w)) (g : Cleaners (Writes.World w)) (keys : SecretKeys)
    (stamp : String) where
  open o use {Obj}
  open w use {World}
  open g use {get_cleaner}

  -- Nothing is written before the selection of resources is complete: when a selector or a script
  -- fails, the error is returned and the world is as it was.
  pub failed_selection_changes_nothing :
      (name : String) (cleaner : Cleaner) (world : World) (e : GoError)
      → get_cleaner name world ≡ found cleaner
      → select_resources o lua i c cleaner ≡ err e
      → process_cleaner_instance o lua i c w s f g keys stamp name world ≡ (err e, world)
  unfolding process_cleaner_instance
  failed_selection_changes_nothing name cleaner world e got sel =
      rw (got, sel, process_cleaner_instance, process_cleaner) refl

  -- For a cleaner that is not found, which `getCleanerInstance` returns as an empty one, processing
  -- succeeds and changes nothing.
  pub gone_cleaner_changes_nothing :
      (name : String) (world : World) (e : GoError)
      → get_cleaner name world ≡ missing e
      → process_cleaner_instance o lua i c w s f g keys stamp name world ≡ (ok tt, world)
  unfolding process_cleaner_instance get_cleaner_instance process_cleaner select_resources
      collect_matching aggregated_selection perform conclude report send_notifications deliver
      store_resources
  gone_cleaner_changes_nothing name world e got = rw (got, process_cleaner_instance) refl

  perform-scan :
      (cleaner : Cleaner) (rs : List (ResourceResult Obj)) (world : World)
      → cleaner.spec.action ≡ scan
      → perform o lua i w cleaner rs world
        ≡ record { processed = rs; outcome = ok tt; world = world }
  unfolding perform
  perform-scan cleaner rs world a = rw a refl

  send-none :
      (cleaner : Cleaner) (rs : List (ResourceResult Obj)) (world : World)
      → cleaner.spec.notifications ≡ []
      → send_notifications s o keys stamp rs cleaner world ≡ (ok tt, world)
  unfolding send_notifications deliver
  send-none cleaner rs world n =
      ap
        (λ (ns : List Notification).
          deliver s
            (send_notification s keys cleaner (generate_report_spec o stamp rs cleaner)
              ("This report has been generated by k8s-cleaner for instance: " <> cleaner.name))
            ns world)
        n

  store-none :
      (cleaner : Cleaner) (rs : List (ResourceResult Obj)) (world : World)
      → cleaner.spec.store_resource_path ≡ ""
      → store_resources o f rs cleaner world ≡ (ok tt, world)
  unfolding store_resources
  store-none cleaner rs world p = rw p refl

  -- A cleaner that only scans, without notifications and without a directory to store in, changes
  -- nothing; it fails exactly as its selection does.
  scan_changes_nothing :
      (cleaner : Cleaner) (world : World)
      → cleaner.spec.action ≡ scan
      → cleaner.spec.notifications ≡ []
      → cleaner.spec.store_resource_path ≡ ""
      → process_cleaner o lua i c w s f g keys stamp cleaner world
        ≡ ((select_resources o lua i c cleaner >>= λ _. ok tt), world)
  unfolding process_cleaner conclude report
  scan_changes_nothing cleaner world a n p =
      elim (Outcome-cases (select_resources o lua i c cleaner)) [
        | inl (rs, e) ↦
            rw (e, perform-scan cleaner rs world a)
              (rw (send-none cleaner rs world n, store-none cleaner rs world p) refl)
        | inr (inl (x, e)) ↦ rw e refl
        | inr (inr e) ↦ rw e refl
      ]

  report-eq-ok :
      (cleaner : Cleaner) (processed : List (ResourceResult Obj)) (outcome : Outcome (Unit {0}))
      (world world' : World)
      → report o lua i c w s f g keys stamp cleaner processed outcome world ≡ (ok tt, world')
      → (outcome ≡ ok tt)
        × (middle : World) × (send_notifications s o keys stamp processed cleaner world
            ≡ (ok tt, middle))
        × (store_resources o f processed cleaner middle ≡ (ok tt, world'))
  unfolding report
  report-eq-ok cleaner processed outcome world world' e =
      let (u, middle, sent, e') =
        continue-eq-ok (send_notifications s o keys stamp processed cleaner world) _ e in
      let (v, last, stored, e'') =
        continue-eq-ok (store_resources o f processed cleaner middle) _ e' in
      (ap (λ p. p.0) e'', middle, sent, stored ∙ ap (λ p. (ok tt, p.1)) e'')

  conclude-report :
      (cleaner : Cleaner) (acted : Acted Obj World) (r : Outcome (Unit {0}))
      → acted.outcome ≡ r
      → conclude o lua i c w s f g keys stamp cleaner acted ≡ (elim r [
        | panic ↦ (panic, acted.world)
        | ok u ↦ report o lua i c w s f g keys stamp cleaner acted.processed (ok u) acted.world
        | err x ↦ report o lua i c w s f g keys stamp cleaner acted.processed (err x) acted.world
      ])
  unfolding conclude
  conclude-report cleaner acted r p = rw p refl

  conclude-eq-ok :
      (cleaner : Cleaner) (acted : Acted Obj World) (r : Outcome (Unit {0})) (world' : World)
      → acted.outcome ≡ r
      → conclude o lua i c w s f g keys stamp cleaner acted ≡ (ok tt, world')
      → report o lua i c w s f g keys stamp cleaner acted.processed acted.outcome acted.world
        ≡ (ok tt, world')
  conclude-eq-ok cleaner acted (ok u) world' p e =
      rw p (sym (conclude-report cleaner acted (ok u) p) ∙ e)
  conclude-eq-ok cleaner acted (err x) world' p e =
      rw p (sym (conclude-report cleaner acted (err x) p) ∙ e)
  conclude-eq-ok cleaner acted panic world' p e =
      cc (sym (conclude-report cleaner acted panic p) ∙ e)

  abbrev Done : Cleaner → Acted Obj World → World → Type 0
  Done cleaner a world' =
      (a.outcome ≡ ok tt)
      × (middle : World) × (send_notifications s o keys stamp a.processed cleaner a.world
          ≡ (ok tt, middle))
      × (store_resources o f a.processed cleaner middle ≡ (ok tt, world'))

  -- A result without an error means that every stage had none: the selection of resources, the
  -- action on them, all notifications, and then the storing of the resources that the action reports
  -- as processed.
  pub success_means_all :
      (cleaner : Cleaner) (world world' : World)
      → process_cleaner o lua i c w s f g keys stamp cleaner world ≡ (ok tt, world')
      → (rs : List (ResourceResult Obj)) × (select_resources o lua i c cleaner ≡ ok rs)
        × (let a = perform o lua i w cleaner rs world in
            (a.outcome ≡ ok tt)
            × (middle : World) × (send_notifications s o keys stamp a.processed cleaner a.world
                ≡ (ok tt, middle))
            × (store_resources o f a.processed cleaner middle ≡ (ok tt, world')))
  unfolding process_cleaner
  success_means_all cleaner world world' e =
      let (rs, at, p, q) = continue-eq-ok (select_resources o lua i c cleaner, world) _ e in
      let a = perform o lua i w cleaner rs at in
      (
        rs,
        ap (λ r. r.0) p,
        subst (λ (x : World). Done cleaner (perform o lua i w cleaner rs x) world')
            (sym (ap (λ r. r.1) p))
            (report-eq-ok cleaner a.processed a.outcome a.world world'
              (conclude-eq-ok cleaner a a.outcome world' refl q)),
      )

  -- A cleaner with the action Delete deletes selected resources only, in their order: whatever the
  -- later stages do, the world that they start from is the one that the deletions of the selected
  -- resources led to, up to the first that failed, and they are told of those that succeeded.
  pub delete_stage :
      (cleaner : Cleaner) (rs : List (ResourceResult Obj)) (world : World)
      → cleaner.spec.action ≡ delete
      → select_resources o lua i c cleaner ≡ ok rs
      → (ps : List (ResourceResult Obj)) × (r : Outcome (Unit {0})) × (middle : World) × Ran
          (λ x v. Writes.delete w x.resource (delete_options cleaner.spec.delete_options) v)
          rs
          world
          ps
          r
          middle
        × (process_cleaner o lua i c w s f g keys stamp cleaner world
            ≡ conclude o lua i c w s f g keys stamp cleaner
                (record { processed = ps; outcome = r; world = middle }))
  unfolding process_cleaner
  delete_stage cleaner rs world a e =
      let d = delete_matching_resources w rs cleaner.spec.delete_options world in
      (
        d.processed,
        d.outcome,
        d.world,
        delete_matching_resources-Ran w rs cleaner.spec.delete_options world,
        rw (e, process_cleaner, perform, a) refl,
      )
