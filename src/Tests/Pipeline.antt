-- ===== src/Tests/Pipeline.antt =====
-- The processing of cleaners in a small cluster.
use k8s_cleaner.Common.{
  String, ◌<>◌, ◌≡◌, ◌≢◌, refl, none, List, [], ◌∷◌, Outcome, ok, err, errorf, lookup, contains,
  ◌⊎◌,
}
use k8s_cleaner.Api.{Cleaner, delete, scan}
use k8s_cleaner.Executor.Lua.{fill_table}
use k8s_cleaner.Executor.Scripts.{ResourceResult, aggregated_selection, is_match, argument_table}
use k8s_cleaner.Executor.Fetch.{get_namespaces, add_type_information_to_object, fetch_resources}
use k8s_cleaner.Executor.Actions.{delete_options, get_matching_resources, delete_matching_resources}
use k8s_cleaner.Executor.Actions.Loops.{Ran}
use k8s_cleaner.Executor.Notify.{
  generate_report_spec, send_teams_notification, send_notification, send_notifications,
}
use k8s_cleaner.Executor.Secrets.{get_teams_info}
use k8s_cleaner.Executor.Notify.Delivery.{
  Delivered, send_notifications-Delivered, send_teams_notification-no_error,
}
use k8s_cleaner.Executor.Store.{store_resources}
use k8s_cleaner.Executor.Store.Tries.{Tried, store_resources-Tried}
use k8s_cleaner.Executor.Process.{
  select_resources, perform, conclude, process_cleaner, process_cleaner_instance,
}
use k8s_cleaner.Executor.Process.Selection.{Gathered, Aggregated, select_resources-Gathered}
use k8s_cleaner.Executor.Process.Stages.{
  gone_cleaner_changes_nothing, success_means_all, delete_stage,
}
use k8s_cleaner.Tests.World.{
  Item, items, stale, other, cluster, flat_tables, interpreter, writes, selector, listed, text_at,
  without,
}
use k8s_cleaner.Tests.Outside.{
  keys, messaging, files, tidy, by_report, by_teams, by_slack, broken, cleaners,
}

abbrev stale_only : List (ResourceResult Item)
stale_only = record { resource = stale; message = "unused" } ∷ []

abbrev two_found : List (ResourceResult Item)
two_found =
    record { resource = stale; message = "unused" } ∷ record { resource = other; message = "" } ∷ []

-- A report, a message that Teams does not take, and a Slack notification without a secret.
abbrev noisy : Cleaner
noisy = tidy scan "unused" (by_report ∷ by_teams ∷ by_slack ∷ []) ""

send_notifications-Delivered_example :
    let d = send_notifications messaging items keys "now" stale_only noisy [] in
    Delivered
      (send_notification messaging keys noisy
        (generate_report_spec items "now" stale_only noisy)
        ("This report has been generated by k8s-cleaner for instance: " <> "tidy"))
      (by_report ∷ by_teams ∷ by_slack ∷ [])
      []
      d.0
      d.1
send_notifications-Delivered_example =
    send_notifications-Delivered messaging items keys "now" stale_only noisy []

webhook : get_teams_info messaging "TEAMS_WEBHOOK_URL" by_teams [] ≡ ok "https://hook"
unfolding get_teams_info lookup
webhook = refl

send_teams_notification-no_error_example :
    (send_teams_notification messaging keys
      (generate_report_spec items "now" stale_only noisy)
      "hello"
      by_teams
      []).0
    ≢ err (errorf "timeout")
send_teams_notification-no_error_example =
    send_teams_notification-no_error messaging keys
      (generate_report_spec items "now" stale_only noisy) "hello" by_teams [] "https://hook"
      "report" "hello" (errorf "timeout") webhook refl refl

-- The disk is full: both resources are tried, and neither is written.
store_resources-Tried_example :
    Tried items files "/store" two_found []
      (store_resources items files two_found (tidy scan "unused" [] "/store") []).0
      (store_resources items files two_found (tidy scan "unused" [] "/store") []).1
store_resources-Tried_example =
    store_resources-Tried items files two_found (tidy scan "unused" [] "/store") [] (λ e. cc) refl

selected_stale :
    select_resources items flat_tables interpreter cluster (tidy delete "unused" [] "")
    ≡ ok stale_only
unfolding select_resources aggregated_selection get_matching_resources fetch_resources
    get_namespaces add_type_information_to_object lookup listed is_match text_at contains fill_table
selected_stale = refl

-- The same with an aggregating script, which keeps another object.
abbrev aggregating : Cleaner
aggregating =
    let c = tidy delete "unused" [] "" in
    record c {
      spec = record c.spec {
        resource_policy_set = record c.spec.resource_policy_set { aggregated_selection = "unused" };
      };
    }

aggregated_stale :
    select_resources items flat_tables interpreter cluster aggregating
    ≡ ok (record { resource = stale; message = "kept" } ∷ [])
unfolding select_resources aggregated_selection get_matching_resources fetch_resources
    get_namespaces add_type_information_to_object lookup listed is_match text_at contains fill_table
    argument_table
aggregated_stale = refl

select_resources-Gathered_example :
    (matches : List (ResourceResult Item)) × Gathered items flat_tables interpreter cluster
      (selector "test" "unused" ∷ [])
      matches
    × (((◌≡◌ {A = String} "unused" "")
          × (record { resource = stale; message = "kept" } ∷ [] ≡ matches))
        ⊎ Aggregated items flat_tables interpreter cluster "unused" matches
            (record { resource = stale; message = "kept" } ∷ []))
select_resources-Gathered_example =
    select_resources-Gathered items flat_tables interpreter cluster aggregating
      (record { resource = stale; message = "kept" } ∷ []) aggregated_stale

pub broken_selection :
    select_resources items flat_tables interpreter cluster broken ≡ err (errorf "syntax error")
unfolding select_resources get_matching_resources fetch_resources get_namespaces
    add_type_information_to_object lookup listed is_match fill_table
broken_selection = refl

gone_cleaner_changes_nothing_example :
    process_cleaner_instance items flat_tables interpreter cluster writes messaging files cleaners
      keys "now" "gone"
      ("stale" ∷ [])
    ≡ (ok tt, "stale" ∷ [])
gone_cleaner_changes_nothing_example =
    gone_cleaner_changes_nothing items flat_tables interpreter cluster writes messaging files
      cleaners keys "now" "gone" ("stale" ∷ []) (errorf "not found") refl

deleted_stale :
    process_cleaner items flat_tables interpreter cluster writes messaging files cleaners keys "now"
      (tidy delete "unused" [] "")
      ("stale" ∷ "fresh" ∷ [])
    ≡ (ok tt, "fresh" ∷ [])
unfolding process_cleaner get_matching_resources fetch_resources get_namespaces
    add_type_information_to_object lookup listed is_match text_at fill_table aggregated_selection
    delete_matching_resources contains send_notifications store_resources without
deleted_stale = refl

success_means_all_example :
    (rs : List (ResourceResult Item)) × (select_resources items flat_tables interpreter cluster
        (tidy delete "unused" [] "")
      ≡ ok rs)
    × (let a =
          perform items flat_tables interpreter writes
            (tidy delete "unused" [] "")
            rs
            ("stale" ∷ "fresh" ∷ []) in
        (a.outcome ≡ ok tt)
        × (middle : List String) × (send_notifications messaging items keys "now" a.processed
              (tidy delete "unused" [] "")
              a.world
            ≡ (ok tt, middle))
        × (store_resources items files a.processed (tidy delete "unused" [] "") middle
            ≡ (ok tt, "fresh" ∷ [])))
success_means_all_example =
    success_means_all items flat_tables interpreter cluster writes messaging files cleaners keys
      "now" (tidy delete "unused" [] "") ("stale" ∷ "fresh" ∷ []) ("fresh" ∷ []) deleted_stale

delete_stage_example :
    (ps : List (ResourceResult Item)) × (r : Outcome (Unit {0})) × (middle : List String) × Ran
      (λ x v. writes.delete x.resource (delete_options none) v)
      stale_only
      ("stale" ∷ "fresh" ∷ [])
      ps
      r
      middle
    × (process_cleaner items flat_tables interpreter cluster writes messaging files cleaners keys
          "now"
          (tidy delete "unused" [] "")
          ("stale" ∷ "fresh" ∷ [])
        ≡ conclude items flat_tables interpreter cluster writes messaging files cleaners keys "now"
            (tidy delete "unused" [] "")
            (record { processed = ps; outcome = r; world = middle }))
delete_stage_example =
    delete_stage items flat_tables interpreter cluster writes messaging files cleaners keys "now"
      (tidy delete "unused" [] "") stale_only ("stale" ∷ "fresh" ∷ []) refl selected_stale
