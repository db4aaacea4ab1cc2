-- ===== src/Executor/Notify/Delivery.antt =====
-- In which order notifications are sent, and which failures are reported.
use k8s_cleaner.Common.{
  String, ◌<>◌, Bool, true, false, ◌≡◌, ◌≢◌, refl, List, [], ◌∷◌, GoError, Outcome, ok, err, panic,
}
use k8s_cleaner.Common.Effects.{Effect, continue}
use k8s_cleaner.Api.{Cleaner, Notification, ReportSpec}
use k8s_cleaner.Executor.Cluster.{Objects}
use k8s_cleaner.Executor.Scripts.{ResourceResult}
use k8s_cleaner.Executor.Services.{Messaging}
use k8s_cleaner.Executor.Notify.{
  generate_report_spec, send_teams_notification, send_notification, deliver, send_notifications,
}
use k8s_cleaner.Executor.Secrets.{SecretKeys, get_teams_info}

-- `Delivered each ns w o w'`: handling the notifications `ns` in order from the world `w` ended with
-- `o` in the world `w'`, where only the last one that was handled may have failed.
pub data Delivered {World : Type 0} (each : Notification → Effect World (Unit {0}))
    : List Notification → World → Outcome (Unit {0}) → World → Type 0 where
  all_sent : {w : World} → Delivered each [] w (ok tt) w
  sent :
      {n : Notification} {ns : List Notification} {w w' w'' : World} {o : Outcome (Unit {0})}
      {u : Unit {0}}
      → each n w ≡ (ok u, w')
      → Delivered each ns w' o w''
      → Delivered each (n ∷ ns) w o w''
  refused :
      {n : Notification} {ns : List Notification} {w w' : World} {e : GoError}
      → each n w ≡ (err e, w')
      → Delivered each (n ∷ ns) w (err e) w'
  crashed :
      {n : Notification} {ns : List Notification} {w w' : World}
      → each n w ≡ (panic, w')
      → Delivered each (n ∷ ns) w panic w'

module _ {World : Type 0} (s : Messaging World) where
  open s use {marshal, validate_webhook, TeamsMessage, new_simple_message, send}

  deliver-cons :
      (each : Notification → Effect World (Unit {0})) (n : Notification) (ns : List Notification)
      (w : World) (r : Outcome (Unit {0}) × World)
      → each n w ≡ r
      → ((w' : World) → Delivered each ns w' (deliver s each ns w').0 (deliver s each ns w').1)
      → let d = continue r (λ _. deliver s each ns) in Delivered each (n ∷ ns) w d.0 d.1
  deliver-cons each n ns w (ok u, w') e rest = sent e (rest w')
  deliver-cons each n ns w (err x, w') e rest = refused e
  deliver-cons each n ns w (panic, w') e rest = crashed e

  deliver-Delivered :
      (each : Notification → Effect World (Unit {0})) (ns : List Notification) (w : World)
      → Delivered each ns w (deliver s each ns w).0 (deliver s each ns w).1
  unfolding deliver
  deliver-Delivered each [] w = all_sent
  deliver-Delivered each (n ∷ ns) w =
      deliver-cons each n ns w (each n w) refl (deliver-Delivered each ns)

  -- `sendNotifications` handles the notifications of the cleaner in order, each with the one report
  -- on the processed resources, and stops at the first one that fails, whose error it returns.
  pub send_notifications-Delivered :
      (o : Objects) (keys : SecretKeys) (stamp : String)
      (resources : List (ResourceResult (Objects.Obj o))) (cleaner : Cleaner) (w : World)
      → let d = send_notifications s o keys stamp resources cleaner w in
        Delivered
          (send_notification s keys cleaner
            (generate_report_spec o stamp resources cleaner)
            ("This report has been generated by k8s-cleaner for instance: " <> cleaner.name))
          cleaner.spec.notifications
          w
          d.0
          d.1
  unfolding send_notifications
  send_notifications-Delivered o keys stamp resources cleaner w = deliver-Delivered _ _ w

  -- Once the webhook is read from the secret and the message is made, the answer of
  -- `sendTeamsNotification` is never an error: neither when the webhook is not valid nor when the
  -- message could not be sent.
  pub send_teams_notification-no_error :
      (keys : SecretKeys) (report : ReportSpec) (message : String) (n : Notification) (w : World)
      (url text : String) (m : TeamsMessage) (e : GoError)
      → get_teams_info s keys.teams_webhook_url n w ≡ ok url
      → marshal report ≡ ok text
      → new_simple_message text message ≡ ok m
      → (send_teams_notification s keys report message n w).0 ≢ err e
  unfolding send_teams_notification
  send_teams_notification-no_error keys report message n w url text m e i t c =
      go (validate_webhook url) refl (send url m w) refl
    where
      go :
          (valid : Bool) (v : validate_webhook url ≡ valid) (r : Outcome (Unit {0}) × World)
          → send url m w ≡ r
          → (send_teams_notification s keys report message n w).0 ≢ err e
      go true v (ok u, w') f = rw (i, v, t, c, f, send_teams_notification) (λ h. cc)
      go true v (err x, w') f = rw (i, v, t, c, f, send_teams_notification) (λ h. cc)
      go true v (panic, w') f = rw (i, v, t, c, f, send_teams_notification) (λ h. cc)
      go false v r f = rw (i, v, send_teams_notification) (λ h. cc)
