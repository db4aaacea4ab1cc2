-- ===== src/Executor/Notify.antt =====
-- internal/controller/executor/notifications.go: the report and the notifications of a cleaner. The
-- clients of the services are parameters; logging is left out.
pub mod Delivery
use k8s_cleaner.Common.{
  String, ◌<>◌, Bool, true, false, Option, none, some, List, [], ◌∷◌, map, Assoc, lookup, GoError,
  errorf, wrapf, Outcome, ok, err, panic, ◌==◌, if◌then◌else◌, not,
}
use k8s_cleaner.Common.Effects.{Effect, continue, ◌>>=◌, pure_call, finally, drop_error}
use k8s_cleaner.Api.{
  Cleaner, Notification, NotificationType, ObjectReference, ReportSpec, ResourceInfo,
  cleaner_report, slack, webex, discord, teams, smtp, unregistered,
}
use k8s_cleaner.Executor.Cluster.{Objects}
use k8s_cleaner.Executor.Scripts.{ResourceResult}
use k8s_cleaner.Executor.Secrets.{
  SecretKeys, must_reference, secret_field, get_secret, get_pair, get_teams_info,
}
use k8s_cleaner.Executor.Services.{Got, found, missing, unreadable, Messaging}

-- `generateReportSpec`; `stamp` is the text of the time.
unfoldable pub resource_info :
    (o : Objects) → String → ResourceResult (Objects.Obj o) → ResourceInfo
resource_info o stamp r = record {
  resource = record {
    namespace = Objects.get_namespace o r.resource;
    name = Objects.get_name o r.resource;
    kind = Objects.get_kind o r.resource;
    api_version = Objects.get_api_version o r.resource;
  };
  message = r.message <> (". time: " <> stamp);
}

unfoldable pub generate_report_spec :
    (o : Objects) → String → List (ResourceResult (Objects.Obj o)) → Cleaner → ReportSpec
unfolding resource_info
generate_report_spec o stamp resources cleaner = record {
  resource_info = map (resource_info o stamp) resources;
  action = cleaner.spec.action;
}

-- `fmt.Errorf` around an error.
unfoldable pub wrap_error : {A : Type 0} → String → Outcome A → Outcome A
wrap_error prefix (ok a) = ok a
wrap_error prefix (err e) = err (wrapf prefix e)
wrap_error prefix panic = panic

module _ {World : Type 0} (s : Messaging World) where
  open s use {
    get_report, create_report, update_report, get_secret_data, marshal, post_message,
    validate_webhook, new_simple_message, send, new_session, Reader, send_complex, has_webex_client,
    create_message, new_mailer, send_mail, create_temp, write, open_file, remove,
  }

  -- `createReportInstance`
  unfoldable pub create_report_instance : Cleaner → ReportSpec → Effect World (Unit {0})
  create_report_instance cleaner report w = elim (get_report cleaner.name w) [
    | found old ↦ update_report old report w
    | missing e ↦ create_report cleaner.name report w
    | unreadable e ↦ (err e, w)
  ]

  -- `sendSlackNotification`
  unfoldable pub send_slack_notification :
      SecretKeys → ReportSpec → String → Notification → Effect World (Unit {0})
  unfolding get_pair
  send_slack_notification keys report message n = do
    info ← λ w. (
      get_pair s keys.slack_token "secret does not contain slack token" keys.slack_channel_id
          "secret does not contain slack channelID" n w,
      w,
    )
    text ← pure_call (marshal report)
    post_message info.0 info.1 message text

  -- `sendTeamsNotification`: where the webhook is not valid or `Send` fails, `err` is returned,
  -- which is nil at that point.
  unfoldable pub send_teams_notification :
      SecretKeys → ReportSpec → String → Notification → Effect World (Unit {0})
  unfolding get_teams_info
  send_teams_notification keys report message n = do
    url ← λ w. (get_teams_info s keys.teams_webhook_url n w, w)
    (if not (validate_webhook url) then pure_call (ok tt) else do
      text ← pure_call (marshal report)
      teams_message ← pure_call (new_simple_message text message)
      drop_error (send url teams_message))

  -- The temporary file of `sendDiscordNotification` and `sendWebexNotification`, with the text for an
  -- error of opening it, and what is sent with a reader of it.
  unfoldable pub with_temp_file :
      String → String → (Reader → Effect World (Unit {0})) → Effect World (Unit {0})
  unfolding wrap_error
  with_temp_file prefix text use_reader = do
    file ← create_temp
    finally
        (do
          _ ← write file text
          reader ← λ w. (wrap_error prefix (open_file file w), w)
          use_reader reader)
        (remove file)

  -- `sendDiscordNotification`
  unfoldable pub send_discord_notification :
      SecretKeys → ReportSpec → String → Notification → Effect World (Unit {0})
  unfolding get_pair with_temp_file
  send_discord_notification keys report message n = do
    info ← λ w. (
      get_pair s keys.discord_token "secret does not contain discord token" keys.discord_channel_id
          "secret does not contain discord channel id" n w,
      w,
    )
    session ← pure_call (new_session ("Bot " <> info.0))
    text ← pure_call (marshal report)
    with_temp_file "error opening file" text (send_complex session info.1 message)

  -- `sendWebexNotification`
  unfoldable pub send_webex_notification :
      SecretKeys → ReportSpec → String → Notification → Effect World (Unit {0})
  unfolding get_pair with_temp_file
  send_webex_notification keys report message n = do
    info ← λ w. (
      get_pair s keys.webex_token "secret does not contain webex token" keys.webex_room_id
          "secret does not contain webex room" n w,
      w,
    )
    (if not has_webex_client
        then pure_call (err (errorf "failed to get webexClient client"))
        else do
          text ← pure_call (marshal report)
          with_temp_file "Error opening file" text (create_message info.0 info.1 message))

  -- `sendSmtpNotification`: a report that cannot be marshalled is sent as the empty text.
  unfoldable pub text_or_empty : Outcome String → Outcome String
  text_or_empty (ok text) = ok text
  text_or_empty (err e) = ok ""
  text_or_empty panic = panic

  unfoldable pub send_smtp_notification :
      ReportSpec → String → Notification → Effect World (Unit {0})
  unfolding text_or_empty
  send_smtp_notification report message n = do
    mailer ← λ w. (new_mailer n w, w)
    text ← pure_call (text_or_empty (marshal report))
    send_mail mailer message text

  -- The switch of `sendNotifications`.
  unfoldable pub send_notification :
      SecretKeys → Cleaner → ReportSpec → String → Notification → Effect World (Unit {0})
  unfolding create_report_instance send_slack_notification send_webex_notification
      send_discord_notification send_teams_notification send_smtp_notification
  send_notification keys cleaner report message n = elim n.type [
    | cleaner_report ↦ create_report_instance cleaner report
    | slack ↦ send_slack_notification keys report message n
    | webex ↦ send_webex_notification keys report message n
    | discord ↦ send_discord_notification keys report message n
    | teams ↦ send_teams_notification keys report message n
    | smtp ↦ send_smtp_notification report message n
    | unregistered t ↦ pure_call panic
  ]

  -- The loop of `sendNotifications`, over what is done for one notification.
  unfoldable pub deliver :
      (Notification → Effect World (Unit {0})) → List Notification → Effect World (Unit {0})
  deliver each [] = pure_call (ok tt)
  deliver each (n ∷ ns) = let rest = deliver each ns in do _ ← each n; rest

  -- `sendNotifications`
  unfoldable pub send_notifications :
      (o : Objects)
      → SecretKeys
      → String
      → List (ResourceResult (Objects.Obj o))
      → Cleaner
      → Effect World (Unit {0})
  unfolding deliver send_notification generate_report_spec
  send_notifications o keys stamp resources cleaner =
      deliver
        (send_notification keys cleaner (generate_report_spec o stamp resources cleaner)
          ("This report has been generated by k8s-cleaner for instance: " <> cleaner.name))
        cleaner.spec.notifications
