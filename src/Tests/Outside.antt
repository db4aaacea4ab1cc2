-- ===== src/Tests/Outside.antt =====
-- Messaging services, files and cleaners for the runs of the executor; the world is a list of names,
-- to which a message or a file adds its own.
use k8s_cleaner.Common.{
  String, true, none, some, List, [], ◌∷◌, contains, ok, err, errorf, ◌==◌, if◌then◌else◌,
}
use k8s_cleaner.Common.Int.{pos}
use k8s_cleaner.Api.{Cleaner, Action, Notification, delete, cleaner_report, slack, teams}
use k8s_cleaner.Executor.Services.{found, missing, Messaging, Files, Cleaners}
use k8s_cleaner.Executor.Secrets.{SecretKeys}
use k8s_cleaner.Tests.World.{Item, selector}

abbrev pub keys : SecretKeys
keys = record {
  slack_token = "SLACK_TOKEN";
  slack_channel_id = "SLACK_CHANNEL_ID";
  teams_webhook_url = "TEAMS_WEBHOOK_URL";
  discord_token = "DISCORD_TOKEN";
  discord_channel_id = "DISCORD_CHANNEL_ID";
  webex_token = "WEBEX_TOKEN";
  webex_room_id = "WEBEX_ROOM_ID";
}

-- One secret holds a webhook for Teams, to which no message can be sent.
abbrev pub messaging : Messaging (List String)
messaging = record {
  Report = Unit;
  get_report = λ name w. if contains w name then found tt else missing (errorf "not found");
  create_report = λ name spec w. (ok tt, name ∷ w);
  update_report = λ report spec w. (ok tt, w);
  get_secret_data = λ namespace name w. ok (some (("TEAMS_WEBHOOK_URL", "https://hook") ∷ []));
  marshal = λ spec. ok "report";
  post_message = λ token channel message text w. (ok tt, "slack" ∷ w);
  validate_webhook = λ url. true;
  TeamsMessage = String;
  new_simple_message = λ text title. ok title;
  send = λ url message w. (err (errorf "timeout"), w);
  Session = Unit;
  new_session = λ token. ok tt;
  Reader = Unit;
  send_complex = λ session channel message reader w. (ok tt, w);
  has_webex_client = true;
  create_message = λ token room message reader w. (ok tt, w);
  Mailer = Unit;
  new_mailer = λ n w. err (errorf "no server");
  send_mail = λ mailer message text w. (ok tt, w);
  File = Unit;
  create_temp = λ w. (ok tt, w);
  write = λ file text w. (ok tt, w);
  open_file = λ file w. ok tt;
  remove = λ file w. w;
}

abbrev pub files : Files Item (List String)
files = record {
  not_exist = λ path w. if path == "/store" then none else some (errorf "no such directory");
  join = λ parts. elim parts [ [] ↦ "" | part ∷ rest ↦ part ];
  set_resource_version = λ v x. x;
  object_kinds = λ x. ok [];
  set_group_version_kind = λ gvk x. x;
  to_yaml = λ x. ok x.name;
  accessor = λ x. ok tt;
  mkdir_all = λ path w. (ok tt, w);
  open_for_writing = λ path w. (err (errorf "disk full"), w);
  write_file = λ path text w. (ok tt, text ∷ w);
}

-- A cleaner over the namespaces that are labelled as test, with the given action and script.
abbrev pub tidy : Action → String → List Notification → String → Cleaner
tidy action script notifications path = record {
  name = "tidy";
  finalizers = [];
  creation_timestamp = pos 0;
  deletion_timestamp = none;
  spec = record {
    resource_policy_set = record {
      resource_selectors = selector "test" script ∷ [];
      aggregated_selection = "";
    };
    action = action;
    delete_options = none;
    transform = "";
    schedule = "* * * * *";
    starting_deadline_seconds = none;
    notifications = notifications;
    store_resource_path = path;
  };
  status = record { next_schedule_time = none; last_run_time = none; failure_message = none };
}

abbrev pub by_report : Notification
by_report = record { name = "report"; type = cleaner_report; notification_ref = none }

abbrev pub by_teams : Notification
by_teams = record {
  name = "teams";
  type = teams;
  notification_ref =
      some (record { namespace = "default"; name = "teams"; kind = "Secret"; api_version = "v1" });
}

abbrev pub by_slack : Notification
by_slack = record { name = "slack"; type = slack; notification_ref = none }

abbrev pub broken : Cleaner
broken = tidy delete "does not load" [] ""

abbrev pub cleaners : Cleaners (List String)
cleaners = record {
  get_cleaner = λ name w. if name == "broken" then found broken else missing (errorf "not found");
}
