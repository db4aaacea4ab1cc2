-- ===== src/Executor/Secrets.antt =====
-- internal/controller/executor/notifications.go: `getSecret` and the functions that read its keys.
use k8s_cleaner.Common.{
  String, none, some, Assoc, lookup, GoError, errorf, Outcome, ok, err, panic, ◌==◌, if◌then◌else◌,
  not,
}
use k8s_cleaner.Api.{Notification}
use k8s_cleaner.Executor.Services.{Messaging}

-- The keys of the secrets, constants of libsveltos.
pub record SecretKeys : Type 0 where
  pub slack_token : String
  pub slack_channel_id : String
  pub teams_webhook_url : String
  pub discord_token : String
  pub discord_channel_id : String
  pub webex_token : String
  pub webex_room_id : String

-- The error of all the checks of `getSecret`.
abbrev pub must_reference : GoError
must_reference = errorf "notification must reference secret containing slack token/channel id"

-- One key of a secret.
unfoldable pub secret_field : String → String → Assoc String → Outcome String
secret_field key message secret = elim (lookup key secret) [
  | none ↦ err (errorf message)
  | some v ↦ ok v
]

module _ {World : Type 0} (s : Messaging World) where
  open s use {get_secret_data}

  -- `getSecret`: the data of the secret
  unfoldable pub get_secret : Notification → World → Outcome (Assoc String)
  get_secret n w = elim n.notification_ref [
    | none ↦ err must_reference
    | some ref ↦
        if not (ref.kind == "Secret")
        then err must_reference
        else if not (ref.api_version == "v1")
        then err must_reference
        else elim (get_secret_data ref.namespace ref.name w) [
          | err e ↦ err e
          | panic ↦ panic
          | ok none ↦ err must_reference
          | ok (some secret) ↦ ok secret
        ]
  ]

  -- `getSlackInfo`, `getDiscordInfo` and `getWebexInfo`, by their keys and messages
  unfoldable pub get_pair :
      String → String → String → String → Notification → World → Outcome (String × String)
  unfolding get_secret secret_field
  get_pair key message key' message' n w = elim (get_secret n w) [
    | err e ↦ err e
    | panic ↦ panic
    | ok secret ↦ elim (secret_field key message secret) [
      | err e ↦ err e
      | panic ↦ panic
      | ok v ↦ elim (secret_field key' message' secret) [
        | err e ↦ err e
        | panic ↦ panic
        | ok v' ↦ ok (v, v')
      ]
    ]
  ]

  -- `getTeamsInfo`
  unfoldable pub get_teams_info : String → Notification → World → Outcome String
  unfolding get_secret secret_field
  get_teams_info key n w = elim (get_secret n w) [
    | err e ↦ err e
    | panic ↦ panic
    | ok secret ↦ secret_field key "secret does not contain webhook URL" secret
  ]
