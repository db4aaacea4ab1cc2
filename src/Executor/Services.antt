-- ===== src/Executor/Services.antt =====
-- The libraries that the notifications, the files and the processing of a cleaner call: the client
-- of the cluster, those of the messaging services, encoding/json, yaml and the file system.
use k8s_cleaner.Common.{String, Bool, Option, List, Assoc, GoError, Outcome}
use k8s_cleaner.Common.Effects.{Effect}
use k8s_cleaner.Executor.Cluster.{GroupVersionKind}
use k8s_cleaner.Api.{Cleaner, Notification, ReportSpec}

-- What a `Get` of the cluster answers.
pub data Got (A : Type 0) : Type 0 where
  found : A → Got A
  missing : GoError → Got A
  unreadable : GoError → Got A

pub record Messaging (World : Type 0) : Type 1 where
  -- `k8sClient.Get`, `Create` and `Update` of a report; an update keeps the report's metadata
  pub Report : Type 0
  pub get_report : String → World → Got Report
  pub create_report : String → ReportSpec → Effect World (Unit {0})
  pub update_report : Report → ReportSpec → Effect World (Unit {0})
  -- `k8sClient.Get` of a secret: its data, which may be nil
  pub get_secret_data : String → String → World → Outcome (Option (Assoc String))
  pub marshal : ReportSpec → Outcome String
  -- `PostMessage` of a slack client with the token: channel, text and attachment
  pub post_message : String → String → String → String → Effect World (Unit {0})
  -- goteamsnotify: is the webhook valid; `NewSimpleMessage`; `Send`
  pub validate_webhook : String → Bool
  pub TeamsMessage : Type 0
  pub new_simple_message : String → String → Outcome TeamsMessage
  pub send : String → TeamsMessage → Effect World (Unit {0})
  -- `discordgo.New`, and `ChannelMessageSendComplex` with a file
  pub Session : Type 0
  pub new_session : String → Outcome Session
  pub Reader : Type 0
  pub send_complex : Session → String → String → Reader → Effect World (Unit {0})
  -- `webexteams.NewClient` gives a client or nil; `CreateMessage`: token, room, text and file
  pub has_webex_client : Bool
  pub create_message : String → String → String → Reader → Effect World (Unit {0})
  -- `NewMailer` and `SendMail`
  pub Mailer : Type 0
  pub new_mailer : Notification → World → Outcome Mailer
  pub send_mail : Mailer → String → String → Effect World (Unit {0})
  -- temporary files: `os.CreateTemp`, `Write`, `os.Open`, and `Close` with `os.Remove`
  pub File : Type 0
  pub create_temp : Effect World File
  pub write : File → String → Effect World (Unit {0})
  pub open_file : File → World → Outcome Reader
  pub remove : File → World → World

pub record Files (Obj World : Type 0) : Type 1 where
  -- `os.IsNotExist` of the error of `os.Stat`
  pub not_exist : String → World → Option GoError
  -- `filepath.Join`
  pub join : List String → String
  pub set_resource_version : String → Obj → Obj
  -- `scheme.ObjectKinds`, and `SetGroupVersionKind` of the object's kind
  pub object_kinds : Obj → Outcome (List GroupVersionKind)
  pub set_group_version_kind : GroupVersionKind → Obj → Obj
  -- `yaml.Marshal` of the content, and `apimeta.Accessor`
  pub to_yaml : Obj → Outcome String
  pub accessor : Obj → Outcome (Unit {0})
  -- `os.MkdirAll` of the directory of a path, `os.OpenFile` and `os.WriteFile`
  pub mkdir_all : String → Effect World (Unit {0})
  pub open_for_writing : String → Effect World (Unit {0})
  pub write_file : String → String → Effect World (Unit {0})

-- `k8sClient.Get` of a cleaner.
pub record Cleaners (World : Type 0) : Type 0 where
  pub get_cleaner : String → World → Got Cleaner
