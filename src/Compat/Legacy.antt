-- ===== src/Compat/Legacy.antt =====
-- The messages of version 0.3 (src/compat/v0_3/types/types.ts), as the translators handle them. A
-- discriminator `kind` is the constructor or the record itself. A role and a state are strings.
use package.a2a_js.Prelude.{ℤ, String, Bool, Option, List}
use package.a2a_js.Types.{Struct}

-- The interfaces `FileWithBytes` and `FileWithUri`, which tell each other apart by the key that is
-- there.
pub record LegacyFile : Type 0 where
  pub bytes : Option String
  pub uri : Option String
  pub mime_type : Option String
  pub name : Option String

-- `TextPart`, `FilePart` and `DataPart`, and a part of any other kind.
pub data LegacyPart : Type 0 where
  legacy_text : String → Option Struct → LegacyPart
  legacy_file : LegacyFile → Option Struct → LegacyPart
  legacy_data : Struct → Option Struct → LegacyPart
  legacy_other : String → LegacyPart

pub record LegacyMessage : Type 0 where
  pub message_id : String
  pub context_id : Option String
  pub task_id : Option String
  pub role : String
  pub parts : List LegacyPart
  pub metadata : Option Struct
  pub extensions : Option (List String)
  pub reference_task_ids : Option (List String)

pub record LegacyArtifact : Type 0 where
  pub artifact_id : String
  pub name : Option String
  pub description : Option String
  pub parts : List LegacyPart
  pub metadata : Option Struct
  pub extensions : Option (List String)

pub record LegacyTaskStatus : Type 0 where
  pub state : String
  pub message : Option LegacyMessage
  pub timestamp : Option String

pub record LegacyTask : Type 0 where
  pub id : String
  pub context_id : String
  pub status : LegacyTaskStatus
  pub history : Option (List LegacyMessage)
  pub artifacts : Option (List LegacyArtifact)
  pub metadata : Option Struct

pub record LegacyTaskStatusUpdateEvent : Type 0 where
  pub task_id : String
  pub context_id : String
  pub status : LegacyTaskStatus
  pub final : Bool
  pub metadata : Option Struct

pub record LegacyTaskArtifactUpdateEvent : Type 0 where
  pub task_id : String
  pub context_id : String
  pub artifact : LegacyArtifact
  pub append : Option Bool
  pub last_chunk : Option Bool
  pub metadata : Option Struct

pub record LegacyAuthenticationInfo : Type 0 where
  pub schemes : List String
  pub credentials : Option String

pub record LegacyPushNotificationConfig : Type 0 where
  pub url : String
  pub id : Option String
  pub token : Option String
  pub authentication : Option LegacyAuthenticationInfo

pub record LegacyTaskPushNotificationConfig : Type 0 where
  pub task_id : String
  pub push_notification_config : LegacyPushNotificationConfig

pub record LegacyMessageSendConfiguration : Type 0 where
  pub accepted_output_modes : Option (List String)
  pub blocking : Option Bool
  pub history_length : Option ℤ
  pub push_notification_config : Option LegacyPushNotificationConfig

pub record LegacyMessageSendParams : Type 0 where
  pub message : LegacyMessage
  pub configuration : Option LegacyMessageSendConfiguration
  pub metadata : Option Struct

-- The parameters of `tasks/get`, and those of a request that names a task.
pub record LegacyTaskQueryParams : Type 0 where
  pub id : String
  pub history_length : Option ℤ

pub record LegacyTaskIdParams : Type 0 where
  pub id : String
  pub metadata : Option Struct

-- The parameters of a request that names a task and may name one of its configs.
pub record LegacyConfigParams : Type 0 where
  pub id : String
  pub push_notification_config_id : Option String

-- The identifier of a request; a number stands as its literal.
pub data RequestId : Type 0 where
  string_id : String → RequestId
  number_id : String → RequestId
  null_id : RequestId

pub record LegacyRequest {ℓ} (P : Type ℓ) : Type ℓ where
  pub id : RequestId
  pub method : String
  pub params : P

pub data LegacyResponse {ℓ} (A : Type ℓ) : Type ℓ where
  error_response : LegacyResponse A
  success_response : RequestId → A → LegacyResponse A

pub data LegacyStreamResult : Type 0 where
  legacy_message_result : LegacyMessage → LegacyStreamResult
  legacy_task_result : LegacyTask → LegacyStreamResult
  legacy_status_result : LegacyTaskStatusUpdateEvent → LegacyStreamResult
  legacy_artifact_result : LegacyTaskArtifactUpdateEvent → LegacyStreamResult
