-- ===== src/Types/Requests.antt =====
-- The request and response messages of src/types/pb/a2a.ts.
use package.a2a_js.Prelude.{ℤ, String, Bool, Option, List}
use package.a2a_js.Types.Values.{Struct}
use package.a2a_js.Types.Messages.{Message}
use package.a2a_js.Types.Tasks.{TaskState, Task}

pub record AuthenticationInfo : Type 0 where
  pub scheme : String
  pub credentials : String

pub record TaskPushNotificationConfig : Type 0 where
  pub tenant : String
  pub id : String
  pub task_id : String
  pub url : String
  pub token : String
  pub authentication : Option AuthenticationInfo

pub record SendMessageConfiguration : Type 0 where
  pub accepted_output_modes : List String
  pub task_push_notification_config : Option TaskPushNotificationConfig
  pub history_length : Option ℤ
  pub return_immediately : Bool

pub record SendMessageRequest : Type 0 where
  pub tenant : String
  pub message : Option Message
  pub configuration : Option SendMessageConfiguration
  pub metadata : Option Struct

pub record GetTaskRequest : Type 0 where
  pub tenant : String
  pub id : String
  pub history_length : Option ℤ

pub record ListTasksRequest : Type 0 where
  pub tenant : String
  pub context_id : String
  pub status : TaskState
  pub page_size : Option ℤ
  pub page_token : String
  pub history_length : Option ℤ
  pub status_timestamp_after : Option String
  pub include_artifacts : Option Bool

pub record ListTasksResponse : Type 0 where
  pub tasks : List Task
  pub next_page_token : String
  pub page_size : ℤ
  pub total_size : ℤ

pub record CancelTaskRequest : Type 0 where
  pub tenant : String
  pub id : String
  pub metadata : Option Struct

-- The tenant, task and config that a request for one push notification config names.
pub record PushConfigRequest : Type 0 where
  pub tenant : String
  pub task_id : String
  pub id : String

pub record ListPushConfigsResponse : Type 0 where
  pub configs : List TaskPushNotificationConfig
  pub next_page_token : String

pub record SubscribeToTaskRequest : Type 0 where
  pub tenant : String
  pub id : String

pub record ListPushConfigsRequest : Type 0 where
  pub tenant : String
  pub task_id : String
  pub page_size : ℤ
  pub page_token : String

pub record GetExtendedAgentCardRequest : Type 0 where
  pub tenant : String
