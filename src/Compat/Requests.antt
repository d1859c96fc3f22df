-- ===== src/Compat/Requests.antt =====
-- The requests of src/compat/v0_3/translate/requests.ts, and the lists of push notification configs.
pub mod RoundTrip
use package.a2a_js.Prelude.{
  ℤ, pos, String, Bool, true, not, Option, none, some, List, [], map, or_else, truthy,
  if◌then◌else◌,
}
use mathlib.Core.Option
use package.a2a_js.Types.{
  Message, Task, StreamResponse, task_response, message_response, status_response,
  artifact_response, SendMessageConfiguration, SendMessageRequest, GetTaskRequest,
  CancelTaskRequest, SubscribeToTaskRequest, TaskPushNotificationConfig, PushConfigRequest,
  ListPushConfigsRequest, ListPushConfigsResponse,
}
use package.a2a_js.Errors.{Result, ok, err, ◌>>=◌, a2a_error, request_malformed}
use package.a2a_js.Result.{SendResult, message_result, task_result}
use package.a2a_js.Compat.Legacy.{
  LegacyMessage, LegacyTask, LegacyMessageSendConfiguration, LegacyMessageSendParams,
  LegacyTaskQueryParams, LegacyTaskIdParams, LegacyConfigParams, LegacyTaskPushNotificationConfig,
  RequestId, LegacyRequest, LegacyResponse, error_response, success_response, LegacyStreamResult,
  legacy_message_result, legacy_task_result, legacy_status_result, legacy_artifact_result,
}
use package.a2a_js.Compat.Parts.{Base64, non_empty}
use package.a2a_js.Compat.Messages.{to_core_message, to_compat_message}
use package.a2a_js.Compat.Tasks.{
  to_core_task, to_compat_task, to_core_task_status_update_event,
  to_compat_task_status_update_event, to_core_task_artifact_update_event,
  to_compat_task_artifact_update_event,
}
use package.a2a_js.Compat.Push.{
  to_core_push_notification_config, to_compat_push_notification_config,
  to_core_task_push_notification_config, to_compat_task_push_notification_config,
}

-- `blocking === undefined ? true : !blocking`.
abbrev returns_at_once : Option Bool → Bool
returns_at_once none = true
returns_at_once (some b) = not b

unfoldable pub to_core_send_message_configuration :
    LegacyMessageSendConfiguration → SendMessageConfiguration
to_core_send_message_configuration c = record {
  accepted_output_modes = or_else c.accepted_output_modes [];
  task_push_notification_config =
      Option.map (λ p. to_core_push_notification_config p "") c.push_notification_config;
  history_length = c.history_length;
  return_immediately = returns_at_once c.blocking;
}

unfoldable pub to_compat_send_message_configuration :
    SendMessageConfiguration → LegacyMessageSendConfiguration
to_compat_send_message_configuration c = record {
  accepted_output_modes = some c.accepted_output_modes;
  blocking = some (not c.return_immediately);
  history_length = c.history_length;
  push_notification_config =
      Option.map to_compat_push_notification_config c.task_push_notification_config;
}

abbrev pub request_of {ℓ} : {P : Type ℓ} → RequestId → String → P → LegacyRequest P
request_of id method params = record { id = id; method = method; params = params }

unfoldable pub to_core_get_task_request :
    LegacyRequest LegacyTaskQueryParams → String → GetTaskRequest
to_core_get_task_request r tenant = record {
  tenant = tenant;
  id = r.params.id;
  history_length = r.params.history_length;
}

unfoldable pub to_compat_get_task_request :
    GetTaskRequest → RequestId → LegacyRequest LegacyTaskQueryParams
to_compat_get_task_request q id =
    request_of id "tasks/get" (record { id = q.id; history_length = q.history_length })

unfoldable pub to_core_cancel_task_request :
    LegacyRequest LegacyTaskIdParams → String → CancelTaskRequest
to_core_cancel_task_request r tenant = record {
  tenant = tenant;
  id = r.params.id;
  metadata = r.params.metadata;
}

unfoldable pub to_compat_cancel_task_request :
    CancelTaskRequest → RequestId → LegacyRequest LegacyTaskIdParams
to_compat_cancel_task_request q id =
    request_of id "tasks/cancel" (record { id = q.id; metadata = q.metadata })

unfoldable pub to_core_subscribe_to_task_request :
    LegacyRequest LegacyTaskIdParams → String → SubscribeToTaskRequest
to_core_subscribe_to_task_request r tenant = record { tenant = tenant; id = r.params.id }

unfoldable pub to_compat_task_resubscription_request :
    SubscribeToTaskRequest → RequestId → LegacyRequest LegacyTaskIdParams
to_compat_task_resubscription_request q id =
    request_of id "tasks/resubscribe" (record { id = q.id; metadata = none })

unfoldable pub to_core_create_push_config_request :
    LegacyRequest LegacyTaskPushNotificationConfig → String → TaskPushNotificationConfig
to_core_create_push_config_request r tenant = to_core_task_push_notification_config r.params tenant

unfoldable pub to_compat_set_push_config_request :
    TaskPushNotificationConfig → RequestId → LegacyRequest LegacyTaskPushNotificationConfig
to_compat_set_push_config_request c id =
    request_of id "tasks/pushNotificationConfig/set" (to_compat_task_push_notification_config c)

unfoldable pub to_core_get_push_config_request :
    LegacyRequest LegacyConfigParams → String → PushConfigRequest
to_core_get_push_config_request r tenant = record {
  tenant = tenant;
  task_id = r.params.id;
  id = or_else r.params.push_notification_config_id "";
}

unfoldable pub to_compat_get_push_config_request :
    PushConfigRequest → RequestId → LegacyRequest LegacyConfigParams
to_compat_get_push_config_request q id =
    request_of id "tasks/pushNotificationConfig/get"
      (record { id = q.task_id; push_notification_config_id = non_empty q.id })

-- The parameters of a deletion always name a config.
unfoldable pub to_core_delete_push_config_request :
    LegacyRequest LegacyConfigParams → String → PushConfigRequest
to_core_delete_push_config_request r tenant = record {
  tenant = tenant;
  task_id = r.params.id;
  id = or_else r.params.push_notification_config_id "";
}

unfoldable pub to_compat_delete_push_config_request :
    PushConfigRequest → RequestId → LegacyRequest LegacyConfigParams
to_compat_delete_push_config_request q id =
    request_of id "tasks/pushNotificationConfig/delete"
      (record { id = q.task_id; push_notification_config_id = some q.id })

unfoldable pub to_core_list_push_configs_request :
    LegacyRequest LegacyTaskIdParams → String → ListPushConfigsRequest
to_core_list_push_configs_request r tenant = record {
  tenant = tenant;
  task_id = r.params.id;
  page_size = pos 0;
  page_token = "";
}

unfoldable pub to_compat_list_push_configs_request :
    ListPushConfigsRequest → RequestId → LegacyRequest LegacyTaskIdParams
to_compat_list_push_configs_request q id =
    request_of id "tasks/pushNotificationConfig/list" (record { id = q.task_id; metadata = none })

unfoldable pub to_core_list_push_configs_response :
    List LegacyTaskPushNotificationConfig → ListPushConfigsResponse
to_core_list_push_configs_response entries = record {
  configs = map (λ e. to_core_task_push_notification_config e "") entries;
  next_page_token = "";
}

unfoldable pub to_compat_list_push_configs_response :
    ListPushConfigsResponse → RequestId → LegacyResponse (List LegacyTaskPushNotificationConfig)
to_compat_list_push_configs_response r id =
    success_response id (map to_compat_task_push_notification_config r.configs)

abbrev pub params_of : SendMessageRequest → LegacyMessage → LegacyMessageSendParams
params_of q message = record {
  message = message;
  configuration = Option.map to_compat_send_message_configuration q.configuration;
  metadata = q.metadata;
}

module _ (b64 : Base64) where
  unfoldable pub to_core_send_message_request :
      LegacyRequest LegacyMessageSendParams → String → Result SendMessageRequest
  to_core_send_message_request r tenant = do
    message ← to_core_message b64 r.params.message
    ok (record {
      tenant = tenant;
      message = some message;
      configuration = Option.map to_core_send_message_configuration r.params.configuration;
      metadata = r.params.metadata;
    })

  -- `to_compat_send_message_request` and, with its method, `to_compat_send_streaming_message_request`.
  abbrev compat_send_with :
      String
      → SendMessageRequest
      → Option Message
      → RequestId
      → Result (LegacyRequest LegacyMessageSendParams)
  compat_send_with method q none id = err (request_malformed "SendMessageRequest missing message")
  compat_send_with method q (some m) id = do
    message ← to_compat_message b64 m
    ok (request_of id method (params_of q message))

  unfoldable pub to_compat_send_message_request :
      SendMessageRequest → RequestId → Result (LegacyRequest LegacyMessageSendParams)
  to_compat_send_message_request q id = compat_send_with "message/send" q q.message id

  unfoldable pub to_compat_send_streaming_message_request :
      SendMessageRequest → RequestId → Result (LegacyRequest LegacyMessageSendParams)
  unfolding to_compat_send_message_request
  to_compat_send_streaming_message_request q id = do
    inner ← to_compat_send_message_request q id
    ok (record inner { method = "message/stream" })
