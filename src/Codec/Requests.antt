-- ===== src/Codec/Requests.antt =====
-- Push notification configs and the send request of src/types/pb/a2a.ts as JSON.
use package.a2a_js.Prelude.{String, Option, none, [], ◌∷◌, JsMap}
use package.a2a_js.Types.{
  Json, str, AuthenticationInfo, TaskPushNotificationConfig, SendMessageConfiguration,
  SendMessageRequest,
}
use package.a2a_js.Errors.{Result, ok, ◌>>=◌}
use package.a2a_js.Codec.Fields.{
  JsPlatform, MessageFns, to_json, from_json, first_set, read_text, read_option, read_list,
  read_struct, read_flag, text_entry, option_number_entry, struct_entry, list_entry, option_entry,
  flag_entry,
}
use package.a2a_js.Codec.Messages.{message_fns}

unfoldable pub authentication_entries : AuthenticationInfo → JsMap (Option Json)
authentication_entries x =
    ("scheme", text_entry x.scheme) ∷ ("credentials", text_entry x.credentials) ∷ []

module _ (js : JsPlatform) where
  open js use {string_of, number_of}

  unfoldable pub read_authentication : (String → Option Json) → Result AuthenticationInfo
  read_authentication at = do
    scheme ← read_text js (at "scheme") none
    credentials ← read_text js (at "credentials") none
    ok (record { scheme = scheme; credentials = credentials })

  abbrev pub authentication_fns : MessageFns AuthenticationInfo
  authentication_fns = record { entries = authentication_entries; read = read_authentication }

  unfoldable pub read_push_config : (String → Option Json) → Result TaskPushNotificationConfig
  read_push_config at = do
    tenant ← read_text js (at "tenant") none
    id ← read_text js (at "id") none
    task_id ← read_text js (at "taskId") (at "task_id")
    url ← read_text js (at "url") none
    token ← read_text js (at "token") none
    authentication ←
        read_option (from_json authentication_fns) (first_set (at "authentication") none)
    ok (record {
      tenant = tenant;
      id = id;
      task_id = task_id;
      url = url;
      token = token;
      authentication = authentication;
    })

  unfoldable pub push_config_entries : TaskPushNotificationConfig → JsMap (Option Json)
  push_config_entries x =
      ("tenant", text_entry x.tenant)
      ∷ ("id", text_entry x.id)
      ∷ ("taskId", text_entry x.task_id)
      ∷ ("url", text_entry x.url)
      ∷ ("token", text_entry x.token)
      ∷ ("authentication", option_entry (to_json authentication_fns) x.authentication)
      ∷ []

  abbrev pub push_config_fns : MessageFns TaskPushNotificationConfig
  push_config_fns = record { entries = push_config_entries; read = read_push_config }

  unfoldable pub read_configuration : (String → Option Json) → Result SendMessageConfiguration
  read_configuration at = do
    accepted_output_modes ←
        read_list string_of (at "acceptedOutputModes") (at "accepted_output_modes")
    task_push_notification_config ←
        read_option (from_json push_config_fns)
          (first_set (at "taskPushNotificationConfig") (at "task_push_notification_config"))
    history_length ← read_option number_of (first_set (at "historyLength") (at "history_length"))
    let return_immediately =
        read_flag js (first_set (at "returnImmediately") (at "return_immediately"))
    ok (record {
      accepted_output_modes = accepted_output_modes;
      task_push_notification_config = task_push_notification_config;
      history_length = history_length;
      return_immediately = return_immediately;
    })

  unfoldable pub configuration_entries : SendMessageConfiguration → JsMap (Option Json)
  configuration_entries x =
      ("acceptedOutputModes", list_entry str x.accepted_output_modes)
      ∷ (
        "taskPushNotificationConfig",
        option_entry (to_json push_config_fns) x.task_push_notification_config,
      )
      ∷ ("historyLength", option_number_entry js x.history_length)
      ∷ ("returnImmediately", flag_entry x.return_immediately)
      ∷ []

  abbrev pub configuration_fns : MessageFns SendMessageConfiguration
  configuration_fns = record { entries = configuration_entries; read = read_configuration }

  unfoldable pub read_send_request : (String → Option Json) → Result SendMessageRequest
  read_send_request at = do
    tenant ← read_text js (at "tenant") none
    message ← read_option (from_json (message_fns js)) (first_set (at "message") none)
    configuration ← read_option (from_json configuration_fns) (first_set (at "configuration") none)
    let metadata = read_struct js (at "metadata")
    ok (record {
      tenant = tenant;
      message = message;
      configuration = configuration;
      metadata = metadata;
    })

  unfoldable pub send_request_entries : SendMessageRequest → JsMap (Option Json)
  send_request_entries x =
      ("tenant", text_entry x.tenant)
      ∷ ("message", option_entry (to_json (message_fns js)) x.message)
      ∷ ("configuration", option_entry (to_json configuration_fns) x.configuration)
      ∷ ("metadata", struct_entry x.metadata)
      ∷ []

  abbrev pub send_request_fns : MessageFns SendMessageRequest
  send_request_fns = record { entries = send_request_entries; read = read_send_request }
