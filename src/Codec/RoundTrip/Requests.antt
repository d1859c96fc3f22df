-- ===== src/Codec/RoundTrip/Requests.antt =====
-- Push notification configs and requests read from the JSON form that was written.
use package.a2a_js.Prelude.{refl, ◌∙◌}
use package.a2a_js.Types.{
  AuthenticationInfo, TaskPushNotificationConfig, SendMessageConfiguration, SendMessageRequest,
  GetTaskRequest, ListTasksRequest, CancelTaskRequest, PushConfigRequest, SubscribeToTaskRequest,
  ListPushConfigsRequest, GetExtendedAgentCardRequest,
}
use package.a2a_js.Codec.Fields.{JsPlatform, IsFaithful}
use package.a2a_js.Codec.Messages.{message_fns}
use package.a2a_js.Codec.Requests.{
  read_authentication, authentication_entries, authentication_fns, read_push_config,
  push_config_entries, push_config_fns, read_configuration, configuration_entries,
  configuration_fns, read_send_request, send_request_entries, send_request_fns,
}
use package.a2a_js.Codec.Queries.{
  read_card_request, card_request_entries, card_request_fns, read_get_request, get_request_entries,
  get_request_fns, read_list_request, list_request_entries, list_request_fns, read_cancel_request,
  cancel_request_entries, cancel_request_fns, read_push_request, push_request_entries,
  push_request_fns, read_subscribe_request, subscribe_request_entries, subscribe_request_fns,
  read_list_push_request, list_push_request_entries, list_push_request_fns,
}
use package.a2a_js.Codec.RoundTrip.{
  ReadsBack, OnSome, from_json-to_json, read_option-option_entry, read_option-any,
  read_struct-struct_entry, read_text-text_entry, read_number-number_entry,
  read_option-option_number_entry, read_option-option_text, read_flag-flag_entry,
  read_option_flag-option_entry, read_list-texts,
}
use package.a2a_js.Codec.RoundTrip.Messages.{from_json-to_json_message}
use package.a2a_js.Codec.RoundTrip.Tasks.{HasReadableParts, read_state-state_entry}

module _ (js : JsPlatform) (faithful : IsFaithful js) where
  from_json-to_json_authentication : (x : AuthenticationInfo) → ReadsBack (authentication_fns js) x
  unfolding read_authentication authentication_entries
  from_json-to_json_authentication x =
      from_json-to_json (authentication_fns js) x refl
      ∙ simp (read_text-text_entry js faithful) refl

  -- A push notification config is read back from its JSON form.
  pub from_json-to_json_push_config :
      (x : TaskPushNotificationConfig) → ReadsBack (push_config_fns js) x
  unfolding read_push_config push_config_entries
  from_json-to_json_push_config x =
      from_json-to_json (push_config_fns js) x refl
      ∙ simp
          (
            read_text-text_entry js faithful,
            read_option-any (authentication_fns js) x.authentication
                from_json-to_json_authentication,
          )
          refl

  from_json-to_json_configuration :
      (x : SendMessageConfiguration) → ReadsBack (configuration_fns js) x
  unfolding read_configuration configuration_entries
  from_json-to_json_configuration x =
      from_json-to_json (configuration_fns js) x refl
      ∙ simp
          (
            read_list-texts js faithful,
            read_option-option_number_entry js faithful,
            read_flag-flag_entry js faithful,
            read_option-any (push_config_fns js) x.task_push_notification_config
                from_json-to_json_push_config,
          )
          refl

  -- A send request whose data parts all have a value other than `null` is read back from its JSON
  -- form.
  pub from_json-to_json_send_request :
      (x : SendMessageRequest)
      → OnSome HasReadableParts x.message
      → ReadsBack (send_request_fns js) x
  unfolding read_send_request send_request_entries
  from_json-to_json_send_request x h =
      from_json-to_json (send_request_fns js) x refl
      ∙ simp
          (
            read_text-text_entry js faithful,
            read_struct-struct_entry js,
            read_option-option_entry (message_fns js) HasReadableParts x.message
                (from_json-to_json_message js faithful) h,
            read_option-any (configuration_fns js) x.configuration from_json-to_json_configuration,
          )
          refl

  pub from_json-to_json_get_request : (x : GetTaskRequest) → ReadsBack (get_request_fns js) x
  unfolding read_get_request get_request_entries
  from_json-to_json_get_request x =
      from_json-to_json (get_request_fns js) x refl
      ∙ simp (read_text-text_entry js faithful, read_option-option_number_entry js faithful) refl

  pub from_json-to_json_list_request : (x : ListTasksRequest) → ReadsBack (list_request_fns js) x
  unfolding read_list_request list_request_entries
  from_json-to_json_list_request x =
      from_json-to_json (list_request_fns js) x refl
      ∙ simp
          (
            read_text-text_entry js faithful,
            read_option-option_number_entry js faithful,
            read_state-state_entry,
            read_option-option_text js faithful,
            read_option_flag-option_entry js faithful,
          )
          refl

  pub from_json-to_json_cancel_request :
      (x : CancelTaskRequest) → ReadsBack (cancel_request_fns js) x
  unfolding read_cancel_request cancel_request_entries
  from_json-to_json_cancel_request x =
      from_json-to_json (cancel_request_fns js) x refl
      ∙ simp (read_text-text_entry js faithful, read_struct-struct_entry js) refl

  pub from_json-to_json_push_request : (x : PushConfigRequest) → ReadsBack (push_request_fns js) x
  unfolding read_push_request push_request_entries
  from_json-to_json_push_request x =
      from_json-to_json (push_request_fns js) x refl ∙ simp (read_text-text_entry js faithful) refl

  pub from_json-to_json_subscribe_request :
      (x : SubscribeToTaskRequest) → ReadsBack (subscribe_request_fns js) x
  unfolding read_subscribe_request subscribe_request_entries
  from_json-to_json_subscribe_request x =
      from_json-to_json (subscribe_request_fns js) x refl
      ∙ simp (read_text-text_entry js faithful) refl

  pub from_json-to_json_list_push_request :
      (x : ListPushConfigsRequest) → ReadsBack (list_push_request_fns js) x
  unfolding read_list_push_request list_push_request_entries
  from_json-to_json_list_push_request x =
      from_json-to_json (list_push_request_fns js) x refl
      ∙ simp (read_text-text_entry js faithful, read_number-number_entry js faithful) refl

  pub from_json-to_json_card_request :
      (x : GetExtendedAgentCardRequest) → ReadsBack (card_request_fns js) x
  unfolding read_card_request card_request_entries
  from_json-to_json_card_request x =
      from_json-to_json (card_request_fns js) x refl ∙ simp (read_text-text_entry js faithful) refl
