-- ===== src/Compat/Requests/RoundTrip.antt =====
-- Which responses and requests survive the way to version 0.3 and back.
use package.a2a_js.Prelude.{
  Bool, true, false, not, Option, none, some, truthy, ◌≡◌, refl, ap, sym, ◌∙◌, inl, inr, Bool-cases,
  arith, eq_iff,
}
use mathlib.Core.Option
use package.a2a_js.Types.{
  Message, StreamResponse, task_response, message_response, status_response, artifact_response,
  AuthenticationInfo, TaskPushNotificationConfig, SendMessageConfiguration, SendMessageRequest,
}
use package.a2a_js.Errors.{ok}
use package.a2a_js.Compat.Legacy.{
  RequestId, LegacyStreamResult, legacy_task_result, legacy_message_result, legacy_status_result,
  legacy_artifact_result, success_response, LegacyMessageSendParams,
}
use package.a2a_js.Compat.Parts.{Base64}
use package.a2a_js.Compat.Parts.RoundTrip.{IsInverse, or_else-non_empty}
use package.a2a_js.Compat.Messages.RoundTrip.{IsMessageCompat, message-Survives}
use package.a2a_js.Compat.Tasks.RoundTrip.{
  IsTaskCompat, IsStatusUpdateCompat, IsArtifactUpdateCompat, task-Survives, status_update-Survives,
  artifact_update-Survives,
}
use package.a2a_js.Compat.Push.{
  to_core_authentication_info, to_compat_authentication_info, to_core_push_notification_config,
  to_compat_push_notification_config,
}
use package.a2a_js.Compat.Responses.{to_core_stream_response, to_compat_stream_response}
use package.a2a_js.Compat.Requests.{
  request_of, params_of, to_core_send_message_configuration, to_compat_send_message_configuration,
  to_core_send_message_request, to_compat_send_message_request,
}

-- The responses that version 0.3 can represent.
abbrev pub IsResponseCompat : StreamResponse → Type 0
IsResponseCompat (task_response t) = IsTaskCompat t
IsResponseCompat (message_response m) = IsMessageCompat m
IsResponseCompat (status_response e) = IsStatusUpdateCompat e
IsResponseCompat (artifact_response e) = IsArtifactUpdateCompat e

-- A response that version 0.3 can represent is translated to it without an error, under the
-- identifier of its request, and the translation back gives the same response: parts with a
-- name or a media type are files, an object in a data part does not carry the flag of the
-- translation and the metadata of any other value neither does nor is empty, messages have an id
-- and a known role, statuses have a known state and no empty timestamp, and a task or an update
-- has its status or artifact. The decoder of base64 inverts the encoder.
pub to_core_stream_response-to_compat_stream_response :
    (b64 : Base64) (r : StreamResponse) (id : RequestId)
    → IsInverse b64
    → IsResponseCompat r
    → (l : LegacyStreamResult) × (to_compat_stream_response b64 (some r) id
        ≡ ok (success_response id l))
      × (to_core_stream_response b64 (success_response id l) ≡ ok r)
unfolding to_core_stream_response to_compat_stream_response
to_core_stream_response-to_compat_stream_response b64 (task_response t) id inverse h =
    let (l, there, back) = task-Survives b64 inverse t h in
    (legacy_task_result l, rw there refl, rw back refl)
to_core_stream_response-to_compat_stream_response b64 (message_response m) id inverse h =
    let (l, there, back) = message-Survives b64 inverse m h in
    (legacy_message_result l, rw there refl, rw back refl)
to_core_stream_response-to_compat_stream_response b64 (status_response e) id inverse h =
    let (l, there, back) = status_update-Survives b64 inverse e h in
    (legacy_status_result l, rw there refl, rw back refl)
to_core_stream_response-to_compat_stream_response b64 (artifact_response e) id inverse h =
    let (l, there, back) = artifact_update-Survives b64 inverse e h in
    (legacy_artifact_result l, rw there refl, rw back refl)

authentication_survives :
    (a : AuthenticationInfo) → to_core_authentication_info (to_compat_authentication_info a) ≡ a
unfolding to_core_authentication_info to_compat_authentication_info
authentication_survives a = elim (Bool-cases (truthy a.scheme)) [
  | inl filled ↦ rw (filled, or_else-non_empty a.credentials) refl
  | inr blank ↦
      let none_given : a.scheme ≡ "" = ground (arith, eq_iff a.scheme "") in
      rw (blank, or_else-non_empty a.credentials)
        (ap (λ s. record a { scheme = s }) (sym none_given))
]

map_survives :
    (o : Option AuthenticationInfo)
    → Option.map to_core_authentication_info (Option.map to_compat_authentication_info o) ≡ o
map_survives none = refl
map_survives (some a) = ap some (authentication_survives a)

-- A config that is sent with a message is for no task yet.
abbrev pub IsInnerConfig : Option TaskPushNotificationConfig → Type 0
IsInnerConfig none = Unit
IsInnerConfig (some c) = (c.tenant ≡ "") × (c.task_id ≡ "")

abbrev pub IsConfigurationCompat : Option SendMessageConfiguration → Type 0
IsConfigurationCompat none = Unit
IsConfigurationCompat (some c) = IsInnerConfig c.task_push_notification_config

push_config_survives :
    (c : TaskPushNotificationConfig)
    → c.task_id ≡ ""
    → to_core_push_notification_config (to_compat_push_notification_config c) c.tenant ≡ c
unfolding to_core_push_notification_config to_compat_push_notification_config
push_config_survives c no_task =
    rw (or_else-non_empty c.id, or_else-non_empty c.token, map_survives c.authentication)
      (ap (λ s. record c { task_id = s }) (sym no_task))

inner_config_survives :
    (o : Option TaskPushNotificationConfig)
    → IsInnerConfig o
    → Option.map
        (λ p. to_core_push_notification_config p "")
        (Option.map to_compat_push_notification_config o)
      ≡ o
inner_config_survives none h = refl
inner_config_survives (some c) (no_tenant, no_task) = ap some (
    ap (to_core_push_notification_config (to_compat_push_notification_config c)) (sym no_tenant)
    ∙ push_config_survives c no_task)

not-not : (b : Bool) → not (not b) ≡ b
not-not true = refl
not-not false = refl

configuration_survives :
    (o : Option SendMessageConfiguration)
    → IsConfigurationCompat o
    → Option.map to_core_send_message_configuration
        (Option.map to_compat_send_message_configuration o)
      ≡ o
unfolding to_core_send_message_configuration to_compat_send_message_configuration
configuration_survives none h = refl
configuration_survives (some c) h =
    rw (inner_config_survives c.task_push_notification_config h, not-not c.return_immediately) refl

-- A request to send a message that version 0.3 can represent is translated to it without an error,
-- and the translation back under the same tenant gives the same request: its message can be
-- represented, and a push notification config that it carries names no tenant and no task. The
-- decoder of base64 inverts the encoder.
pub to_core_send_message_request-to_compat_send_message_request :
    (b64 : Base64) (q : SendMessageRequest) (m : Message) (id : RequestId)
    → IsInverse b64
    → q.message ≡ some m
    → IsMessageCompat m
    → IsConfigurationCompat q.configuration
    → (l : LegacyMessageSendParams) × (to_compat_send_message_request b64 q id
        ≡ ok (request_of id "message/send" l))
      × (to_core_send_message_request b64 (request_of id "message/send" l) q.tenant ≡ ok q)
unfolding to_core_send_message_request to_compat_send_message_request
to_core_send_message_request-to_compat_send_message_request b64 q m id inverse given h config =
    let (l, there, back) = message-Survives b64 inverse m h in
    (
      params_of q l,
      simp given (rw there refl),
      rw (back, configuration_survives q.configuration config)
          (ap (λ o. ok (record q { message = o })) (sym given)),
    )
