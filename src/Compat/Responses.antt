-- ===== src/Compat/Responses.antt =====
-- The responses of src/compat/v0_3/translate/requests.ts. A response without a payload is `none`, and
-- an error envelope is `error_response`.
use package.a2a_js.Prelude.{Option, none, some}
use package.a2a_js.Types.{
  StreamResponse, task_response, message_response, status_response, artifact_response,
}
use package.a2a_js.Errors.{Result, ok, err, ◌>>=◌, a2a_error, request_malformed}
use package.a2a_js.Result.{SendResult, message_result, task_result}
use package.a2a_js.Compat.Legacy.{
  RequestId, LegacyResponse, error_response, success_response, LegacyStreamResult,
  legacy_message_result, legacy_task_result, legacy_status_result, legacy_artifact_result,
}
use package.a2a_js.Compat.Parts.{Base64}
use package.a2a_js.Compat.Messages.{to_core_message, to_compat_message}
use package.a2a_js.Compat.Tasks.{
  to_core_task, to_compat_task, to_core_task_status_update_event,
  to_compat_task_status_update_event, to_core_task_artifact_update_event,
  to_compat_task_artifact_update_event,
}

module _ (b64 : Base64) where
  abbrev core_send_result : LegacyStreamResult → Result SendResult
  core_send_result (legacy_task_result l) = do t ← to_core_task b64 l; ok (task_result t)
  core_send_result (legacy_message_result l) = do m ← to_core_message b64 l; ok (message_result m)
  core_send_result _ = err (request_malformed "Invalid v0.3 SendMessageResponse result")

  unfoldable pub to_core_send_message_response :
      LegacyResponse LegacyStreamResult → Result SendResult
  to_core_send_message_response error_response =
      err (a2a_error "Cannot translate a v0.3 error response into a v1.0 SendMessageResponse")
  to_core_send_message_response (success_response id l) = core_send_result l

  unfoldable pub to_compat_send_message_response :
      Option SendResult → RequestId → Result (LegacyResponse LegacyStreamResult)
  to_compat_send_message_response none id = err (a2a_error "SendMessageResponse missing payload")
  to_compat_send_message_response (some (task_result t)) id = do
    l ← to_compat_task b64 t
    ok (success_response id (legacy_task_result l))
  to_compat_send_message_response (some (message_result m)) id = do
    l ← to_compat_message b64 m
    ok (success_response id (legacy_message_result l))

  abbrev core_stream_result : LegacyStreamResult → Result StreamResponse
  core_stream_result (legacy_message_result l) = do
    m ← to_core_message b64 l
    ok (message_response m)
  core_stream_result (legacy_task_result l) = do t ← to_core_task b64 l; ok (task_response t)
  core_stream_result (legacy_status_result l) = do
    e ← to_core_task_status_update_event b64 l
    ok (status_response e)
  core_stream_result (legacy_artifact_result l) = do
    e ← to_core_task_artifact_update_event b64 l
    ok (artifact_response e)

  unfoldable pub to_core_stream_response : LegacyResponse LegacyStreamResult → Result StreamResponse
  to_core_stream_response error_response =
      err (a2a_error "Cannot translate a v0.3 error response into a v1.0 StreamResponse")
  to_core_stream_response (success_response id l) = core_stream_result l

  unfoldable pub to_compat_stream_response :
      Option StreamResponse → RequestId → Result (LegacyResponse LegacyStreamResult)
  to_compat_stream_response none id = err (a2a_error "StreamResponse missing payload")
  to_compat_stream_response (some (message_response m)) id = do
    l ← to_compat_message b64 m
    ok (success_response id (legacy_message_result l))
  to_compat_stream_response (some (task_response t)) id = do
    l ← to_compat_task b64 t
    ok (success_response id (legacy_task_result l))
  to_compat_stream_response (some (status_response e)) id = do
    l ← to_compat_task_status_update_event b64 e
    ok (success_response id (legacy_status_result l))
  to_compat_stream_response (some (artifact_response e)) id = do
    l ← to_compat_task_artifact_update_event b64 e
    ok (success_response id (legacy_artifact_result l))
