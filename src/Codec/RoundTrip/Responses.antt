-- ===== src/Codec/RoundTrip/Responses.antt =====
-- Responses read from the JSON form that was written.
use package.a2a_js.Prelude.{some, All, refl, ◌∙◌}
use package.a2a_js.Types.{
  StreamResponse, task_response, message_response, status_response, artifact_response,
  ListTasksResponse, ListPushConfigsResponse,
}
use package.a2a_js.Result.{SendResult, task_result, message_result}
use package.a2a_js.Codec.Fields.{JsPlatform, IsFaithful, to_json, case_entry}
use package.a2a_js.Codec.Tasks.{task_fns}
use package.a2a_js.Codec.Requests.{push_config_fns}
use package.a2a_js.Codec.Responses.{
  read_send_payload, read_send_response, send_case, send_response_entries, send_response_fns,
  read_stream_payload, read_stream_response, stream_case, stream_response_entries,
  stream_response_fns, read_list_response, list_response_entries, list_response_fns,
  read_list_push_response, list_push_response_entries, list_push_response_fns,
}
use package.a2a_js.Codec.RoundTrip.{
  ReadsBack, OnSome, from_json-to_json, read_list-messages, read_list-any, read_text-text_entry,
  read_number-number_entry,
}
use package.a2a_js.Codec.RoundTrip.Messages.{from_json-to_json_message}
use package.a2a_js.Codec.RoundTrip.Tasks.{
  HasReadableParts, IsReadableStatus, IsReadableArtifact, IsReadableTask, from_json-to_json_task,
  from_json-to_json_status_event, from_json-to_json_artifact_event,
}
use package.a2a_js.Codec.RoundTrip.Requests.{from_json-to_json_push_config}

-- Every data part of the payload has a value other than `null`.
abbrev pub IsReadableResult : SendResult → Type 0
IsReadableResult (task_result t) = IsReadableTask t
IsReadableResult (message_result m) = HasReadableParts m

abbrev pub IsReadableResponse : StreamResponse → Type 0
IsReadableResponse (task_response t) = IsReadableTask t
IsReadableResponse (message_response m) = HasReadableParts m
IsReadableResponse (status_response s) = OnSome IsReadableStatus s.status
IsReadableResponse (artifact_response a) = OnSome IsReadableArtifact a.artifact

module _ (js : JsPlatform) (faithful : IsFaithful js) where
  -- The answer to a send request whose data parts all have a value other than `null` is read back
  -- from its JSON form.
  pub from_json-to_json_send_response :
      (r : SendResult) → IsReadableResult r → ReadsBack (send_response_fns js) (some r)
  unfolding read_send_response read_send_payload send_response_entries send_case case_entry to_json
  from_json-to_json_send_response (task_result t) h =
      from_json-to_json (send_response_fns js) (some (task_result t)) refl
      ∙ rw (from_json-to_json_task js faithful t h) refl
  from_json-to_json_send_response (message_result m) h =
      from_json-to_json (send_response_fns js) (some (message_result m)) refl
      ∙ rw (from_json-to_json_message js faithful m h) refl

  -- A stream response whose data parts all have a value other than `null` is read back from its
  -- JSON form, as the same kind of event.
  pub from_json-to_json_stream_response :
      (r : StreamResponse) → IsReadableResponse r → ReadsBack (stream_response_fns js) (some r)
  unfolding read_stream_response read_stream_payload stream_response_entries stream_case case_entry
      to_json
  from_json-to_json_stream_response (task_response t) h =
      from_json-to_json (stream_response_fns js) (some (task_response t)) refl
      ∙ rw (from_json-to_json_task js faithful t h) refl
  from_json-to_json_stream_response (message_response m) h =
      from_json-to_json (stream_response_fns js) (some (message_response m)) refl
      ∙ rw (from_json-to_json_message js faithful m h) refl
  from_json-to_json_stream_response (status_response s) h =
      from_json-to_json (stream_response_fns js) (some (status_response s)) refl
      ∙ rw (from_json-to_json_status_event js faithful s h) refl
  from_json-to_json_stream_response (artifact_response a) h =
      from_json-to_json (stream_response_fns js) (some (artifact_response a)) refl
      ∙ rw (from_json-to_json_artifact_event js faithful a h) refl

  pub from_json-to_json_list_response :
      (x : ListTasksResponse) → All IsReadableTask x.tasks → ReadsBack (list_response_fns js) x
  unfolding read_list_response list_response_entries
  from_json-to_json_list_response x h =
      from_json-to_json (list_response_fns js) x refl
      ∙ simp
          (
            read_text-text_entry js faithful,
            read_number-number_entry js faithful,
            read_list-messages (task_fns js) IsReadableTask x.tasks
                (from_json-to_json_task js faithful) h,
          )
          refl

  pub from_json-to_json_list_push_response :
      (x : ListPushConfigsResponse) → ReadsBack (list_push_response_fns js) x
  unfolding read_list_push_response list_push_response_entries
  from_json-to_json_list_push_response x =
      from_json-to_json (list_push_response_fns js) x refl
      ∙ simp
          (
            read_text-text_entry js faithful,
            read_list-any (push_config_fns js) x.configs
                (from_json-to_json_push_config js faithful),
          )
          refl
