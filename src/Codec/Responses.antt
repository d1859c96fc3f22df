-- ===== src/Codec/Responses.antt =====
-- The responses of src/types/pb/a2a.ts as JSON. A response whose payload is `undefined` is `none`.
use package.a2a_js.Prelude.{String, Option, none, some, [], ◌∷◌, JsMap}
use package.a2a_js.Types.{
  Json, StreamResponse, task_response, message_response, status_response, artifact_response,
  ListTasksResponse, ListPushConfigsResponse,
}
use package.a2a_js.Errors.{Result, ok, ◌>>=◌}
use package.a2a_js.Result.{SendResult, task_result, message_result}
use package.a2a_js.Codec.Fields.{
  JsPlatform, MessageFns, to_json, from_json, first_set, read_text, read_number, read_list,
  text_entry, number_entry, list_entry, case_entry,
}
use package.a2a_js.Codec.Messages.{message_fns}
use package.a2a_js.Codec.Tasks.{task_fns, status_event_fns, artifact_event_fns}
use package.a2a_js.Codec.Requests.{push_config_fns}

module _ (js : JsPlatform) where
  -- The first of two properties that is set, read as its message.
  unfoldable pub read_send_payload : Option Json → Option Json → Result (Option SendResult)
  read_send_payload (some v) m = do t ← from_json (task_fns js) v; ok (some (task_result t))
  read_send_payload none (some v) = do
    m ← from_json (message_fns js) v
    ok (some (message_result m))
  read_send_payload none none = ok none

  unfoldable pub read_send_response : (String → Option Json) → Result (Option SendResult)
  unfolding read_send_payload
  read_send_response at = read_send_payload (at "task") (at "message")

  unfoldable pub send_case : Option SendResult → Option (String × Option Json)
  send_case none = none
  send_case (some (task_result t)) = some ("task", some (to_json (task_fns js) t))
  send_case (some (message_result m)) = some ("message", some (to_json (message_fns js) m))

  unfoldable pub send_response_entries : Option SendResult → JsMap (Option Json)
  unfolding send_case case_entry
  send_response_entries payload =
      ("task", case_entry "task" (send_case payload))
      ∷ ("message", case_entry "message" (send_case payload))
      ∷ []

  abbrev pub send_response_fns : MessageFns (Option SendResult)
  send_response_fns = record { entries = send_response_entries; read = read_send_response }

  unfoldable pub read_stream_payload :
      Option Json → Option Json → Option Json → Option Json → Result (Option StreamResponse)
  read_stream_payload (some v) m s a = do t ← from_json (task_fns js) v; ok (some (task_response t))
  read_stream_payload none (some v) s a = do
    m ← from_json (message_fns js) v
    ok (some (message_response m))
  read_stream_payload none none (some v) a = do
    s ← from_json (status_event_fns js) v
    ok (some (status_response s))
  read_stream_payload none none none (some v) = do
    a ← from_json (artifact_event_fns js) v
    ok (some (artifact_response a))
  read_stream_payload none none none none = ok none

  unfoldable pub read_stream_response : (String → Option Json) → Result (Option StreamResponse)
  unfolding read_stream_payload
  read_stream_response at =
      read_stream_payload (at "task") (at "message")
        (first_set (at "statusUpdate") (at "status_update"))
        (first_set (at "artifactUpdate") (at "artifact_update"))

  unfoldable pub stream_case : Option StreamResponse → Option (String × Option Json)
  stream_case none = none
  stream_case (some (task_response t)) = some ("task", some (to_json (task_fns js) t))
  stream_case (some (message_response m)) = some ("message", some (to_json (message_fns js) m))
  stream_case (some (status_response s)) =
      some ("statusUpdate", some (to_json (status_event_fns js) s))
  stream_case (some (artifact_response a)) =
      some ("artifactUpdate", some (to_json (artifact_event_fns js) a))

  unfoldable pub stream_response_entries : Option StreamResponse → JsMap (Option Json)
  unfolding stream_case case_entry
  stream_response_entries payload =
      ("task", case_entry "task" (stream_case payload))
      ∷ ("message", case_entry "message" (stream_case payload))
      ∷ ("statusUpdate", case_entry "statusUpdate" (stream_case payload))
      ∷ ("artifactUpdate", case_entry "artifactUpdate" (stream_case payload))
      ∷ []

  abbrev pub stream_response_fns : MessageFns (Option StreamResponse)
  stream_response_fns = record { entries = stream_response_entries; read = read_stream_response }

  unfoldable pub read_list_response : (String → Option Json) → Result ListTasksResponse
  read_list_response at = do
    tasks ← read_list (from_json (task_fns js)) (at "tasks") none
    next_page_token ← read_text js (at "nextPageToken") (at "next_page_token")
    page_size ← read_number js (at "pageSize") (at "page_size")
    total_size ← read_number js (at "totalSize") (at "total_size")
    ok (record {
      tasks = tasks;
      next_page_token = next_page_token;
      page_size = page_size;
      total_size = total_size;
    })

  unfoldable pub list_response_entries : ListTasksResponse → JsMap (Option Json)
  list_response_entries x =
      ("tasks", list_entry (to_json (task_fns js)) x.tasks)
      ∷ ("nextPageToken", text_entry x.next_page_token)
      ∷ ("pageSize", number_entry js x.page_size)
      ∷ ("totalSize", number_entry js x.total_size)
      ∷ []

  abbrev pub list_response_fns : MessageFns ListTasksResponse
  list_response_fns = record { entries = list_response_entries; read = read_list_response }

  unfoldable pub read_list_push_response : (String → Option Json) → Result ListPushConfigsResponse
  read_list_push_response at = do
    configs ← read_list (from_json (push_config_fns js)) (at "configs") none
    next_page_token ← read_text js (at "nextPageToken") (at "next_page_token")
    ok (record { configs = configs; next_page_token = next_page_token })

  unfoldable pub list_push_response_entries : ListPushConfigsResponse → JsMap (Option Json)
  list_push_response_entries x =
      ("configs", list_entry (to_json (push_config_fns js)) x.configs)
      ∷ ("nextPageToken", text_entry x.next_page_token)
      ∷ []

  abbrev pub list_push_response_fns : MessageFns ListPushConfigsResponse
  list_push_response_fns = record {
    entries = list_push_response_entries;
    read = read_list_push_response;
  }
