-- ===== src/Codec/Queries.antt =====
-- The requests about tasks and their push notification configs of src/types/pb/a2a.ts as JSON.
use package.a2a_js.Prelude.{String, Option, none, [], ◌∷◌, JsMap}
use package.a2a_js.Types.{
  Json, bool, str, GetTaskRequest, ListTasksRequest, CancelTaskRequest, PushConfigRequest,
  SubscribeToTaskRequest, ListPushConfigsRequest, GetExtendedAgentCardRequest,
}
use package.a2a_js.Errors.{Result, ok, ◌>>=◌}
use package.a2a_js.Codec.Fields.{
  JsPlatform, MessageFns, first_set, read_text, read_number, read_option, read_struct,
  read_option_flag, text_entry, number_entry, option_number_entry, struct_entry, option_entry,
}
use package.a2a_js.Codec.Tasks.{read_state, state_entry}

unfoldable pub cancel_request_entries : CancelTaskRequest → JsMap (Option Json)
cancel_request_entries x =
    ("tenant", text_entry x.tenant)
    ∷ ("id", text_entry x.id)
    ∷ ("metadata", struct_entry x.metadata)
    ∷ []

unfoldable pub push_request_entries : PushConfigRequest → JsMap (Option Json)
push_request_entries x =
    ("tenant", text_entry x.tenant)
    ∷ ("taskId", text_entry x.task_id)
    ∷ ("id", text_entry x.id)
    ∷ []

unfoldable pub subscribe_request_entries : SubscribeToTaskRequest → JsMap (Option Json)
subscribe_request_entries x = ("tenant", text_entry x.tenant) ∷ ("id", text_entry x.id) ∷ []

unfoldable pub card_request_entries : GetExtendedAgentCardRequest → JsMap (Option Json)
card_request_entries x = ("tenant", text_entry x.tenant) ∷ []

module _ (js : JsPlatform) where
  open js use {string_of, number_of}

  unfoldable pub read_get_request : (String → Option Json) → Result GetTaskRequest
  read_get_request at = do
    tenant ← read_text js (at "tenant") none
    id ← read_text js (at "id") none
    history_length ← read_option number_of (first_set (at "historyLength") (at "history_length"))
    ok (record { tenant = tenant; id = id; history_length = history_length })

  unfoldable pub get_request_entries : GetTaskRequest → JsMap (Option Json)
  get_request_entries x =
      ("tenant", text_entry x.tenant)
      ∷ ("id", text_entry x.id)
      ∷ ("historyLength", option_number_entry js x.history_length)
      ∷ []

  abbrev pub get_request_fns : MessageFns GetTaskRequest
  get_request_fns = record { entries = get_request_entries; read = read_get_request }

  unfoldable pub read_list_request : (String → Option Json) → Result ListTasksRequest
  unfolding read_state
  read_list_request at = do
    tenant ← read_text js (at "tenant") none
    context_id ← read_text js (at "contextId") (at "context_id")
    let status = read_state (at "status")
    page_size ← read_option number_of (first_set (at "pageSize") (at "page_size"))
    page_token ← read_text js (at "pageToken") (at "page_token")
    history_length ← read_option number_of (first_set (at "historyLength") (at "history_length"))
    status_timestamp_after ←
        read_option string_of (first_set (at "statusTimestampAfter") (at "status_timestamp_after"))
    let include_artifacts =
        read_option_flag js (first_set (at "includeArtifacts") (at "include_artifacts"))
    ok (record {
      tenant = tenant;
      context_id = context_id;
      status = status;
      page_size = page_size;
      page_token = page_token;
      history_length = history_length;
      status_timestamp_after = status_timestamp_after;
      include_artifacts = include_artifacts;
    })

  unfoldable pub list_request_entries : ListTasksRequest → JsMap (Option Json)
  unfolding state_entry
  list_request_entries x =
      ("tenant", text_entry x.tenant)
      ∷ ("contextId", text_entry x.context_id)
      ∷ ("status", state_entry x.status)
      ∷ ("pageSize", option_number_entry js x.page_size)
      ∷ ("pageToken", text_entry x.page_token)
      ∷ ("historyLength", option_number_entry js x.history_length)
      ∷ ("statusTimestampAfter", option_entry str x.status_timestamp_after)
      ∷ ("includeArtifacts", option_entry bool x.include_artifacts)
      ∷ []

  abbrev pub list_request_fns : MessageFns ListTasksRequest
  list_request_fns = record { entries = list_request_entries; read = read_list_request }

  unfoldable pub read_cancel_request : (String → Option Json) → Result CancelTaskRequest
  read_cancel_request at = do
    tenant ← read_text js (at "tenant") none
    id ← read_text js (at "id") none
    let metadata = read_struct js (at "metadata")
    ok (record { tenant = tenant; id = id; metadata = metadata })

  abbrev pub cancel_request_fns : MessageFns CancelTaskRequest
  cancel_request_fns = record { entries = cancel_request_entries; read = read_cancel_request }

  unfoldable pub read_push_request : (String → Option Json) → Result PushConfigRequest
  read_push_request at = do
    tenant ← read_text js (at "tenant") none
    task_id ← read_text js (at "taskId") (at "task_id")
    id ← read_text js (at "id") none
    ok (record { tenant = tenant; task_id = task_id; id = id })

  abbrev pub push_request_fns : MessageFns PushConfigRequest
  push_request_fns = record { entries = push_request_entries; read = read_push_request }

  unfoldable pub read_subscribe_request : (String → Option Json) → Result SubscribeToTaskRequest
  read_subscribe_request at = do
    tenant ← read_text js (at "tenant") none
    id ← read_text js (at "id") none
    ok (record { tenant = tenant; id = id })

  abbrev pub subscribe_request_fns : MessageFns SubscribeToTaskRequest
  subscribe_request_fns = record {
    entries = subscribe_request_entries;
    read = read_subscribe_request;
  }

  unfoldable pub read_list_push_request : (String → Option Json) → Result ListPushConfigsRequest
  read_list_push_request at = do
    tenant ← read_text js (at "tenant") none
    task_id ← read_text js (at "taskId") (at "task_id")
    page_size ← read_number js (at "pageSize") (at "page_size")
    page_token ← read_text js (at "pageToken") (at "page_token")
    ok (record {
      tenant = tenant;
      task_id = task_id;
      page_size = page_size;
      page_token = page_token;
    })

  unfoldable pub list_push_request_entries : ListPushConfigsRequest → JsMap (Option Json)
  list_push_request_entries x =
      ("tenant", text_entry x.tenant)
      ∷ ("taskId", text_entry x.task_id)
      ∷ ("pageSize", number_entry js x.page_size)
      ∷ ("pageToken", text_entry x.page_token)
      ∷ []

  abbrev pub list_push_request_fns : MessageFns ListPushConfigsRequest
  list_push_request_fns = record {
    entries = list_push_request_entries;
    read = read_list_push_request;
  }

  unfoldable pub read_card_request : (String → Option Json) → Result GetExtendedAgentCardRequest
  read_card_request at = do
    tenant ← read_text js (at "tenant") none
    ok (record { tenant = tenant })

  abbrev pub card_request_fns : MessageFns GetExtendedAgentCardRequest
  card_request_fns = record { entries = card_request_entries; read = read_card_request }
