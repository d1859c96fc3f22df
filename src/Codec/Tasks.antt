-- ===== src/Codec/Tasks.antt =====
-- Tasks, artifacts and the update events of src/types/pb/a2a.ts as JSON.
use package.a2a_js.Prelude.{String, Option, none, some, [], ◌∷◌, JsMap}
use package.a2a_js.Types.{
  Json, str, TaskState, unspecified, submitted, working, completed, failed, canceled,
  input_required, rejected, auth_required, unknown_state, TaskStatus, Artifact, Task,
  TaskStatusUpdateEvent, TaskArtifactUpdateEvent,
}
use package.a2a_js.Errors.{Result, ok, ◌>>=◌}
use package.a2a_js.Codec.Fields.{
  JsPlatform, MessageFns, to_json, from_json, first_set, read_text, read_option, read_list,
  read_struct, read_flag, text_entry, struct_entry, list_entry, option_entry, flag_entry,
}
use package.a2a_js.Codec.Messages.{enum_from_json, part_fns, message_fns}

unfoldable pub task_state_from_json : Json → TaskState
task_state_from_json = enum_from_json unknown_state (
    ("0", "TASK_STATE_UNSPECIFIED", unspecified)
    ∷ ("1", "TASK_STATE_SUBMITTED", submitted)
    ∷ ("2", "TASK_STATE_WORKING", working)
    ∷ ("3", "TASK_STATE_COMPLETED", completed)
    ∷ ("4", "TASK_STATE_FAILED", failed)
    ∷ ("5", "TASK_STATE_CANCELED", canceled)
    ∷ ("6", "TASK_STATE_INPUT_REQUIRED", input_required)
    ∷ ("7", "TASK_STATE_REJECTED", rejected)
    ∷ ("8", "TASK_STATE_AUTH_REQUIRED", auth_required)
    ∷ [])

unfoldable pub task_state_to_json : TaskState → String
task_state_to_json unspecified = "TASK_STATE_UNSPECIFIED"
task_state_to_json submitted = "TASK_STATE_SUBMITTED"
task_state_to_json working = "TASK_STATE_WORKING"
task_state_to_json completed = "TASK_STATE_COMPLETED"
task_state_to_json failed = "TASK_STATE_FAILED"
task_state_to_json canceled = "TASK_STATE_CANCELED"
task_state_to_json input_required = "TASK_STATE_INPUT_REQUIRED"
task_state_to_json rejected = "TASK_STATE_REJECTED"
task_state_to_json auth_required = "TASK_STATE_AUTH_REQUIRED"
task_state_to_json unknown_state = "UNRECOGNIZED"

-- `if (state !== 0) obj.state = taskStateToJSON(state)`.
unfoldable pub state_entry : TaskState → Option Json
unfolding task_state_to_json
state_entry unspecified = none
state_entry state = some (str (task_state_to_json state))

unfoldable pub read_state : Option Json → TaskState
unfolding task_state_from_json
read_state none = unspecified
read_state (some v) = task_state_from_json v

module _ (js : JsPlatform) where
  open js use {string_of}

  unfoldable pub read_status : (String → Option Json) → Result TaskStatus
  unfolding read_state
  read_status at = do
    let state = read_state (at "state")
    message ← read_option (from_json (message_fns js)) (first_set (at "message") none)
    timestamp ← read_option string_of (first_set (at "timestamp") none)
    ok (record { state = state; message = message; timestamp = timestamp })

  unfoldable pub status_entries : TaskStatus → JsMap (Option Json)
  unfolding state_entry
  status_entries x =
      ("state", state_entry x.state)
      ∷ ("message", option_entry (to_json (message_fns js)) x.message)
      ∷ ("timestamp", option_entry str x.timestamp)
      ∷ []

  abbrev pub status_fns : MessageFns TaskStatus
  status_fns = record { entries = status_entries; read = read_status }

  unfoldable pub read_artifact : (String → Option Json) → Result Artifact
  read_artifact at = do
    artifact_id ← read_text js (at "artifactId") (at "artifact_id")
    name ← read_text js (at "name") none
    description ← read_text js (at "description") none
    parts ← read_list (from_json (part_fns js)) (at "parts") none
    let metadata = read_struct js (at "metadata")
    extensions ← read_list string_of (at "extensions") none
    ok (record {
      artifact_id = artifact_id;
      name = name;
      description = description;
      parts = parts;
      metadata = metadata;
      extensions = extensions;
    })

  unfoldable pub artifact_entries : Artifact → JsMap (Option Json)
  artifact_entries x =
      ("artifactId", text_entry x.artifact_id)
      ∷ ("name", text_entry x.name)
      ∷ ("description", text_entry x.description)
      ∷ ("parts", list_entry (to_json (part_fns js)) x.parts)
      ∷ ("metadata", struct_entry x.metadata)
      ∷ ("extensions", list_entry str x.extensions)
      ∷ []

  abbrev pub artifact_fns : MessageFns Artifact
  artifact_fns = record { entries = artifact_entries; read = read_artifact }

  unfoldable pub read_task : (String → Option Json) → Result Task
  read_task at = do
    id ← read_text js (at "id") none
    context_id ← read_text js (at "contextId") (at "context_id")
    status ← read_option (from_json status_fns) (first_set (at "status") none)
    artifacts ← read_list (from_json artifact_fns) (at "artifacts") none
    history ← read_list (from_json (message_fns js)) (at "history") none
    let metadata = read_struct js (at "metadata")
    ok (record {
      id = id;
      context_id = context_id;
      status = status;
      artifacts = artifacts;
      history = history;
      metadata = metadata;
    })

  unfoldable pub task_entries : Task → JsMap (Option Json)
  task_entries x =
      ("id", text_entry x.id)
      ∷ ("contextId", text_entry x.context_id)
      ∷ ("status", option_entry (to_json status_fns) x.status)
      ∷ ("artifacts", list_entry (to_json artifact_fns) x.artifacts)
      ∷ ("history", list_entry (to_json (message_fns js)) x.history)
      ∷ ("metadata", struct_entry x.metadata)
      ∷ []

  abbrev pub task_fns : MessageFns Task
  task_fns = record { entries = task_entries; read = read_task }

  unfoldable pub read_status_event : (String → Option Json) → Result TaskStatusUpdateEvent
  read_status_event at = do
    task_id ← read_text js (at "taskId") (at "task_id")
    context_id ← read_text js (at "contextId") (at "context_id")
    status ← read_option (from_json status_fns) (first_set (at "status") none)
    let metadata = read_struct js (at "metadata")
    ok (record { task_id = task_id; context_id = context_id; status = status; metadata = metadata })

  unfoldable pub status_event_entries : TaskStatusUpdateEvent → JsMap (Option Json)
  status_event_entries x =
      ("taskId", text_entry x.task_id)
      ∷ ("contextId", text_entry x.context_id)
      ∷ ("status", option_entry (to_json status_fns) x.status)
      ∷ ("metadata", struct_entry x.metadata)
      ∷ []

  abbrev pub status_event_fns : MessageFns TaskStatusUpdateEvent
  status_event_fns = record { entries = status_event_entries; read = read_status_event }

  unfoldable pub read_artifact_event : (String → Option Json) → Result TaskArtifactUpdateEvent
  read_artifact_event at = do
    task_id ← read_text js (at "taskId") (at "task_id")
    context_id ← read_text js (at "contextId") (at "context_id")
    artifact ← read_option (from_json artifact_fns) (first_set (at "artifact") none)
    let append = read_flag js (first_set (at "append") none)
    let last_chunk = read_flag js (first_set (at "lastChunk") (at "last_chunk"))
    let metadata = read_struct js (at "metadata")
    ok (record {
      task_id = task_id;
      context_id = context_id;
      artifact = artifact;
      append = append;
      last_chunk = last_chunk;
      metadata = metadata;
    })

  unfoldable pub artifact_event_entries : TaskArtifactUpdateEvent → JsMap (Option Json)
  artifact_event_entries x =
      ("taskId", text_entry x.task_id)
      ∷ ("contextId", text_entry x.context_id)
      ∷ ("artifact", option_entry (to_json artifact_fns) x.artifact)
      ∷ ("append", flag_entry x.append)
      ∷ ("lastChunk", flag_entry x.last_chunk)
      ∷ ("metadata", struct_entry x.metadata)
      ∷ []

  abbrev pub artifact_event_fns : MessageFns TaskArtifactUpdateEvent
  artifact_event_fns = record { entries = artifact_event_entries; read = read_artifact_event }
