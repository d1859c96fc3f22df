-- ===== src/Compat/Tasks.antt =====
-- src/compat/v0_3/translate/tasks.ts.
pub mod RoundTrip
use package.a2a_js.Prelude.{
  String, Bool, false, Option, none, some, List, [], ◌∷◌, or_else, truthy, any, if◌then◌else◌, ◌==◌,
}
use package.a2a_js.Types.{
  Message, TaskStatus, Artifact, Task, TaskStatusUpdateEvent, TaskArtifactUpdateEvent,
}
use package.a2a_js.Errors.{Result, ok, err, ◌>>=◌, map_result, map_option_result, request_malformed}
use package.a2a_js.Compat.Legacy.{
  LegacyMessage, LegacyArtifact, LegacyTaskStatus, LegacyTask, LegacyTaskStatusUpdateEvent,
  LegacyTaskArtifactUpdateEvent,
}
use package.a2a_js.Compat.Enums.{to_core_task_state, to_compat_task_state}
use package.a2a_js.Compat.Parts.{Base64, non_empty}
use package.a2a_js.Compat.Messages.{
  non_empty_list, to_core_message, to_compat_message, to_core_artifact, to_compat_artifact,
}

abbrev pub final_legacy_states : List String
final_legacy_states = "completed" ∷ "canceled" ∷ "failed" ∷ "rejected" ∷ []

-- `FINAL_LEGACY_STATES.has(state)`.
abbrev pub is_final_state : String → Bool
is_final_state state = any (λ s. s == state) final_legacy_states

-- A timestamp that is given and not empty.
abbrev pub filled_timestamp : Option String → Option String
filled_timestamp none = none
filled_timestamp (some s) = non_empty s

abbrev pub compat_status_of : TaskStatus → Option LegacyMessage → LegacyTaskStatus
compat_status_of st message = record {
  state = to_compat_task_state st.state;
  message = message;
  timestamp = filled_timestamp st.timestamp;
}

abbrev pub unknown_status : LegacyTaskStatus
unknown_status = record { state = "unknown"; message = none; timestamp = none }

abbrev pub compat_task_of :
    Task → LegacyTaskStatus → List LegacyMessage → List LegacyArtifact → LegacyTask
compat_task_of t status history artifacts = record {
  id = t.id;
  context_id = t.context_id;
  status = status;
  history = non_empty_list history;
  artifacts = non_empty_list artifacts;
  metadata = t.metadata;
}

abbrev pub compat_status_update_of :
    TaskStatusUpdateEvent → LegacyTaskStatus → LegacyTaskStatusUpdateEvent
compat_status_update_of e status = record {
  task_id = e.task_id;
  context_id = e.context_id;
  status = status;
  final = is_final_state status.state;
  metadata = e.metadata;
}

abbrev pub compat_artifact_update_of :
    TaskArtifactUpdateEvent → LegacyArtifact → LegacyTaskArtifactUpdateEvent
compat_artifact_update_of e artifact = record {
  task_id = e.task_id;
  context_id = e.context_id;
  artifact = artifact;
  append = some e.append;
  last_chunk = some e.last_chunk;
  metadata = e.metadata;
}

module _ (b64 : Base64) where
  unfoldable pub to_core_task_status : LegacyTaskStatus → Result TaskStatus
  to_core_task_status st = do
    message ← map_option_result (to_core_message b64) st.message
    ok (record { state = to_core_task_state st.state; message = message; timestamp = st.timestamp })

  unfoldable pub to_compat_task_status : TaskStatus → Result LegacyTaskStatus
  to_compat_task_status st = do
    message ← map_option_result (to_compat_message b64) st.message
    ok (compat_status_of st message)

  -- The status of a task or an event; a missing one is that of an unknown state.
  unfoldable pub to_compat_status_or_unknown : Option TaskStatus → Result LegacyTaskStatus
  unfolding to_compat_task_status
  to_compat_status_or_unknown none = ok unknown_status
  to_compat_status_or_unknown (some st) = to_compat_task_status st

  unfoldable pub to_core_task : LegacyTask → Result Task
  unfolding to_core_task_status
  to_core_task t = do
    status ← to_core_task_status t.status
    artifacts ← map_result (to_core_artifact b64) (or_else t.artifacts [])
    history ← map_result (to_core_message b64) (or_else t.history [])
    ok (record {
      id = t.id;
      context_id = t.context_id;
      status = some status;
      artifacts = artifacts;
      history = history;
      metadata = t.metadata;
    })

  unfoldable pub to_compat_task : Task → Result LegacyTask
  unfolding to_compat_status_or_unknown
  to_compat_task t = do
    status ← to_compat_status_or_unknown t.status
    history ← map_result (to_compat_message b64) t.history
    artifacts ← map_result (to_compat_artifact b64) t.artifacts
    ok (compat_task_of t status history artifacts)

  unfoldable pub to_core_task_status_update_event :
      LegacyTaskStatusUpdateEvent → Result TaskStatusUpdateEvent
  unfolding to_core_task_status
  to_core_task_status_update_event e = do
    status ← to_core_task_status e.status
    ok (record {
      task_id = e.task_id;
      context_id = e.context_id;
      status = some status;
      metadata = e.metadata;
    })

  unfoldable pub to_compat_task_status_update_event :
      TaskStatusUpdateEvent → Result LegacyTaskStatusUpdateEvent
  unfolding to_compat_status_or_unknown
  to_compat_task_status_update_event e = do
    status ← to_compat_status_or_unknown e.status
    ok (compat_status_update_of e status)

  unfoldable pub to_core_task_artifact_update_event :
      LegacyTaskArtifactUpdateEvent → Result TaskArtifactUpdateEvent
  to_core_task_artifact_update_event e = do
    artifact ← to_core_artifact b64 e.artifact
    ok (record {
      task_id = e.task_id;
      context_id = e.context_id;
      artifact = some artifact;
      append = or_else e.append false;
      last_chunk = or_else e.last_chunk false;
      metadata = e.metadata;
    })

  abbrev compat_artifact_update_with :
      TaskArtifactUpdateEvent → Option Artifact → Result LegacyTaskArtifactUpdateEvent
  compat_artifact_update_with e none =
      err (request_malformed "Invalid TaskArtifactUpdateEvent: missing artifact")
  compat_artifact_update_with e (some a) = do
    artifact ← to_compat_artifact b64 a
    ok (compat_artifact_update_of e artifact)

  unfoldable pub to_compat_task_artifact_update_event :
      TaskArtifactUpdateEvent → Result LegacyTaskArtifactUpdateEvent
  to_compat_task_artifact_update_event e = compat_artifact_update_with e e.artifact
