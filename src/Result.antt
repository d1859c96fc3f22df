-- ===== src/Result.antt =====
-- `ResultManager` of src/server/result_manager.ts: how the events of an execution change the task
-- that is stored and the result of a request. The task store is a parameter. The manager's copies
-- are the values themselves here, and its warnings on the console are left out.
pub mod Merge
pub mod Artifacts
pub mod Stored
pub mod History
pub mod Refinement
pub mod InHistory
use package.a2a_js.Prelude.{
  String, Bool, true, false, not, ◌&&◌, ◌||◌, Option, none, some, List, [], ◌∷◌, ◌++◌, truthy,
  or_else, is_empty, any, assign, is_some, if◌then◌else◌, ◌==◌,
}
use package.a2a_js.Types.{
  Message, Task, TaskStatus, Artifact, TaskStatusUpdateEvent, TaskArtifactUpdateEvent,
  AgentExecutionEvent, message_event, task_event, status_update, artifact_update,
}
use package.a2a_js.Context.{ServerCallContext}
use package.a2a_js.Store.Interface.{TaskStore}
use Merge.{merge_task, with_latest, apply_status, apply_artifact}

-- The manager's fields, with the state of the store that it writes to.
pub record ResultManager (Store : Type 0) : Type 0 where
  pub task_store : Store
  pub server_call_context : ServerCallContext
  pub current_task : Option Task
  pub latest_user_message : Option Message
  pub final_message_result : Option Message
  pub last_seen_task_id : Option String

-- `new ResultManager(taskStore, context)`.
unfoldable pub new_result_manager : {S : Type 0} → S → ServerCallContext → ResultManager S
new_result_manager s c = record {
  task_store = s;
  server_call_context = c;
  current_task = none;
  latest_user_message = none;
  final_message_result = none;
  last_seen_task_id = none;
}

module _ (ts : TaskStore) where
  open ts use {Store, save, load}

  -- `setContext`.
  unfoldable pub set_context : Message → ResultManager Store → ResultManager Store
  set_context m rm = record rm { latest_user_message = some m }

  pub note_persisted_task_id : String → ResultManager Store → ResultManager Store
  note_persisted_task_id id rm = record rm {
    last_seen_task_id = if truthy id then some id else rm.last_seen_task_id;
  }

  -- `this.currentTask = t` and `saveCurrentTask()`.
  pub save_current : Task → ResultManager Store → ResultManager Store
  save_current t rm = record rm {
    task_store = save t rm.server_call_context rm.task_store;
    current_task = some t;
  }

  -- `taskStore.load(id, context)`, which is skipped for an empty id.
  pub load_persisted : String → ResultManager Store → Option Task
  load_persisted id rm = if truthy id then load id rm.server_call_context rm.task_store else none

  pub process_task_event : Task → ResultManager Store → ResultManager Store
  unfolding note_persisted_task_id save_current load_persisted
  process_task_event event rm =
      let noted = note_persisted_task_id event.id rm in
      save_current
        (with_latest rm.latest_user_message (merge_task (load_persisted event.id rm) event)) noted

  -- The current task becomes `change` of the stored one, or is what was loaded if that is no task
  -- of this id.
  pub update_stored :
      String → (Task → Task) → Option Task → ResultManager Store → ResultManager Store
  unfolding save_current
  update_stored id change none rm = record rm { current_task = none }
  update_stored id change (some t) rm =
      if t.id == id then save_current (change t) rm else record rm { current_task = some t }

  pub apply_status_update : TaskStatusUpdateEvent → ResultManager Store → ResultManager Store
  unfolding note_persisted_task_id load_persisted update_stored
  apply_status_update event rm =
      update_stored event.task_id (apply_status event.status) (load_persisted event.task_id rm)
        (note_persisted_task_id event.task_id rm)

  pub apply_artifact_update_of :
      Option Artifact → TaskArtifactUpdateEvent → ResultManager Store → ResultManager Store
  unfolding note_persisted_task_id load_persisted update_stored
  apply_artifact_update_of none event rm = rm
  apply_artifact_update_of (some artifact) event rm =
      update_stored event.task_id (apply_artifact event.append artifact)
        (load_persisted event.task_id rm) (note_persisted_task_id event.task_id rm)

  pub apply_artifact_update : TaskArtifactUpdateEvent → ResultManager Store → ResultManager Store
  unfolding apply_artifact_update_of
  apply_artifact_update event rm = apply_artifact_update_of event.artifact event rm

  unfoldable pub process_event : AgentExecutionEvent → ResultManager Store → ResultManager Store
  unfolding process_task_event apply_status_update apply_artifact_update
  process_event (message_event m) rm = record rm { final_message_result = some m }
  process_event (task_event t) rm = process_task_event t rm
  process_event (status_update u) rm = apply_status_update u rm
  process_event (artifact_update u) rm = apply_artifact_update u rm

  unfoldable pub process_events :
      List AgentExecutionEvent → ResultManager Store → ResultManager Store
  process_events [] rm = rm
  process_events (e ∷ es) rm = process_events es (process_event e rm)

-- A `SendMessage` result.
pub data SendResult : Type 0 where
  message_result : Message → SendResult
  task_result : Task → SendResult

abbrev pub task_or_none : Option Task → Option SendResult
task_or_none none = none
task_or_none (some t) = some (task_result t)

unfoldable pub final_of : Option Message → Option Task → Option SendResult
final_of none t = task_or_none t
final_of (some m) t = some (message_result m)

-- `getFinalResult`.
unfoldable pub get_final_result : {S : Type 0} → ResultManager S → Option SendResult
unfolding final_of
get_final_result rm = final_of rm.final_message_result rm.current_task
