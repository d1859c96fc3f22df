-- ===== src/Handler/Settle.antt =====
-- `_runExecutor`, `_runStreamExecutor`, `_settleBus` and the trackers of the latest task state: what
-- the bus carries when an executor fails, and when it is closed.
pub mod Laws
use package.a2a_js.Prelude.{
  String, Bool, true, false, Option, none, some, List, [], ◌∷◌, ◌++◌, or_else, if◌then◌else◌,
}
use Prim.Native.String
use package.a2a_js.Types.{
  Message, Part, text, role_agent, Task, TaskStatus, TaskState, failed, TaskStatusUpdateEvent,
  AgentExecutionEvent, message_event, task_event, status_update, artifact_update, includes_state,
}
use package.a2a_js.Result.Merge.{has_message}
use package.a2a_js.Handler.Context.{RequestContext, concat}

abbrev seen_state : Option TaskStatus → Option TaskState → Option TaskState
seen_state none last = last
seen_state (some st) last = some st.state

-- The listener of `trackLatestTaskState`.
unfoldable pub track_state : AgentExecutionEvent → Option TaskState → Option TaskState
track_state (message_event m) last = last
track_state (task_event t) last = seen_state t.status last
track_state (status_update u) last = seen_state u.status last
track_state (artifact_update u) last = last

-- What the tracker has seen of the events published while the executor ran.
unfoldable pub latest_state : List AgentExecutionEvent → Option TaskState → Option TaskState
unfolding track_state
latest_state [] last = last
latest_state (e ∷ es) last = latest_state es (track_state e last)

-- The task that `trackLatestTaskAndState` records.
unfoldable pub latest_task : List AgentExecutionEvent → Option Task → Option Task
latest_task [] last = last
latest_task (task_event t ∷ es) last = latest_task es (some t)
latest_task (message_event m ∷ es) last = latest_task es last
latest_task (status_update u ∷ es) last = latest_task es last
latest_task (artifact_update u ∷ es) last = latest_task es last

abbrev text_part : String → Part
text_part s = record {
  content = some (text s);
  metadata = some [];
  filename = "";
  media_type = "text/plain";
}

-- A message of the agent with one text part.
unfoldable pub agent_message : String → String → String → String → Message
agent_message uuid task_id context_id s = record {
  message_id = uuid;
  context_id = context_id;
  task_id = task_id;
  role = role_agent;
  parts = text_part s ∷ [];
  metadata = some [];
  extensions = [];
  reference_task_ids = [];
}

-- The status of a failed task; `uuid` and `now` stand for `crypto.randomUUID()` and the time.
unfoldable pub failed_status : String → String → String → String → String → TaskStatus
unfolding agent_message
failed_status uuid now task_id context_id s = record {
  state = failed;
  message = some (agent_message uuid task_id context_id s);
  timestamp = some now;
}

abbrev history_of_task : Option Task → List Message
history_of_task none = []
history_of_task (some t) = t.history

-- The request's history with the user's message, unless it is there.
unfoldable pub error_history : Option Task → Message → List Message
error_history task user =
    let history = history_of_task task in
    if has_message user.message_id history then history else history ++ user ∷ []

abbrev execution_error : String → String
execution_error s = concat "Agent execution error: " s

unfoldable pub error_task : String → String → RequestContext → Message → String → Task
unfolding failed_status error_history
error_task uuid now rc user s = record {
  id = rc.task_id;
  context_id = user.context_id;
  status = some (failed_status uuid now rc.task_id user.context_id (execution_error s));
  artifacts = [];
  history = error_history rc.task user;
  metadata = some [];
}

unfoldable pub failure_update : String → String → Option TaskStatus → TaskStatusUpdateEvent
failure_update task_id context_id status = record {
  task_id = task_id;
  context_id = context_id;
  status = status;
  metadata = some [];
}

-- What `_runExecutor` publishes when the executor rejects with the message `s`.
unfoldable pub failure_events :
    String → String → RequestContext → Message → String → List AgentExecutionEvent
unfolding error_task failure_update
failure_events uuid now rc user s =
    let t = error_task uuid now rc user s in
    task_event t ∷ status_update (failure_update t.id t.context_id t.status) ∷ []

-- What `_runStreamExecutor` publishes: the task only if none was published before. The second
-- event has an id and a time of its own.
unfoldable pub stream_failure_events :
    String
    → String
    → String
    → String
    → RequestContext
    → Message
    → String
    → Option Task
    → List AgentExecutionEvent
unfolding error_task failure_update failed_status
stream_failure_events uuid now uuid' now' rc user s (some t) =
    status_update (
      failure_update t.id t.context_id
        (some (failed_status uuid' now' t.id t.context_id (execution_error s))))
    ∷ []
stream_failure_events uuid now uuid' now' rc user s none =
    task_event (error_task uuid now rc user s)
    ∷ status_update (
        failure_update rc.task_id user.context_id
          (some (failed_status uuid' now' rc.task_id user.context_id (execution_error s))))
    ∷ []

-- `_settleBus`: whether the bus is closed and forgotten once the executor has returned.
unfoldable pub closes_bus : List TaskState → Option TaskState → Bool
closes_bus keep none = true
closes_bus keep (some s) = if includes_state keep s then false else true
