-- ===== src/Types/Events.antt =====
-- The update events and `StreamResponse` of src/types/pb/a2a.ts, and the events that an executor
-- publishes (src/server/events/execution_event_bus.ts).
use package.a2a_js.Prelude.{String, Bool, Option}
use package.a2a_js.Types.Values.{Struct}
use package.a2a_js.Types.Messages.{Message}
use package.a2a_js.Types.Tasks.{TaskStatus, Artifact, Task}

pub record TaskStatusUpdateEvent : Type 0 where
  pub task_id : String
  pub context_id : String
  pub status : Option TaskStatus
  pub metadata : Option Struct

pub record TaskArtifactUpdateEvent : Type 0 where
  pub task_id : String
  pub context_id : String
  pub artifact : Option Artifact
  pub append : Bool
  pub last_chunk : Bool
  pub metadata : Option Struct

pub data AgentExecutionEvent : Type 0 where
  message_event : Message → AgentExecutionEvent
  task_event : Task → AgentExecutionEvent
  status_update : TaskStatusUpdateEvent → AgentExecutionEvent
  artifact_update : TaskArtifactUpdateEvent → AgentExecutionEvent

pub data StreamResponse : Type 0 where
  task_response : Task → StreamResponse
  message_response : Message → StreamResponse
  status_response : TaskStatusUpdateEvent → StreamResponse
  artifact_response : TaskArtifactUpdateEvent → StreamResponse
