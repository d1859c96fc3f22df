-- ===== src/Tests/Data.antt =====
-- One caller, one task in two states, and the in-memory store with it.
use package.a2a_js.Prelude.{String, Bool, true, false, none, some, [], ◌∷◌, Ordering}
use package.a2a_js.Types.{
  Message, role_user, Task, TaskStatus, TaskState, Artifact, AgentExecutionEvent, status_update,
  artifact_update, SendMessageRequest, AgentCard, TaskPushNotificationConfig, PushConfigRequest,
  CancelTaskRequest,
}
use package.a2a_js.Context.{ServerCallContext, resolve_user_scope}
use package.a2a_js.Store.Scoped.{new_scoped_store}
use package.a2a_js.Store.Interface.{TaskStore}
use package.a2a_js.Store.Tasks.{Platform, InMemoryTaskStore, save}
use package.a2a_js.Store.Tasks.Scope.{in_memory_task_store}
use package.a2a_js.Store.Push.{PushStore}
use package.a2a_js.Result.{ResultManager, new_result_manager, set_context}

abbrev pub platform : Platform
platform = record {
  is_later = λ a b. false;
  is_date = λ s. true;
  locale_compare = λ a b. Ordering.eq;
  encode = λ s. s;
  decode = λ s. s;
}

abbrev pub task_store : TaskStore
task_store = in_memory_task_store platform

abbrev pub caller : ServerCallContext
caller = record {
  requested_extensions = none;
  user = some (record { is_authenticated = true; user_name = "ann" });
  requested_version = "1.0";
  tenant = some "acme";
  activated_extensions = none;
}

abbrev pub message_of : String → String → Message
message_of id task_id = record {
  message_id = id;
  context_id = "ctx";
  task_id = task_id;
  role = role_user;
  parts = [];
  metadata = none;
  extensions = [];
  reference_task_ids = [];
}

abbrev pub status_of : TaskState → TaskStatus
status_of s = record { state = s; message = some (message_of "m2" "t1"); timestamp = some "12:00" }

abbrev pub task_of : TaskState → Task
task_of s = record {
  id = "t1";
  context_id = "ctx";
  status = some (status_of s);
  artifacts = [];
  history = message_of "m1" "t1" ∷ [];
  metadata = none;
}

abbrev pub artifact_of : String → String → Artifact
artifact_of id name = record {
  artifact_id = id;
  name = name;
  description = "";
  parts = [];
  metadata = none;
  extensions = [];
}

abbrev pub update_to : TaskState → AgentExecutionEvent
update_to s =
    status_update
      (record { task_id = "t1"; context_id = "ctx"; status = some (status_of s); metadata = none })

abbrev pub artifact_event : AgentExecutionEvent
artifact_event = artifact_update (record {
  task_id = "t1";
  context_id = "ctx";
  artifact = some (artifact_of "a1" "draft");
  append = true;
  last_chunk = false;
  metadata = none;
})

abbrev pub empty_store : InMemoryTaskStore
empty_store = new_scoped_store resolve_user_scope

-- The store in which the caller has the task in a state.
abbrev pub store_with : TaskState → InMemoryTaskStore
store_with s = save (task_of s) caller empty_store

-- A manager for the message `m9` over the empty store.
abbrev pub manager : ResultManager InMemoryTaskStore
manager = set_context task_store (message_of "m9" "t1") (new_result_manager empty_store caller)

abbrev pub card_with : Bool → AgentCard
card_with required = record {
  name = "agent";
  description = "";
  supported_interfaces = [];
  provider = none;
  version = "1";
  documentation_url = none;
  capabilities = some (record {
    streaming = some true;
    push_notifications = some true;
    extensions =
        record { uri = "ext:a"; description = ""; required = required; params = none } ∷ [];
    extended_agent_card = none;
  });
  security_schemes = [];
  security_requirements = [];
  default_input_modes = [];
  default_output_modes = [];
  skills = [];
  signatures = [];
  icon_url = none;
}

abbrev pub send_request : SendMessageRequest
send_request = record {
  tenant = "acme";
  message = some (message_of "m9" "t1");
  configuration = none;
  metadata = none;
}

abbrev pub cancel_request : CancelTaskRequest
cancel_request = record { tenant = "acme"; id = "t1"; metadata = none }

abbrev pub push_config : TaskPushNotificationConfig
push_config = record {
  tenant = "acme";
  id = "";
  task_id = "t1";
  url = "https://example.org/hook";
  token = "";
  authentication = none;
}

abbrev pub config_request : PushConfigRequest
config_request = record { tenant = "acme"; task_id = "t1"; id = "u1" }

abbrev pub empty_push_store : PushStore
empty_push_store = new_scoped_store resolve_user_scope
