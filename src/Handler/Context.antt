-- ===== src/Handler/Context.antt =====
-- `_createRequestContext` and `getAgentCard`: the checks on an incoming message, and the task that
-- it continues.
pub mod Accepted
use package.a2a_js.Prelude.{
  String, Bool, true, false, not, ◌&&◌, ◌||◌, Option, none, some, List, [], ◌∷◌, ◌++◌, map, filter,
  any, is_empty, truthy, or_else, or_string, if◌then◌else◌, ◌==◌,
}
use Prim.Native.String
use package.a2a_js.Types.{
  Message, Task, TaskStatus, TaskState, SendMessageRequest, AgentCard, AgentCapabilities,
  AgentExtension, includes_state, terminal_state_list, unspecified, submitted, working, completed,
  failed, canceled, input_required, rejected, auth_required, unknown_state,
}
use package.a2a_js.Context.{ServerCallContext, set_requested_extensions}
use package.a2a_js.Errors.{
  A2aError, Result, ok, err, ◌>>=◌, ◌>>◌, throw_if, request_malformed, task_not_found,
  unsupported_operation, extension_support_required,
}
use package.a2a_js.Store.Interface.{TaskStore}

-- `RequestContext` of src/server/agent_execution/request_context.ts.
pub record RequestContext : Type 0 where
  pub request : SendMessageRequest
  pub task_id : String
  pub context_id : String
  pub context : ServerCallContext
  pub task : Option Task
  pub reference_tasks : Option (List Task)

abbrev pub concat : String → String → String
concat s t = String.◌++◌ s t

-- An enum value in a template string.
abbrev pub state_text : TaskState → String
state_text unspecified = "0"
state_text submitted = "1"
state_text working = "2"
state_text completed = "3"
state_text failed = "4"
state_text canceled = "5"
state_text input_required = "6"
state_text rejected = "7"
state_text auth_required = "8"
state_text unknown_state = "-1"

-- `getAgentCard`: the card, signed if a generator of signatures was given.
unfoldable pub get_agent_card : Option (AgentCard → AgentCard) → AgentCard → AgentCard
get_agent_card none card = card
get_agent_card (some sign) card = sign card

abbrev extensions_in : Option AgentCapabilities → List AgentExtension
extensions_in none = []
extensions_in (some c) = c.extensions

abbrev pub card_extensions : AgentCard → List AgentExtension
card_extensions card = extensions_in card.capabilities

abbrev pub contains : String → List String → Bool
contains s xs = any (λ x. x == s) xs

-- The URIs of the required extensions that the client did not declare.
unfoldable pub missing_required : List AgentExtension → List String → List String
missing_required exts requested =
    map (λ e. e.uri) (filter (λ e. e.required && not (contains e.uri requested)) exts)

pub join_uris : List String → String
join_uris [] = ""
join_uris (u ∷ []) = u
join_uris (u ∷ v ∷ us) = concat u (concat ", " (join_uris (v ∷ us)))

-- The requested extensions that the agent exposes.
unfoldable pub narrow_extensions : List AgentExtension → ServerCallContext → ServerCallContext
narrow_extensions exts c = elim c.requested_extensions [
  | none ↦ c
  | some requested ↦
      set_requested_extensions c (some (filter (λ u. contains u (map (λ e. e.uri) exts)) requested))
]

abbrev pub state_in : Option TaskStatus → Option TaskState
state_in none = none
state_in (some st) = some st.state

abbrev pub is_terminal_state : Option TaskState → Bool
is_terminal_state none = false
is_terminal_state (some s) = includes_state terminal_state_list s

abbrev pub is_terminal : Task → Bool
is_terminal t = is_terminal_state (state_in t.status)

abbrev pub state_text_of : Task → String
state_text_of t = state_text (or_else (state_in t.status) unspecified)

abbrev pub has_context_mismatch : Message → Task → Bool
has_context_mismatch m t =
    truthy m.context_id && truthy t.context_id && not (m.context_id == t.context_id)

pub not_found_text : String → String
not_found_text id = concat "Task not found: " id

pub terminal_text : Task → String
terminal_text t = concat "Task " (
    concat t.id
      (concat " is in a terminal state (" (concat (state_text_of t) ") and cannot be modified.")))

pub mismatch_text : Message → Task → String
mismatch_text m t = concat "contextId mismatch: message contextId '" (
    concat m.context_id (
      concat "' does not match task '"
        (concat t.id (concat "' contextId '" (concat t.context_id "'")))))

-- The checks on the task that a message names, and the task with the message in its history.
unfoldable pub check_task : Message → Option Task → Result Task
check_task m none = err (task_not_found (not_found_text m.task_id))
check_task m (some t) = do
  throw_if (is_terminal t) (unsupported_operation (terminal_text t))
  throw_if (has_context_mismatch m t) (request_malformed (mismatch_text m t))
  ok (record t { history = t.history ++ m ∷ [] })

module _ (ts : TaskStore) where
  open ts use {Store, save, load}

  -- The task that the message continues, saved with the message; `none` for a new task.
  unfoldable pub continued_task : Message → ServerCallContext → Store → Result (Option Task × Store)
  unfolding check_task
  continued_task m c s =
      if truthy m.task_id
      then (do t ← check_task m (load m.task_id c s); ok (some t, save t c s))
      else ok (none, s)

  reference_tasks_from : List String → ServerCallContext → Store → List Task
  reference_tasks_from [] c s = []
  reference_tasks_from (id ∷ ids) c s =
      let others = reference_tasks_from ids c s in
      elim (load id c s) [ none ↦ others | some t ↦ t ∷ others ]

  -- `none` where the message refers to no task; a reference to a missing task is skipped.
  load_references : Message → ServerCallContext → Store → Option (List Task)
  unfolding reference_tasks_from
  load_references m c s =
      if is_empty m.reference_task_ids
      then none
      else some (reference_tasks_from m.reference_task_ids c s)

  abbrev context_of_task : Option Task → String
  context_of_task none = ""
  context_of_task (some t) = t.context_id

  -- The request with the resolved ids, or the refusal of a client that lacks an extension.
  -- `task_uuid` and `context_uuid` are the values of `crypto.randomUUID()`.
  unfoldable pub resolve_request :
      String
      → String
      → AgentCard
      → SendMessageRequest
      → Message
      → ServerCallContext
      → Option Task
      → Store
      → Result RequestContext
  unfolding load_references missing_required join_uris narrow_extensions
  resolve_request task_uuid context_uuid card request m c task s =
      let task_id = or_string m.task_id task_uuid in
      let context_id = or_string m.context_id (or_string (context_of_task task) context_uuid) in
      let missing = missing_required (card_extensions card) (or_else c.requested_extensions []) in
      let resolved : RequestContext = record {
        request = record request {
          message = some (record m { context_id = context_id; task_id = task_id });
        };
        task_id = task_id;
        context_id = context_id;
        context = narrow_extensions (card_extensions card) c;
        task = task;
        reference_tasks = load_references m c s;
      } in
      if is_empty missing
      then ok resolved
      else err (
          extension_support_required
            (concat "Client must declare support for required extensions: " (join_uris missing)))

  abbrev with_task :
      Store
      → Result (Option Task × Store)
      → (Option Task → Store → Result RequestContext)
      → Result RequestContext × Store
  with_task s (err e) k = (err e, s)
  with_task s (ok (t, s')) k = (k t s', s')

  abbrev create_with :
      String
      → String
      → AgentCard
      → SendMessageRequest
      → ServerCallContext
      → Option Message
      → Store
      → Result RequestContext × Store
  create_with task_uuid context_uuid card request c none s =
      (err (request_malformed "request.message is required."), s)
  create_with task_uuid context_uuid card request c (some m) s =
      with_task s (continued_task m c s) (resolve_request task_uuid context_uuid card request m c)

  -- The store changes on the way, also where the call is refused in the end.
  unfoldable pub create_request_context :
      String
      → String
      → AgentCard
      → SendMessageRequest
      → ServerCallContext
      → Store
      → Result RequestContext × Store
  unfolding continued_task resolve_request
  create_request_context task_uuid context_uuid card request c s =
      create_with task_uuid context_uuid card request c request.message s
