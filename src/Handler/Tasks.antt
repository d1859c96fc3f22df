-- ===== src/Handler/Tasks.antt =====
-- `getTask`, `listTasks` and `cancelTask`.
pub mod Cancel
use package.a2a_js.Prelude.{
  ℤ, pos, negsuc, zero, suc, String, Bool, true, false, not, ◌&&◌, ◌||◌, Option, none, some, List,
  [], ◌∷◌, ◌++◌, map, truthy, or_else, ltb, if◌then◌else◌,
}
use package.a2a_js.Types.{
  Message, Task, TaskStatus, TaskState, canceled, state_eq, AgentExecutionEvent, GetTaskRequest,
  ListTasksRequest, ListTasksResponse, CancelTaskRequest,
}
use package.a2a_js.Context.{ServerCallContext}
use package.a2a_js.Errors.{
  Result, ok, err, ◌>>=◌, ◌>>◌, throw_if, a2a_error, request_malformed, task_not_found,
  task_not_cancelable, type_error,
}
use package.a2a_js.Store.Interface.{TaskStore}
use package.a2a_js.Store.Tasks.{page_size_of}
use package.a2a_js.Result.{new_result_manager, process_events}
use package.a2a_js.Handler.History.{apply_history_length}
use package.a2a_js.Handler.Context.{concat, not_found_text, state_in, is_terminal_state}
use package.a2a_js.Handler.Settle.{agent_message}

abbrev pub found_or {ℓ} : {A : Type ℓ} → String → Option A → Result A
found_or id none = err (task_not_found (not_found_text id))
found_or id (some a) = ok a

abbrev pub not_cancelable_text : String → String
not_cancelable_text id = concat "Task not cancelable: " id

-- `pageSize < 1 || pageSize > 100`.
abbrev pub out_of_range : ℤ → Bool
out_of_range (pos n) = ltb n 1 || ltb 100 n
out_of_range (negsuc n) = true

-- A given `statusTimestampAfter` that is no date.
abbrev is_bad_date : (String → Bool) → Option String → Bool
is_bad_date is_date none = false
is_bad_date is_date (some after) = truthy after && not (is_date after)

abbrev is_canceled : Option TaskState → Bool
is_canceled none = false
is_canceled (some s) = state_eq s canceled

-- The task that `cancelTask` marks itself, where no execution is running.
unfoldable pub mark_canceled : String → String → Task → Task
unfolding agent_message
mark_canceled uuid now t =
    let m = agent_message uuid t.id t.context_id "Task cancellation requested by user." in
    record t {
      status = some (record { state = canceled; message = some m; timestamp = some now });
      history = t.history ++ m ∷ [];
    }

-- The check on the task that is loaded in the end.
abbrev canceled_or_error : String → Option Task → Result Task
canceled_or_error id none =
    err (a2a_error (concat "Task " (concat id " not found after cancellation.")))
canceled_or_error id (some t) = elim t.status [
  | none ↦ err type_error
  | some st ↦
      if state_eq st.state canceled
      then ok t
      else err (task_not_cancelable (not_cancelable_text id))
]

module _ (ts : TaskStore) where
  open ts use {Store, save, load, list}

  unfoldable pub get_task : GetTaskRequest → ServerCallContext → Store → Result Task
  get_task q c s = do
    t ← found_or q.id (load q.id c s)
    ok (apply_history_length q.history_length t)

  -- `is_date` says of a string that `Date.parse` does not return `NaN`.
  unfoldable pub list_tasks :
      (String → Bool) → ListTasksRequest → ServerCallContext → Store → Result ListTasksResponse
  list_tasks is_date q c s = do
    let size = page_size_of q
    throw_if (out_of_range size) (request_malformed "pageSize must be between 1 and 100")
    throw_if (is_bad_date is_date q.status_timestamp_after)
        (request_malformed "statusTimestampAfter must be a valid ISO 8601 date string")
    response ← list (record q { page_size = some size }) c s
    ok (record response { tasks = map (apply_history_length q.history_length) response.tasks })

  -- The store once the running execution, if there is one, was told to cancel: `delivered` are the
  -- events that the drain receives from its bus until it ends.
  unfoldable pub carry_out :
      String → String → Option (List AgentExecutionEvent) → Task → ServerCallContext → Store → Store
  unfolding mark_canceled
  carry_out uuid now none t c s = save (mark_canceled uuid now t) c s
  carry_out uuid now (some delivered) t c s =
      (process_events ts delivered (new_result_manager s c)).task_store

  abbrev cancel_loaded :
      String
      → String
      → Option (List AgentExecutionEvent)
      → String
      → ServerCallContext
      → Store
      → Option Task
      → Result Task × Store
  cancel_loaded uuid now bus id c s none = (err (task_not_found (not_found_text id)), s)
  cancel_loaded uuid now bus id c s (some t) =
      let after = carry_out uuid now bus t c s in
      if is_canceled (state_in t.status)
      then (ok t, s)
      else if is_terminal_state (state_in t.status)
      then (err (task_not_cancelable (not_cancelable_text id)), s)
      else (canceled_or_error id (load id c after), after)

  unfoldable pub cancel_task :
      String
      → String
      → Option (List AgentExecutionEvent)
      → CancelTaskRequest
      → ServerCallContext
      → Store
      → Result Task × Store
  unfolding carry_out
  cancel_task uuid now bus q c s = cancel_loaded uuid now bus q.id c s (load q.id c s)
