-- ===== src/Tests/Sends.antt =====
-- The results of `sendMessage` on short executions.
use package.a2a_js.Prelude.{none, some, List, [], ◌∷◌, ◌++◌, ◌≡◌, refl, pos}
use package.a2a_js.Types.{
  Task, working, completed, auth_required, AgentExecutionEvent, task_event, GetTaskRequest,
}
use package.a2a_js.Context.{resolve_user_scope}
use package.a2a_js.Errors.{ok}
use package.a2a_js.Store.Scoped.{get_bucket, update_bucket, new_scoped_store}
use package.a2a_js.Store.Tasks.{load, save}
use package.a2a_js.Result.{
  new_result_manager, set_context, process_event, process_events, task_result, get_final_result,
}
use package.a2a_js.Result.Merge.{apply_artifact, merge_task, with_latest, apply_status}
use package.a2a_js.Result.Stored.{IsConsistent}
use package.a2a_js.Handler.History.{apply_history_length}
use package.a2a_js.Handler.Tasks.{get_task}
use package.a2a_js.Handler.Send.{blocking_loop, blocking_result, first_result}
use package.a2a_js.Handler.Send.Results.{get_task-blocking_result, blocking_result_of_auth_required}
use package.a2a_js.Tests.Data.{
  task_store, manager, message_of, task_of, artifact_of, update_to, artifact_event,
}

manager-IsConsistent : IsConsistent task_store manager
unfolding load get_bucket new_scoped_store set_context new_result_manager
manager-IsConsistent = record { keyed = λ id t h. cc; current = λ t h. cc }

abbrev events : List AgentExecutionEvent
events = task_event (task_of working) ∷ artifact_event ∷ update_to completed ∷ []

abbrev task_request : GetTaskRequest
task_request = record { tenant = "acme"; id = "t1"; history_length = some (pos 1) }

-- The task that the execution `events` leaves, with one message of its history.
abbrev final_task : Task
final_task = record (task_of completed) {
  history = message_of "m2" "t1" ∷ [];
  artifacts = artifact_of "a1" "draft" ∷ [];
}

meets_no_auth : (blocking_loop task_store events manager none).1 ≡ none
unfolding blocking_loop
meets_no_auth = refl

returns_final_task :
    blocking_result task_store (some (pos 1)) (blocking_loop task_store events manager none)
    ≡ ok (task_result final_task)
unfolding blocking_loop blocking_result get_final_result process_event load save get_bucket
    update_bucket new_scoped_store resolve_user_scope merge_task with_latest apply_status
    apply_artifact set_context new_result_manager apply_history_length
returns_final_task = refl

get_task-blocking_result_example :
    let rm = (blocking_loop task_store events manager none).0 in
    get_task task_store task_request rm.server_call_context rm.task_store ≡ ok final_task
get_task-blocking_result_example =
    get_task-blocking_result task_store (some (pos 1)) events manager final_task task_request
      manager-IsConsistent meets_no_auth returns_final_task refl refl

-- The task as it waits for credentials.
abbrev waiting_task : Task
waiting_task = record (task_of auth_required) {
  history = message_of "m9" "t1" ∷ message_of "m1" "t1" ∷ message_of "m2" "t1" ∷ [];
}

abbrev first_task : List AgentExecutionEvent
first_task = task_event (task_of working) ∷ []

waits_for_auth :
    (process_event task_store
      (update_to auth_required)
      (process_events task_store first_task manager)).current_task
    ≡ some waiting_task
unfolding process_events process_event load save get_bucket update_bucket new_scoped_store
    resolve_user_scope merge_task with_latest apply_status set_context new_result_manager
waits_for_auth = refl

blocking_result_of_auth_required_example :
    blocking_result task_store none (
      blocking_loop task_store
        (first_task ++ update_to auth_required ∷ update_to completed ∷ [])
        manager
        none)
    ≡ ok (task_result (apply_history_length none waiting_task))
blocking_result_of_auth_required_example =
    blocking_result_of_auth_required task_store none first_task (update_to completed ∷ [])
      (update_to auth_required) manager waiting_task refl refl waits_for_auth

-- An update of an unknown task resolves nothing.
ignores_unknown :
    first_result task_store artifact_event (process_event task_store artifact_event manager) ≡ none
unfolding first_result get_final_result process_event load get_bucket new_scoped_store set_context
    new_result_manager
ignores_unknown = refl

resolves_with_task :
    first_result task_store (task_event (task_of working)) (
      process_event task_store
        (task_event (task_of working))
        (process_events task_store (artifact_event ∷ []) manager))
    ≡ some (task_result (task_of working))
unfolding first_result
resolves_with_task = refl
