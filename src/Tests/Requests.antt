-- ===== src/Tests/Requests.antt =====
-- Requests for a task of the in-memory store: sending a message, and an executor that fails.
use package.a2a_js.Prelude.{
  true, is_empty, false, none, some, List, [], ◌∷◌, ◌++◌, ◌≡◌, inr, refl, pos, length,
}
use package.a2a_js.Types.{
  Message, Task, working, auth_required, TaskState, AgentExecutionEvent, task_event,
  interrupted_state_list,
}
use package.a2a_js.Context.{resolve_user_scope}
use package.a2a_js.Errors.{ok, err, A2aError}
use package.a2a_js.Store.Scoped.{get_bucket, update_bucket, new_scoped_store}
use package.a2a_js.Store.Tasks.{load, save}
use package.a2a_js.Events.Queue.{is_final}
use package.a2a_js.Result.Merge.{has_message}
use package.a2a_js.Handler.Context.{
  RequestContext, create_request_context, continued_task, check_task, resolve_request,
  missing_required, card_extensions,
}
use package.a2a_js.Handler.Context.Accepted.{
  IsAccepted, with_message, create_request_context-IsAccepted, refused_message_is_saved,
}
use package.a2a_js.Handler.History.{apply_history_length, kept, apply_history_length_bounds}
use package.a2a_js.Handler.Settle.{
  closes_bus, latest_state, latest_task, failure_events, stream_failure_events,
}
use package.a2a_js.Handler.Settle.Laws.{failure_events_close, stream_failure_events-IsOrdered}
use package.a2a_js.Handler.Stream.{IsOrdered}
use package.a2a_js.Tests.Data.{
  task_store, caller, card_with, store_with, message_of, task_of, artifact_event, send_request,
}

is_stored : (s : TaskState) → load "t1" caller (store_with s) ≡ some (task_of s)
unfolding load save get_bucket update_bucket new_scoped_store resolve_user_scope
is_stored s = refl

-- The message `m9` for the working task.
abbrev continued : Task
continued = with_message (message_of "m9" "t1") (task_of working)

abbrev accepted_context : RequestContext
accepted_context = record {
  request = send_request;
  task_id = "t1";
  context_id = "ctx";
  context = caller;
  task = some continued;
  reference_tasks = none;
}

accepts :
    create_request_context task_store "u1" "u2"
      (card_with false)
      send_request
      caller
      (store_with working)
    ≡ (ok accepted_context, save continued caller (store_with working))
unfolding create_request_context continued_task check_task resolve_request load save get_bucket
    update_bucket new_scoped_store resolve_user_scope
accepts = refl

create_request_context-IsAccepted_example :
    IsAccepted task_store
      (card_with false)
      (message_of "m9" "t1")
      caller
      (store_with working)
      accepted_context
      (save continued caller (store_with working))
create_request_context-IsAccepted_example =
    create_request_context-IsAccepted task_store "u1" "u2" (card_with false) send_request
      (message_of "m9" "t1") caller (store_with working)
      (save continued caller (store_with working)) accepted_context refl accepts

lacks_extension : is_empty (missing_required (card_extensions (card_with true)) []) ≡ false
unfolding missing_required
lacks_extension = refl

refused_message_is_saved_example :
    let after =
      create_request_context task_store "u1" "u2"
        (card_with true)
        send_request
        caller
        (store_with working) in
    ((e : A2aError) × (after.0 ≡ err e)) × (load "t1" caller after.1 ≡ some continued)
refused_message_is_saved_example =
    refused_message_is_saved task_store "u1" "u2" (card_with true) send_request
      (message_of "m9" "t1") caller (store_with working) (task_of working) refl refl
      (is_stored working) refl refl refl lacks_extension

apply_history_length_bounds_example :
    (length (apply_history_length (some (pos 1)) continued).history
      ≡ kept (some (pos 1)) (length continued.history))
    × ((dropped : List Message) × (continued.history
          ≡ dropped ++ (apply_history_length (some (pos 1)) continued).history))
    × (record continued { history = (apply_history_length (some (pos 1)) continued).history }
        ≡ apply_history_length (some (pos 1)) continued)
apply_history_length_bounds_example = apply_history_length_bounds (some (pos 1)) continued

failure_events_close_example :
    let failures = failure_events "u1" "12:05" accepted_context (message_of "m9" "t1") "boom" in
    (closes_bus interrupted_state_list
        (latest_state (task_event (task_of auth_required) ∷ failures) none)
      ≡ true)
    × ((e : AgentExecutionEvent) × (t : Task) × (failures ≡ task_event t ∷ e ∷ [])
        × (is_final e ≡ true)
        × (t.id ≡ "t1")
        × (has_message "m9" t.history ≡ true))
failure_events_close_example =
    failure_events_close "u1" "12:05" accepted_context (message_of "m9" "t1") "boom"
      (task_event (task_of auth_required) ∷ [])

abbrev published : List AgentExecutionEvent
published = task_event (task_of working) ∷ artifact_event ∷ []

abbrev with_failure : List AgentExecutionEvent
with_failure =
    published
    ++ stream_failure_events "u1" "12:05" "u2" "12:06" accepted_context (message_of "m9" "t1")
        "boom" (latest_task published none)

stream_failure_events-IsOrdered_example :
    IsOrdered with_failure
    × ((front : List AgentExecutionEvent) × (e : AgentExecutionEvent) × (with_failure
          ≡ front ++ e ∷ [])
        × (is_final e ≡ true))
stream_failure_events-IsOrdered_example =
    stream_failure_events-IsOrdered "u1" "12:05" "u2" "12:06" accepted_context
      (message_of "m9" "t1") "boom" published
      (inr (task_of working, artifact_event ∷ [], refl, (tt, tt)))
