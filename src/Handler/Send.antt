-- ===== src/Handler/Send.antt =====
-- `sendMessage` and the loop of `_processEvents` that it runs, blocking and non-blocking. The events
-- that the consumer's queue delivers are a parameter. No step of the loop fails here, since the
-- task store does not reject.
pub mod Results
use package.a2a_js.Prelude.{
  ℤ, String, Bool, true, false, not, ◌&&◌, Option, none, some, List, [], ◌∷◌, truthy, is_some,
  if◌then◌else◌,
}
use package.a2a_js.Types.{
  Message, Task, TaskStatus, SendMessageRequest, SendMessageConfiguration,
  TaskPushNotificationConfig, AgentCard, AgentExecutionEvent, message_event, task_event,
  status_update, artifact_update, includes_state, auth_required_state_list,
}
use package.a2a_js.Context.{ServerCallContext}
use package.a2a_js.Errors.{A2aError, Result, ok, err, a2a_error, request_malformed}
use package.a2a_js.Store.Interface.{TaskStore}
use package.a2a_js.Store.Push.{PushStore}
use package.a2a_js.Store.Push
use package.a2a_js.Result.{
  ResultManager, new_result_manager, set_context, process_event, SendResult, message_result,
  task_result, get_final_result,
}
use package.a2a_js.Handler.Context.{RequestContext, create_request_context, get_agent_card}
use package.a2a_js.Handler.History.{apply_history_length}
use package.a2a_js.Handler.Push.{supports_push}

abbrev waits_for_auth : Option TaskStatus → Bool
waits_for_auth none = false
waits_for_auth (some st) = includes_state auth_required_state_list st.state

-- A status update to `AUTH_REQUIRED`.
abbrev pub is_auth_required : AgentExecutionEvent → Bool
is_auth_required (status_update u) = waits_for_auth u.status
is_auth_required (message_event m) = false
is_auth_required (task_event t) = false
is_auth_required (artifact_update u) = false

-- A result cut to the history that was asked for.
unfoldable pub limit_result : Option ℤ → SendResult → SendResult
limit_result n (message_result m) = message_result m
limit_result n (task_result t) = task_result (apply_history_length n t)

-- The result of a blocking call whose events are all consumed.
abbrev pub finish_blocking : Option ℤ → Option SendResult → Result SendResult
finish_blocking n none =
    err (a2a_error "Agent execution finished without a result, and no task context found.")
finish_blocking n (some r) = ok (limit_result n r)

abbrev pub history_length_in : Option SendMessageConfiguration → Option ℤ
history_length_in none = none
history_length_in (some config) = config.history_length

abbrev returns_immediately : Option SendMessageConfiguration → Bool
returns_immediately none = false
returns_immediately (some config) = config.return_immediately

abbrev pub push_config_in : Option SendMessageConfiguration → Option TaskPushNotificationConfig
push_config_in none = none
push_config_in (some config) = config.task_push_notification_config

-- The push config of the request is saved for the task.
abbrev pub save_push_config :
    String
    → AgentCard
    → String
    → ServerCallContext
    → Option TaskPushNotificationConfig
    → PushStore
    → PushStore
save_push_config uuid card task_id c none ps = ps
save_push_config uuid card task_id c (some config) ps =
    if supports_push card then (Push.save uuid task_id c config ps).0 else ps

module _ (ts : TaskStore) where
  open ts use {Store}

  -- The blocking loop: `snapshot` is the task at the first `AUTH_REQUIRED` that finds one.
  unfoldable pub blocking_loop :
      List AgentExecutionEvent
      → ResultManager Store
      → Option Task
      → ResultManager Store × Option Task
  blocking_loop [] rm snapshot = (rm, snapshot)
  blocking_loop (e ∷ es) rm snapshot =
      let rm' = process_event ts e rm in
      blocking_loop es rm'
        (if not (is_some snapshot) && is_auth_required e then rm'.current_task else snapshot)

  unfoldable pub blocking_result : Option ℤ → ResultManager Store × Option Task → Result SendResult
  unfolding limit_result
  blocking_result n (rm, some t) = ok (task_result (apply_history_length n t))
  blocking_result n (rm, none) = finish_blocking n (get_final_result rm)

  -- What an event resolves a non-blocking call with.
  unfoldable pub first_result : AgentExecutionEvent → ResultManager Store → Option SendResult
  first_result (message_event m) rm = some (message_result m)
  first_result (task_event t) rm = some (task_result t)
  first_result (status_update u) rm = get_final_result rm
  first_result (artifact_update u) rm = get_final_result rm

  -- The non-blocking loop: `first` is the first result.
  unfoldable pub non_blocking_loop :
      List AgentExecutionEvent
      → ResultManager Store
      → Option SendResult
      → ResultManager Store × Option SendResult
  unfolding first_result
  non_blocking_loop [] rm first = (rm, first)
  non_blocking_loop (e ∷ es) rm first =
      let rm' = process_event ts e rm in
      non_blocking_loop es rm' (if is_some first then first else first_result e rm')

  unfoldable pub non_blocking_result :
      Option ℤ → ResultManager Store × Option SendResult → Result SendResult
  unfolding limit_result
  non_blocking_result n (rm, none) =
      err (request_malformed "Execution finished before a message or task was produced.")
  non_blocking_result n (rm, some r) = ok (limit_result n r)

  -- The stores once the execution has been consumed, and the result of the call.
  pub record Sent : Type 0 where
    pub task_store : Store
    pub push_store : PushStore
    pub result : Result SendResult

  -- The manager of a request, before any event.
  unfoldable pub start_manager : Message → RequestContext → Store → ResultManager Store
  start_manager m rc s = set_context ts m (new_result_manager s rc.context)

  -- The events of the execution and the result, once the request was accepted.
  unfoldable pub consume :
      SendMessageRequest
      → Message
      → RequestContext
      → List AgentExecutionEvent
      → Store
      → PushStore
      → Sent
  unfolding start_manager
  consume request m rc delivered s ps =
      let n = history_length_in request.configuration in
      let rm = start_manager m rc s in
      if returns_immediately request.configuration
      then (let out = non_blocking_loop delivered rm none in
          record {
            task_store = out.0.task_store;
            push_store = ps;
            result = non_blocking_result n out;
          })
      else (let out = blocking_loop delivered rm none in
          record { task_store = out.0.task_store; push_store = ps; result = blocking_result n out })

  abbrev refused_sent : A2aError → Store → PushStore → Sent
  refused_sent e s ps = record { task_store = s; push_store = ps; result = err e }

  abbrev send_resolved :
      String
      → AgentCard
      → SendMessageRequest
      → Message
      → List AgentExecutionEvent
      → PushStore
      → Result RequestContext × Store
      → Sent
  send_resolved uuid card request m delivered ps (err e, s) = refused_sent e s ps
  send_resolved uuid card request m delivered ps (ok rc, s) =
      consume request m rc delivered s
        (save_push_config uuid card rc.task_id rc.context (push_config_in request.configuration) ps)

  abbrev send_with :
      String
      → String
      → String
      → Option (AgentCard → AgentCard)
      → AgentCard
      → SendMessageRequest
      → ServerCallContext
      → List AgentExecutionEvent
      → Option Message
      → Store
      → PushStore
      → Sent
  send_with u1 u2 u3 sign card request c delivered none s ps =
      refused_sent (request_malformed "message.messageId is required.") s ps
  send_with u1 u2 u3 sign card request c delivered (some m) s ps =
      if truthy m.message_id
      then send_resolved u3 card request m delivered ps
          (create_request_context ts u1 u2 (get_agent_card sign card) request c s)
      else refused_sent (request_malformed "message.messageId is required.") s ps

  -- `u1` to `u3` are the values of `crypto.randomUUID()`; `sign` is the generator of signatures.
  unfoldable pub send_message :
      String
      → String
      → String
      → Option (AgentCard → AgentCard)
      → AgentCard
      → SendMessageRequest
      → ServerCallContext
      → List AgentExecutionEvent
      → Store
      → PushStore
      → Sent
  unfolding consume
  send_message u1 u2 u3 sign card request c delivered s ps =
      send_with u1 u2 u3 sign card request c delivered request.message s ps
