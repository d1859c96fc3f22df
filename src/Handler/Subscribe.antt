-- ===== src/Handler/Subscribe.antt =====
-- `sendMessageStream`, `resubscribe` and `_mapEventToStreamResponse`. The events that the consumer's
-- queue delivers are a parameter, and the push notifications that a stream sends are left out.
pub mod Laws
use package.a2a_js.Prelude.{
  ℤ, String, Bool, not, Option, none, some, List, [], ◌∷◌, map, filter, or_else, is_true, truthy,
  if◌then◌else◌, ◌==◌,
}
use package.a2a_js.Types.{
  Message, Task, StreamResponse, task_response, message_response, status_response,
  artifact_response, AgentExecutionEvent, message_event, task_event, status_update, artifact_update,
  AgentCard, AgentCapabilities, SendMessageRequest,
}
use package.a2a_js.Context.{ServerCallContext}
use package.a2a_js.Errors.{
  A2aError, Result, ok, err, ◌>>=◌, ◌>>◌, throw_if, request_malformed, unsupported_operation,
}
use package.a2a_js.Store.Interface.{TaskStore}
use package.a2a_js.Store.Push.{PushStore}
use package.a2a_js.Result.{ResultManager, process_event}
use package.a2a_js.Handler.Context.{
  RequestContext, create_request_context, get_agent_card, concat, is_terminal, state_text_of,
}
use package.a2a_js.Handler.History.{apply_history_length}
use package.a2a_js.Handler.Stream.{StreamPattern, undetermined, advance_stream_pattern}
use package.a2a_js.Handler.Tasks.{found_or}
use package.a2a_js.Handler.Send.{start_manager, save_push_config, push_config_in, history_length_in}

unfoldable pub limit_response : Option ℤ → StreamResponse → StreamResponse
limit_response n (task_response t) = task_response (apply_history_length n t)
limit_response n (message_response m) = message_response m
limit_response n (status_response u) = status_response u
limit_response n (artifact_response u) = artifact_response u

abbrev streaming_flag : Option AgentCapabilities → Option Bool
streaming_flag none = none
streaming_flag (some c) = c.streaming

-- `agentCard.capabilities?.streaming`.
abbrev pub supports_streaming : AgentCard → Bool
supports_streaming card = is_true (streaming_flag card.capabilities)

-- The event as a response of a subscription to the task of an id: an event about another task and
-- a message give none.
unfoldable pub resubscribe_response : String → AgentExecutionEvent → Option StreamResponse
resubscribe_response id (status_update u) =
    if u.task_id == id then some (status_response u) else none
resubscribe_response id (artifact_update u) =
    if u.task_id == id then some (artifact_response u) else none
resubscribe_response id (task_event t) = if t.id == id then some (task_response t) else none
resubscribe_response id (message_event m) = none

abbrev put_response : Option StreamResponse → List StreamResponse → List StreamResponse
put_response none rest = rest
put_response (some r) rest = r ∷ rest

unfoldable pub resubscribe_loop : String → List AgentExecutionEvent → List StreamResponse
unfolding resubscribe_response
resubscribe_loop id [] = []
resubscribe_loop id (e ∷ es) = put_response (resubscribe_response id e) (resubscribe_loop id es)

module _ (ts : TaskStore) where
  open ts use {Store, load}

  unfoldable pub map_event : AgentExecutionEvent → ServerCallContext → Store → StreamResponse
  map_event (task_event t) c s = task_response (or_else (load t.id c s) t)
  map_event (message_event m) c s = message_response m
  map_event (status_update u) c s = status_response u
  map_event (artifact_update u) c s = artifact_response u

  -- What a stream has yielded when it ends, with the error that it ended by.
  pub record Streamed : Type 0 where
    pub manager : ResultManager Store
    pub responses : List StreamResponse
    pub failure : Option A2aError

  abbrev pub put_first : StreamResponse → Streamed → Streamed
  put_first r out = record out { responses = r ∷ out.responses }

  -- The response to an event that the manager has processed.
  abbrev pub response_to : Option ℤ → AgentExecutionEvent → ResultManager Store → StreamResponse
  response_to n e rm = limit_response n (map_event e rm.server_call_context rm.task_store)

  unfoldable pub stream_loop :
      Option ℤ → List AgentExecutionEvent → StreamPattern → ResultManager Store → Streamed
  unfolding map_event limit_response
  stream_loop n [] p rm = record { manager = rm; responses = []; failure = none }
  stream_loop n (e ∷ es) p rm = elim (advance_stream_pattern e p) [
    | err x ↦ record { manager = rm; responses = []; failure = some x }
    | ok next ↦
        put_first (response_to n e (process_event ts e rm))
          (stream_loop n es next (process_event ts e rm))
  ]

  abbrev stream_resolved :
      String
      → AgentCard
      → SendMessageRequest
      → Message
      → List AgentExecutionEvent
      → PushStore
      → Result RequestContext × Store
      → Result Streamed × Store × PushStore
  stream_resolved uuid card request m delivered ps (err e, s) = (err e, s, ps)
  stream_resolved uuid card request m delivered ps (ok rc, s) =
      let n = history_length_in request.configuration in
      let out = stream_loop n delivered undetermined (start_manager ts m rc s) in
      (
        ok out,
        out.manager.task_store,
        save_push_config uuid card rc.task_id rc.context (push_config_in request.configuration) ps,
      )

  abbrev stream_with :
      String
      → String
      → String
      → Option (AgentCard → AgentCard)
      → AgentCard
      → SendMessageRequest
      → ServerCallContext
      → List AgentExecutionEvent
      → Option Message
      → Store
      → PushStore
      → Result Streamed × Store × PushStore
  stream_with u1 u2 u3 sign card request c delivered none s ps =
      (err (request_malformed "message.messageId is required for streaming."), s, ps)
  stream_with u1 u2 u3 sign card request c delivered (some m) s ps =
      if truthy m.message_id
      then stream_resolved u3 card request m delivered ps
          (create_request_context ts u1 u2 (get_agent_card sign card) request c s)
      else (err (request_malformed "message.messageId is required for streaming."), s, ps)

  -- The stream of a request, with the stores once its events are consumed.
  unfoldable pub send_message_stream :
      String
      → String
      → String
      → Option (AgentCard → AgentCard)
      → AgentCard
      → SendMessageRequest
      → ServerCallContext
      → List AgentExecutionEvent
      → Store
      → PushStore
      → Result Streamed × Store × PushStore
  unfolding stream_loop
  send_message_stream u1 u2 u3 sign card request c delivered s ps =
      stream_with u1 u2 u3 sign card request c delivered request.message s ps

  -- The events from the bus, if a bus is there.
  abbrev pub delivered_by : Option (List AgentExecutionEvent) → List AgentExecutionEvent
  delivered_by none = []
  delivered_by (some es) = es

  -- The responses of a subscription.
  unfoldable pub resubscribe :
      AgentCard
      → Option (List AgentExecutionEvent)
      → String
      → ServerCallContext
      → Store
      → Result (List StreamResponse)
  unfolding resubscribe_loop
  resubscribe card bus id c s = do
    throw_if (not (supports_streaming card))
        (unsupported_operation "Streaming (and thus resubscription) is not supported.")
    t ← found_or id (load id c s)
    throw_if (is_terminal t) (
        unsupported_operation (
          concat "Task " (
            concat id (
              concat " is in a terminal state ("
                (concat (state_text_of t) ") and cannot be subscribed to.")))))
    ok (task_response t ∷ resubscribe_loop id (delivered_by bus))
