-- ===== src/Rpc/Server.antt =====
-- `JsonRpcTransportHandler` of src/server/transports/jsonrpc/jsonrpc_transport_handler.ts. A tenant
-- in the parameters that is no string is not modelled.
use package.a2a_js.Prelude.{
  String, Bool, true, false, Option, none, some, map, get, or_else, or_string, truthy, is_true, any,
  not, ◌&&◌, ◌||◌, ◌==◌, inl, inr, if◌then◌else◌,
}
use package.a2a_js.Types.{Json, null, num, str, arr, obj, struct_of, StreamResponse, AgentCard}
use package.a2a_js.Errors.{ok, err}
use package.a2a_js.Errors.Classes.{Thrown, a2a, other_error, no_transport, make_error}
use package.a2a_js.Errors.JsonRpc.{to_json_rpc_error, method_not_found}
use package.a2a_js.Context.{ServerCallContext}
use package.a2a_js.Handler.Context.{concat}
use package.a2a_js.Codec.Fields.{MessageFns, members, to_json, from_json}
use package.a2a_js.Codec.Tasks.{task_fns}
use package.a2a_js.Codec.Cards.{card_fns}
use package.a2a_js.Codec.Requests.{push_config_fns, send_request_fns}
use package.a2a_js.Codec.Queries.{
  get_request_fns, list_request_fns, cancel_request_fns, push_request_fns, subscribe_request_fns,
  list_push_request_fns, card_request_fns,
}
use package.a2a_js.Codec.Responses.{send_response_fns, stream_response_fns, list_push_response_fns}
use package.a2a_js.Rpc.{
  Attempt, returned, threw, Action, Events, RequestHandler, RpcPlatform, Outcome, result, failure,
  RpcResponse, Reply, response, stream, rejected,
}
use package.a2a_js.Rpc.Listing.{serialize_list_tasks_response}

abbrev pub malformed : String → Thrown
malformed text = a2a (make_error "RequestMalformedError" (some text) none no_transport)

-- A method that is set and is a string.
abbrev pub method_of : Json → String
method_of v = elim (get "method" (members v)) [ some (str m) ↦ m | _ ↦ "" ]

-- `rpcRequest.id ?? null`.
abbrev pub id_of : Json → Json
id_of v = or_else (get "id" (members v)) null

-- The parameters; an object that has none gives `null` here, which `fromJSON` takes like it.
abbrev pub rpc_params : Json → Json
rpc_params v = or_else (get "params" (members v)) null

-- `paramsAreValid`.
unfoldable pub params_are_valid : Json → Bool
params_are_valid (obj fs) = not (any (λ e. e.0 == "") (struct_of fs))
params_are_valid _ = false

-- The `tenant` of the parameters, if it is truthy.
abbrev pub tenant_of : Json → Option String
tenant_of params = elim (get "tenant" (members params)) [
  | some (str t) ↦ if truthy t then some t else none
  | _ ↦ none
]

-- The context that the handler is given: a new one if only the parameters name a tenant.
unfoldable pub context_for : Json → ServerCallContext → ServerCallContext
context_for params c = elim (tenant_of params) [
  | none ↦ c
  | some t ↦ if truthy (or_else c.tenant "") then c else record {
    requested_extensions = c.requested_extensions;
    user = c.user;
    requested_version = or_string c.requested_version "0.3";
    tenant = some t;
    activated_extensions = none;
  }
]

abbrev pub is_streaming_method : String → Bool
is_streaming_method m = (m == "SendStreamingMessage") || (m == "SubscribeToTask")

-- `agentCard.capabilities?.streaming`.
abbrev pub can_stream : AgentCard → Bool
can_stream card = elim card.capabilities [ none ↦ false | some c ↦ is_true c.streaming ]

abbrev pub error_reply : Json → Thrown → Reply
error_reply id e = response (record { id = id; outcome = failure (to_json_rpc_error e) })

-- `await m`, then the rest.
abbrev pub then_of {ℓ} :
    {W : Type 0} {A B : Type ℓ} → (A → Action W B) → Attempt A × W → Attempt B × W
then_of k (returned a, w) = k a w
then_of k (threw e, w) = (threw e, w)

-- The reply to a call that does not stream.
abbrev pub reply_of : {W : Type 0} → Json → Attempt Outcome × W → Reply × W
reply_of id (returned o, w) = (response (record { id = id; outcome = o }), w)
reply_of id (threw e, w) = (error_reply id e, w)

module _ (p : RpcPlatform) where
  open p use {js, parse, is_integer, type_error_text}

  -- Reading a message fails only where a property of `null` or `undefined` is read, or a conversion
  -- throws: a `TypeError`.
  abbrev pub read_request {ℓ} : {A : Type ℓ} → MessageFns A → Json → Attempt A
  read_request fns v = elim (from_json fns v) [
    | ok x ↦ returned x
    | err e ↦ threw (other_error type_error_text)
  ]

  unfoldable pub has_valid_id : Option Json → Bool
  has_valid_id none = true
  has_valid_id (some null) = true
  has_valid_id (some (str s)) = true
  has_valid_id (some (num n)) = is_integer n
  has_valid_id _ = false

  -- `isRequestValid`, on a value other than `null`.
  unfoldable pub is_request_valid : Json → Bool
  unfolding has_valid_id
  is_request_valid v =
      elim (get "jsonrpc" (members v)) [ some (str s) ↦ s == "2.0" | _ ↦ false ]
      && has_valid_id (get "id" (members v))
      && truthy (method_of v)

  -- The request of a body, and what is thrown where there is none.
  unfoldable pub rpc_value_of : Json → Attempt Json
  rpc_value_of (str s) = elim (parse s) [
    | inl text ↦ threw (malformed (or_string text "Failed to parse JSON request."))
    | inr v ↦ returned v
  ]
  rpc_value_of (obj fs) = returned (obj fs)
  rpc_value_of (arr vs) = returned (arr vs)
  rpc_value_of _ = threw (malformed "Invalid request body type.")

  module _ {W : Type 0} (h : RequestHandler W) where
    open h use {get_agent_card, send_message_stream, resubscribe}

    -- One `case` of the `switch`: the request is read, the handler called, its answer written.
    abbrev pub run_case :
        {A B : Type 0}
        → MessageFns A
        → (A → ServerCallContext → Action W B)
        → (A → B → Json)
        → Json
        → ServerCallContext
        → Action W Outcome
    run_case fns run write params c w = elim (read_request fns params) [
      | threw e ↦ (threw e, w)
      | returned x ↦ then_of (λ y w'. (returned (result (write x y)), w')) (run x c w)
    ]

    -- The methods that do not stream.
    unfoldable pub run_method : String → Json → ServerCallContext → Action W Outcome
    run_method m params c =
        if m == "SendMessage"
        then run_case (send_request_fns js) h.send_message
            (λ x y. to_json (send_response_fns js) (some y)) params c
        else if m == "GetTask"
        then run_case (get_request_fns js) h.get_task (λ x y. to_json (task_fns js) y) params c
        else if m == "ListTasks"
        then run_case (list_request_fns js) h.list_tasks
            (λ x y. serialize_list_tasks_response js y x.include_artifacts) params c
        else if m == "CancelTask"
        then run_case (cancel_request_fns js) h.cancel_task (λ x y. to_json (task_fns js) y) params
            c
        else if m == "CreateTaskPushNotificationConfig"
        then run_case (push_config_fns js) h.create_task_push_notification_config
            (λ x y. to_json (push_config_fns js) y) params c
        else if m == "GetTaskPushNotificationConfig"
        then run_case (push_request_fns js) h.get_task_push_notification_config
            (λ x y. to_json (push_config_fns js) y) params c
        else if m == "DeleteTaskPushNotificationConfig"
        then run_case (push_request_fns js) h.delete_task_push_notification_config (λ x y. null)
            params c
        else if m == "ListTaskPushNotificationConfigs"
        then run_case (list_push_request_fns js) h.list_task_push_notification_configs
            (λ x y. to_json (list_push_response_fns js) y) params c
        else if m == "GetExtendedAgentCard"
        then run_case (card_request_fns js) h.get_authenticated_extended_agent_card
            (λ x y. to_json (card_fns js) y) params c
        else λ w. (
          returned (
              failure
                (record { code = method_not_found; message = "Invalid method."; details = none })),
          w,
        )

    -- `jsonRpcEventStream`.
    abbrev pub event_stream : Json → Events StreamResponse × W → Attempt (Events RpcResponse) × W
    event_stream id (events, w) = (
      returned (record {
        yielded =
            map
              (λ e. record {
                id = id;
                outcome = result (to_json (stream_response_fns js) (some e));
              })
              events.yielded;
        failure = events.failure;
      }),
      w,
    )

    abbrev pub opened :
        {A : Type 0}
        → Json
        → Attempt A
        → (A → W → Events StreamResponse × W)
        → Action W (Events RpcResponse)
    opened id (threw e) run w = (threw e, w)
    opened id (returned x) run w = event_stream id (run x w)

    -- The stream of a method, once the card is known to allow it.
    unfoldable pub open_stream :
        String → Json → Json → ServerCallContext → AgentCard → Action W (Events RpcResponse)
    open_stream m id params c card w =
        if can_stream card
        then if m == "SendStreamingMessage"
          then opened id (read_request (send_request_fns js) params) (λ x. send_message_stream x c)
              w
          else opened id (read_request (subscribe_request_fns js) params) (λ x. resubscribe x c) w
        else (
          threw (
              a2a (
                make_error "UnsupportedOperationError"
                  (some (concat "Method " (concat m " requires streaming capability."))) none
                  no_transport)),
          w,
        )

    abbrev pub stream_reply : Json → Attempt (Events RpcResponse) × W → Reply × W
    stream_reply id (returned s, w) = (stream s, w)
    stream_reply id (threw e, w) = (error_reply id e, w)

    -- `handle` on a valid request.
    unfoldable pub handle_request : Json → ServerCallContext → W → Reply × W
    unfolding run_method open_stream params_are_valid context_for
    handle_request v context w =
        let m = method_of v in
        let params = rpc_params v in
        let c = context_for params context in
        if not (m == "GetExtendedAgentCard") && not (params_are_valid params)
        then (error_reply (id_of v) (malformed "Invalid method parameters."), w)
        else if is_streaming_method m
        then stream_reply (id_of v) (then_of (open_stream m (id_of v) params c) (get_agent_card w))
        else reply_of (id_of v) (run_method m params c w)

    -- `null` throws twice: where it is checked, and where its identifier is read for the reply.
    unfoldable pub handle_value : Json → ServerCallContext → W → Reply × W
    unfolding handle_request is_request_valid
    handle_value null context w = (rejected (other_error type_error_text), w)
    handle_value v context w =
        if is_request_valid v
        then handle_request v context w
        else (error_reply (id_of v) (malformed "Invalid JSON-RPC Request."), w)

    unfoldable pub handle : Json → ServerCallContext → W → Reply × W
    unfolding handle_value rpc_value_of
    handle body context w = elim (rpc_value_of body) [
      | threw e ↦ (error_reply null e, w)
      | returned v ↦ handle_value v context w
    ]
