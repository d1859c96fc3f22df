-- ===== src/Rpc/EndToEnd.antt =====
-- The calls of the JSON-RPC client through its server, method by method.
use package.a2a_js.Prelude.{String, truthy, true, false, Option, some, All, ◌≡◌, refl, ap, ◌∙◌}
use package.a2a_js.Types.{
  Json, SendMessageRequest, GetTaskRequest, CancelTaskRequest, TaskPushNotificationConfig,
  ListTasksRequest, ListTasksResponse,
}
use package.a2a_js.Errors.{ok}
use package.a2a_js.Context.{ServerCallContext}
use package.a2a_js.Result.{SendResult}
use package.a2a_js.Codec.Fields.{MessageFns, to_json, from_json}
use package.a2a_js.Codec.Tasks.{task_fns}
use package.a2a_js.Codec.Requests.{
  push_config_fns, push_config_entries, send_request_fns, send_request_entries,
}
use package.a2a_js.Codec.Queries.{
  get_request_fns, get_request_entries, cancel_request_fns, cancel_request_entries,
  list_request_fns, list_request_entries,
}
use package.a2a_js.Codec.Responses.{send_response_fns, list_response_fns}
use package.a2a_js.Codec.RoundTrip.{ReadsBack, OnSome}
use package.a2a_js.Codec.RoundTrip.Tasks.{HasReadableParts, IsReadableTask, from_json-to_json_task}
use package.a2a_js.Codec.RoundTrip.Requests.{
  from_json-to_json_send_request, from_json-to_json_get_request, from_json-to_json_cancel_request,
  from_json-to_json_push_config, from_json-to_json_list_request,
}
use package.a2a_js.Codec.RoundTrip.Responses.{IsReadableResult, from_json-to_json_send_response}
use package.a2a_js.Rpc.{Attempt, returned, threw, Action, RequestHandler, RpcPlatform}
use package.a2a_js.Rpc.Server.{context_for, then_of, run_case, is_streaming_method, run_method}
use package.a2a_js.Rpc.Client.{HttpResponse, rpc_request}
use package.a2a_js.Rpc.Client.Calls.{
  ClientState, remote, send_message, get_task, cancel_task, create_task_push_notification_config,
  list_tasks, sent_payload,
}
use package.a2a_js.Rpc.Listing.{serialize_list_tasks_response}
use package.a2a_js.Rpc.Listing.RoundTrip.{from_json-serialize_list_tasks_response}
use package.a2a_js.Rpc.Delivery.{
  IsPlatform, Delivers, OnReturned, has_filled_keys, carried, written_as, remote-carried,
}

OnReturned-imp {ℓ κ} :
    {A : Type 0} (P : A → Type ℓ) (Q : A → Type κ) (a : Attempt A)
    → ((x : A) → P x → Q x)
    → OnReturned P a
    → OnReturned Q a
OnReturned-imp P Q (returned x) f h = f x h
OnReturned-imp P Q (threw e) f h = tt

-- A request that is read back reaches the method.
run_case-read :
    (p : RpcPlatform) {W : Type 0} (h : RequestHandler W) {A B : Type 0} (fns : MessageFns A)
    (run : A → ServerCallContext → Action W B) (write : A → B → Json) (x : A)
    (c : ServerCallContext) (w : W)
    → ReadsBack fns x
    → run_case p h fns run write (to_json fns x) c w ≡ written_as (write x) (run x c w)
run_case-read p h fns run write x c w e = rw (e, run_case) refl

OnReturned-any : {A : Type 0} (a : Attempt A) → OnReturned (λ y. Unit {0}) a
OnReturned-any (returned x) = tt
OnReturned-any (threw e) = tt

-- The answer as the payload of a `SendMessageResponse`.
abbrev with_payload : {W : Type 0} → Attempt SendResult × W → Attempt (Option SendResult) × W
with_payload (returned r, w) = (returned (some r), w)
with_payload (threw e, w) = (threw e, w)

module _ (p : RpcPlatform) (platform : IsPlatform p) {W : Type 0} (h : RequestHandler W)
    (fetch : Json → Action W HttpResponse) (c : ServerCallContext) where
  open p use {js}
  open platform use {faithful}

  -- The network delivers the call of a method.
  abbrev pub DeliversCall : {A : Type 0} → String → MessageFns A → A → ClientState W → Type 0
  DeliversCall m request x s =
      Delivers p platform h fetch c (rpc_request p m (to_json request x) s.request_id_counter)
        s.world

  -- A method that writes its value with `toJSON`.
  unary-carried :
      {A B : Type 0} (m : String) (request : MessageFns A) (answer : MessageFns B)
      (run : A → ServerCallContext → Action W B) (P : B → Type 0) (x : A) (s : ClientState W)
      → DeliversCall m request x s
      → truthy m ≡ true
      → is_streaming_method m ≡ false
      → has_filled_keys (request.entries x) ≡ true
      → let c' = context_for (to_json request x) c in
        run_method p h m (to_json request x) c' s.world
          ≡ run_case p h request run (λ y. to_json answer) (to_json request x) c' s.world
        → ReadsBack request x
        → ((y : B) → P y → ReadsBack answer y)
        → OnReturned P (run x c' s.world).0
        → remote p fetch m request answer x s ≡ carried s (run x c' s.world)
  unary-carried m request answer run P x s delivers filled single keys runs reads back h_back =
      let c' = context_for (to_json request x) c in
      let a = run x c' s.world in
      remote-carried p platform h fetch c m request answer (to_json answer) x s a delivers filled
        single keys (runs ∙ run_case-read p h request run (λ y. to_json answer) x c' s.world reads)
        (OnReturned-imp P (ReadsBack answer) a.0 back h_back)

  -- `getTask` of the client, over a network that delivers, gives what `getTask` of the request
  -- handler gives for the same request, in the context with the tenant of the request: the same
  -- task and the same state of the server, or the error that the JSON-RPC error of what is thrown
  -- stands for. The data parts of the task must have values other than `null`.
  pub get_task-get_task :
      (x : GetTaskRequest) (s : ClientState W)
      → DeliversCall "GetTask" (get_request_fns js) x s
      → let a = h.get_task x (context_for (to_json (get_request_fns js) x) c) s.world in
        OnReturned IsReadableTask a.0 → get_task p fetch x s ≡ carried s a
  unfolding get_task run_method get_request_entries
  get_task-get_task x s delivers back =
      unary-carried "GetTask" (get_request_fns js) (task_fns js) h.get_task IsReadableTask x s
        delivers refl refl refl refl (from_json-to_json_get_request js faithful x)
        (from_json-to_json_task js faithful) back

  -- The same of `cancelTask`.
  pub cancel_task-cancel_task :
      (x : CancelTaskRequest) (s : ClientState W)
      → DeliversCall "CancelTask" (cancel_request_fns js) x s
      → let a = h.cancel_task x (context_for (to_json (cancel_request_fns js) x) c) s.world in
        OnReturned IsReadableTask a.0 → cancel_task p fetch x s ≡ carried s a
  unfolding cancel_task run_method cancel_request_entries
  cancel_task-cancel_task x s delivers back =
      unary-carried "CancelTask" (cancel_request_fns js) (task_fns js) h.cancel_task IsReadableTask
        x s delivers refl refl refl refl (from_json-to_json_cancel_request js faithful x)
        (from_json-to_json_task js faithful) back

  -- `listTasks` of the client, over a network that delivers the call, gives what `listTasks` of the
  -- request handler gives for the same request, in the context with the tenant of the request: the
  -- same page, which the server writes with a serializer of its own, and the same state of the
  -- server, or the error that the JSON-RPC error of what is thrown stands for. The data parts of the
  -- tasks must have values other than `null`.
  pub list_tasks-list_tasks :
      (x : ListTasksRequest) (s : ClientState W)
      → DeliversCall "ListTasks" (list_request_fns js) x s
      → let a = h.list_tasks x (context_for (to_json (list_request_fns js) x) c) s.world in
        OnReturned (λ r. All IsReadableTask r.tasks) a.0 → list_tasks p fetch x s ≡ carried s a
  unfolding list_tasks run_method list_request_entries
  list_tasks-list_tasks x s delivers back =
      let request = list_request_fns js in
      let c' = context_for (to_json request x) c in
      let a = h.list_tasks x c' s.world in
      let write =
        λ (r : ListTasksResponse). serialize_list_tasks_response js r x.include_artifacts in
      remote-carried p platform h fetch c "ListTasks" request (list_response_fns js) write x s a
        delivers refl refl refl
        (run_case-read p h request h.list_tasks
          (λ y r. serialize_list_tasks_response js r y.include_artifacts) x c' s.world
          (from_json-to_json_list_request js faithful x))
        (OnReturned-imp (λ r. All IsReadableTask r.tasks)
          (λ r. from_json (list_response_fns js) (write r) ≡ ok r) a.0
          (λ r. from_json-serialize_list_tasks_response js faithful r x.include_artifacts) back)

  -- The same of the creation of a push notification config, for every config.
  pub create_task_push_notification_config-create_task_push_notification_config :
      (x : TaskPushNotificationConfig) (s : ClientState W)
      → DeliversCall "CreateTaskPushNotificationConfig" (push_config_fns js) x s
      → create_task_push_notification_config p fetch x s
        ≡ carried s (
            h.create_task_push_notification_config x
              (context_for (to_json (push_config_fns js) x) c)
              s.world)
  unfolding create_task_push_notification_config run_method push_config_entries
  create_task_push_notification_config-create_task_push_notification_config x s delivers =
      let reads = from_json-to_json_push_config js faithful in
      let a =
        h.create_task_push_notification_config x (context_for (to_json (push_config_fns js) x) c)
          s.world in
      unary-carried "CreateTaskPushNotificationConfig" (push_config_fns js) (push_config_fns js)
        h.create_task_push_notification_config (λ y. Unit {0}) x s delivers refl refl refl refl
        (reads x) (λ y t. reads y) (OnReturned-any a.0)

  some_payload :
      (s : ClientState W) (a : Attempt SendResult × W)
      → then_of (sent_payload p fetch) (carried s (with_payload a)) ≡ carried s a
  some_payload s (returned r, w) = refl
  some_payload s (threw e, w) = refl

  written_payload :
      (a : Attempt SendResult × W)
      → written_as (λ y. to_json (send_response_fns js) (some y)) a
        ≡ written_as (to_json (send_response_fns js)) (with_payload a)
  written_payload (returned r, w) = refl
  written_payload (threw e, w) = refl

  read_payload :
      (a : Attempt SendResult × W)
      → OnReturned IsReadableResult a.0
      → OnReturned (ReadsBack (send_response_fns js)) (with_payload a).0
  read_payload (returned r, w) back = from_json-to_json_send_response js faithful r back
  read_payload (threw e, w) back = tt

  -- `sendMessage` of the client, over a network that delivers the call, gives what `sendMessage` of
  -- the request handler gives for the same request, in the context with the tenant of the request:
  -- the same message or task and the same state of the server, or the error that the JSON-RPC error
  -- of what is thrown stands for. The data parts of the message sent, and of the answer, must have
  -- values other than `null`.
  pub send_message-send_message :
      (x : SendMessageRequest) (s : ClientState W)
      → DeliversCall "SendMessage" (send_request_fns js) x s
      → OnSome HasReadableParts x.message
      → let a = h.send_message x (context_for (to_json (send_request_fns js) x) c) s.world in
        OnReturned IsReadableResult a.0 → send_message p fetch x s ≡ carried s a
  unfolding send_message run_method send_request_entries
  send_message-send_message x s delivers sent back =
      let request = send_request_fns js in
      let answer = send_response_fns js in
      let c' = context_for (to_json request x) c in
      let a = h.send_message x c' s.world in
      ap (then_of (sent_payload p fetch)) (
        remote-carried p platform h fetch c "SendMessage" request answer (to_json answer) x s
          (with_payload a) delivers refl refl refl
          (run_case-read p h request h.send_message (λ y r. to_json answer (some r)) x c' s.world
              (from_json-to_json_send_request js faithful x sent)
            ∙ written_payload a)
          (read_payload a back))
      ∙ some_payload s a
