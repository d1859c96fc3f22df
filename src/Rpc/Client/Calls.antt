-- ===== src/Rpc/Client/Calls.antt =====
-- The calls of `JsonRpcTransport` that do not stream.
use package.a2a_js.Prelude.{ℕ, suc, String, Option, none, some}
use package.a2a_js.Types.{
  Json, SendMessageRequest, GetTaskRequest, ListTasksRequest, ListTasksResponse, CancelTaskRequest,
  PushConfigRequest, ListPushConfigsRequest, ListPushConfigsResponse, GetExtendedAgentCardRequest,
  TaskPushNotificationConfig, Task, AgentCard,
}
use package.a2a_js.Errors.Classes.{other_error}
use package.a2a_js.Result.{SendResult}
use package.a2a_js.Codec.Fields.{MessageFns, to_json}
use package.a2a_js.Codec.Tasks.{task_fns}
use package.a2a_js.Codec.Cards.{card_fns}
use package.a2a_js.Codec.Requests.{push_config_fns, send_request_fns}
use package.a2a_js.Codec.Queries.{
  get_request_fns, list_request_fns, cancel_request_fns, push_request_fns, list_push_request_fns,
  card_request_fns,
}
use package.a2a_js.Codec.Responses.{send_response_fns, list_response_fns, list_push_response_fns}
use package.a2a_js.Rpc.{Attempt, returned, threw, Action, RpcPlatform}
use package.a2a_js.Rpc.Server.{then_of, read_request}
use package.a2a_js.Rpc.Client.{HttpResponse, rpc_request, rpc_result}

-- The counter of request identifiers, and the state that `fetch` acts on.
pub record ClientState (W : Type 0) : Type 0 where
  pub request_id_counter : ℕ
  pub world : W

module _ (p : RpcPlatform) {W : Type 0} (fetch : Json → Action W HttpResponse) where
  open p use {js}

  abbrev answered : ClientState W → Attempt Json × W → Attempt Json × ClientState W
  answered s (a, w) = (a, record s { request_id_counter = suc s.request_id_counter; world = w })

  -- `_sendRpcRequest`.
  unfoldable pub send_rpc_request : String → Json → Action (ClientState W) Json
  unfolding rpc_request rpc_result
  send_rpc_request m params s =
      let id = s.request_id_counter in
      answered s
        (then_of (λ r w. (rpc_result p m id r, w)) (fetch (rpc_request p m params id) s.world))

  -- A method that sends a message and reads the result as another.
  unfoldable pub remote :
      {A B : Type 0} → String → MessageFns A → MessageFns B → A → Action (ClientState W) B
  unfolding send_rpc_request
  remote m request answer x s =
      then_of (λ v s'. (read_request p answer v, s')) (send_rpc_request m (to_json request x) s)

  abbrev pub sent_payload : Option SendResult → Action (ClientState W) SendResult
  sent_payload none s = (threw (other_error "Invalid response: missing payload"), s)
  sent_payload (some r) s = (returned r, s)

  unfoldable pub send_message : SendMessageRequest → Action (ClientState W) SendResult
  unfolding remote
  send_message x s =
      then_of sent_payload (remote "SendMessage" (send_request_fns js) (send_response_fns js) x s)

  unfoldable pub get_task : GetTaskRequest → Action (ClientState W) Task
  unfolding remote
  get_task = remote "GetTask" (get_request_fns js) (task_fns js)

  unfoldable pub cancel_task : CancelTaskRequest → Action (ClientState W) Task
  unfolding remote
  cancel_task = remote "CancelTask" (cancel_request_fns js) (task_fns js)

  unfoldable pub list_tasks : ListTasksRequest → Action (ClientState W) ListTasksResponse
  unfolding remote
  list_tasks = remote "ListTasks" (list_request_fns js) (list_response_fns js)

  unfoldable pub create_task_push_notification_config :
      TaskPushNotificationConfig → Action (ClientState W) TaskPushNotificationConfig
  unfolding remote
  create_task_push_notification_config =
      remote "CreateTaskPushNotificationConfig" (push_config_fns js) (push_config_fns js)

  unfoldable pub get_task_push_notification_config :
      PushConfigRequest → Action (ClientState W) TaskPushNotificationConfig
  unfolding remote
  get_task_push_notification_config =
      remote "GetTaskPushNotificationConfig" (push_request_fns js) (push_config_fns js)

  unfoldable pub list_task_push_notification_config :
      ListPushConfigsRequest → Action (ClientState W) ListPushConfigsResponse
  unfolding remote
  list_task_push_notification_config =
      remote "ListTaskPushNotificationConfigs" (list_push_request_fns js)
        (list_push_response_fns js)

  unfoldable pub delete_task_push_notification_config :
      PushConfigRequest → Action (ClientState W) (Unit {0})
  unfolding send_rpc_request
  delete_task_push_notification_config x s =
      then_of (λ v s'. (returned tt, s'))
        (send_rpc_request "DeleteTaskPushNotificationConfig" (to_json (push_request_fns js) x) s)

  unfoldable pub get_extended_agent_card :
      GetExtendedAgentCardRequest → Action (ClientState W) AgentCard
  unfolding remote
  get_extended_agent_card = remote "GetExtendedAgentCard" (card_request_fns js) (card_fns js)
