-- ===== src/Rpc.antt =====
-- The JSON-RPC transport of version 1.0, on both sides: the interface of the request handler that
-- the server calls (src/server/request_handler/a2a_request_handler.ts), and the requests and
-- responses that go between src/server/transports/jsonrpc/jsonrpc_transport_handler.ts and
-- src/client/transports/json_rpc_transport.ts. What else the platform does is a parameter.
pub mod Listing
pub mod Server
pub mod Wire
pub mod Client
pub mod Replies
pub mod Sending
pub mod Delivery
pub mod EndToEnd
pub mod Streams
use package.a2a_js.Prelude.{ℤ, String, Bool, Option, List, JsMap, ◌⊎◌}
use package.a2a_js.Types.{
  Json, SendMessageRequest, GetTaskRequest, ListTasksRequest, ListTasksResponse, CancelTaskRequest,
  PushConfigRequest, SubscribeToTaskRequest, ListPushConfigsRequest, ListPushConfigsResponse,
  GetExtendedAgentCardRequest, TaskPushNotificationConfig, Task, StreamResponse, AgentCard,
}
use package.a2a_js.Errors.Classes.{Thrown}
use package.a2a_js.Errors.JsonRpc.{JsonRpcError}
use package.a2a_js.Context.{ServerCallContext}
use package.a2a_js.Result.{SendResult}
use package.a2a_js.Codec.Fields.{JsPlatform}

-- What a call that was awaited gives.
pub data Attempt {ℓ} (A : Type ℓ) : Type ℓ where
  returned : A → Attempt A
  threw : Thrown → Attempt A

abbrev pub Action {ℓ} : Type 0 → Type ℓ → Type ℓ
Action W A = W → Attempt A × W

-- What an async generator yields until it is done or throws.
pub record Events (A : Type 0) : Type 0 where
  pub yielded : List A
  pub failure : Option Thrown

-- `A2ARequestHandler`, over the state `W` that the calls share. A generator is run to its end.
pub record RequestHandler (W : Type 0) : Type 0 where
  pub get_agent_card : Action W AgentCard
  pub get_authenticated_extended_agent_card :
      GetExtendedAgentCardRequest → ServerCallContext → Action W AgentCard
  pub send_message : SendMessageRequest → ServerCallContext → Action W SendResult
  pub send_message_stream : SendMessageRequest → ServerCallContext → W → Events StreamResponse × W
  pub get_task : GetTaskRequest → ServerCallContext → Action W Task
  pub list_tasks : ListTasksRequest → ServerCallContext → Action W ListTasksResponse
  pub cancel_task : CancelTaskRequest → ServerCallContext → Action W Task
  pub create_task_push_notification_config :
      TaskPushNotificationConfig → ServerCallContext → Action W TaskPushNotificationConfig
  pub get_task_push_notification_config :
      PushConfigRequest → ServerCallContext → Action W TaskPushNotificationConfig
  pub delete_task_push_notification_config :
      PushConfigRequest → ServerCallContext → Action W (Unit {0})
  pub list_task_push_notification_configs :
      ListPushConfigsRequest → ServerCallContext → Action W ListPushConfigsResponse
  pub resubscribe : SubscribeToTaskRequest → ServerCallContext → W → Events StreamResponse × W

-- `JSON.parse`, with the message of its `SyntaxError`, `JSON.stringify`, `Number.isInteger` of a
-- number with a literal, whether `trim` leaves nothing, and the message of a `TypeError`.
pub record RpcPlatform : Type 0 where
  pub js : JsPlatform
  pub parse : String → String ⊎ Json
  pub stringify : Json → String
  pub is_integer : String → Bool
  pub is_blank : String → Bool
  pub type_error_text : String

pub data Outcome : Type 0 where
  result : Json → Outcome
  failure : JsonRpcError → Outcome

-- A `JSONRPCResponse`.
pub record RpcResponse : Type 0 where
  pub id : Json
  pub outcome : Outcome

-- What `handle` returns, or throws.
pub data Reply : Type 0 where
  response : RpcResponse → Reply
  stream : Events RpcResponse → Reply
  rejected : Thrown → Reply
