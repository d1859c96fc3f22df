-- ===== src/Lib.antt =====
-- The A2A protocol, its server side above all: how an agent's server keeps tasks, turns the events
-- of an execution into stored tasks and results, and answers the requests of a client; and, around
-- it, how requests, streams and errors are translated, sent and read.
--
-- A request reaches `DefaultRequestHandler` (src/server/request_handler/default_request_handler.ts)
-- with a `ServerCallContext`. `sendMessage` checks the message and the task that it continues,
-- runs the executor, and consumes the executor's events from the bus through an
-- `ExecutionEventQueue`; a `ResultManager` applies each event to the task store. The other
-- requests read and change the task store and the push notification store, which keep what they
-- store apart by tenant and owner.
--
-- The files, each with the code that it models:
--   Types      src/types/pb/a2a.ts: the data model, with the state lists of src/server/utils.ts
--   Errors     src/errors/base.ts: the errors, and the result of a call that may throw one; Classes:
--              their registry and objects, JsonRpc and Rest: src/errors/json_rpc.ts and
--              src/errors/rest.ts
--   Context    src/server/context.ts, src/server/authentication/user.ts,
--              src/server/owner_resolver.ts, src/extensions.ts, whose header is in Header
--   Store      Scoped: `ScopedStore` of src/server/utils.ts; Interface: `TaskStore`, and Tasks:
--              `InMemoryTaskStore` of src/server/store.ts; Push: `InMemoryPushNotificationStore` of
--              src/server/push_notification/push_notification_store.ts
--   Result     `ResultManager` of src/server/result_manager.ts
--   Events     Queue: `ExecutionEventQueue` of src/server/events/execution_event_queue.ts; Bus:
--              `DefaultExecutionEventBus` of src/server/events/execution_event_bus.ts
--   Handler    `DefaultRequestHandler`: Card, Context, Stream, Settle, Tasks, Push, Send,
--              Subscribe and History, for the methods that each file names
--   Sse        src/sse_utils.ts: the format and the parser of server-sent events
--   Client     Interceptors: the calls of `Client` in src/client/multitransport-client.ts through the
--              interceptors of src/client/interceptors.ts; Stream: its streams; Factory:
--              src/client/factory.ts
--   Compat     the translation between this version and 0.3 of the protocol: Enums, Parts, Messages
--              (with artifacts), Tasks, Push, Requests and Responses for the files of
--              src/compat/v0_3/translate/, Legacy for src/compat/v0_3/types/types.ts, and
--              Failures for src/compat/v0_3/server/error.ts and translate/errors.ts
--   Codec      `fromJSON` and `toJSON` of src/types/pb/a2a.ts: Fields for what all of them share,
--              then the messages by kind, in Messages, Tasks, Requests, Queries, Responses, Flows,
--              Security and Cards; RoundTrip has a child for each
--   Rpc        the JSON-RPC transport: `A2ARequestHandler` of
--              src/server/request_handler/a2a_request_handler.ts; Server:
--              src/server/transports/jsonrpc/jsonrpc_transport_handler.ts; Listing:
--              src/server/transports/list_tasks_serializer.ts; Client:
--              src/client/transports/json_rpc_transport.ts; Wire: errors and responses as JSON;
--              Sending: src/server/express/json_rpc_handler.ts, for what it sends; Replies,
--              Delivery, EndToEnd and Streams: theorems on the server and on both sides together
--   Prelude    names of the libraries, arrays, maps and truth values of JavaScript
--   Tests      small inputs for all of these
-- A field keeps its name in snake case, and an absent value is `none`. A `Map` is a list of entries
-- in insertion order.
--
-- Parameters of the model are the values of `crypto.randomUUID()` and of the clock, dates,
-- collation, base64, `JSON.parse`, `JSON.stringify`, `trim`, `toUpperCase` and the conversions
-- `String`, `Number` and `Boolean` of the platform, `fetch`, the generator of signatures, the
-- events that an executor publishes, and the interceptors and transports of a client. The request
-- handler and the result manager take any task store that returns to a caller what the caller
-- saved; the in-memory store is one. Every loop is a structural recursion over its events or
-- entries, so no fuel is needed. Only the caller in Store/Tasks/Pages, which asks for page after
-- page and is no code of the repository, has fuel: one more page than there are tasks is enough.
--
-- Not modelled: the lock of `ResultManager` around an event, which is one step here; task stores
-- that reject; logging; copies by `structuredClone`; listeners that change a bus while it calls
-- them; the push notification sender; the transports other than JSON-RPC, the establishment of a
-- stream by the JSON-RPC client, and the Express handlers, but for what the one of JSON-RPC sends;
-- the headers of the client; numbers in messages that are no integers, the order of keys that look
-- like integers, and the key `__proto__`; the gRPC form of an error; the translation of agent cards
-- and security schemes to version 0.3; and the generated code for gRPC and version 0.3.
pub mod Prelude
pub mod Types
pub mod Errors
pub mod Context
pub mod Store
pub mod Result
pub mod Events
pub mod Handler
pub mod Sse
pub mod Client
pub mod Compat
pub mod Codec
pub mod Rpc
pub mod Tests
