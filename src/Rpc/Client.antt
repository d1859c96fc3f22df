-- ===== src/Rpc/Client.antt =====
-- `JsonRpcTransport` of src/client/transports/json_rpc_transport.ts. `fetch` is a parameter; the
-- headers of a request are left out, and `callExtensionMethod` is not modelled.
pub mod Calls
use package.a2a_js.Prelude.{
  ℕ, pos, suc, String, Bool, true, false, Option, none, some, List, [], ◌∷◌, get, or_else, not,
  is_some, ◌&&◌, ◌==◌, inl, inr, if◌then◌else◌,
}
use package.a2a_js.Types.{
  Json, null, num, str, arr, obj, end, fields_of, StreamResponse, SendMessageRequest,
  GetTaskRequest, ListTasksRequest, ListTasksResponse, CancelTaskRequest, PushConfigRequest,
  ListPushConfigsRequest, ListPushConfigsResponse, GetExtendedAgentCardRequest,
  TaskPushNotificationConfig, Task, AgentCard,
}
use package.a2a_js.Errors.{Result, ok, err}
use package.a2a_js.Errors.Classes.{Thrown, a2a, other_error}
use package.a2a_js.Errors.JsonRpc.{from_json_rpc_error_response}
use package.a2a_js.Handler.Context.{concat}
use package.a2a_js.Result.{SendResult}
use package.a2a_js.Codec.Fields.{MessageFns, members, to_json}
use package.a2a_js.Codec.Tasks.{task_fns}
use package.a2a_js.Codec.Cards.{card_fns}
use package.a2a_js.Codec.Requests.{push_config_fns, send_request_fns}
use package.a2a_js.Codec.Queries.{
  get_request_fns, list_request_fns, cancel_request_fns, push_request_fns, list_push_request_fns,
  card_request_fns,
}
use package.a2a_js.Codec.Responses.{
  send_response_fns, stream_response_fns, list_response_fns, list_push_response_fns,
}
use package.a2a_js.Rpc.{Attempt, returned, threw, Action, RpcPlatform}
use package.a2a_js.Rpc.Server.{then_of, read_request}
use package.a2a_js.Rpc.Wire.{error_from_json}

-- A response of `fetch`: `text()` may throw.
pub record HttpResponse : Type 0 where
  pub is_ok : Bool
  pub status : ℕ
  pub status_text : String
  pub body : Attempt String

abbrev pub has_key : String → Json → Bool
has_key k v = is_some (get k (members v))

module _ (p : RpcPlatform) where
  open p use {js, parse, stringify, is_blank, type_error_text}
  open js use {string_of, boolean_of, literal}

  abbrev type_error : Thrown
  type_error = other_error type_error_text

  abbrev pub number_json : ℕ → Json
  number_json n = num (literal (pos n))

  -- `{ jsonrpc: '2.0', method, params, id }`.
  unfoldable pub rpc_request : String → Json → ℕ → Json
  rpc_request m params id = obj (
      fields_of (
        ("jsonrpc", str "2.0")
        ∷ ("method", str m)
        ∷ ("params", params)
        ∷ ("id", number_json id)
        ∷ []))

  abbrev is_object : Json → Bool
  is_object (obj fs) = true
  is_object (arr vs) = true
  is_object _ = false

  -- `json.id === requestId`.
  unfoldable pub is_same_id : Option Json → ℕ → Bool
  is_same_id (some (num l)) id = l == literal (pos id)
  is_same_id _ id = false

  -- The text of an identifier in a template literal.
  unfoldable pub id_text : Option Json → Result String
  id_text none = ok "undefined"
  id_text (some v) = string_of v

  unfoldable pub id_mismatch : String → ℕ → Option Json → Thrown
  unfolding id_text
  id_mismatch prefix id got = elim (id_text got) [
    | err e ↦ type_error
    | ok s ↦ other_error (
        concat prefix
          (concat " Expected " (concat (literal (pos id)) (concat ", got " (concat s ".")))))
  ]

  -- `mapJsonRpcErrorToSdkError(json)`.
  unfoldable pub sdk_error : Json → Thrown
  sdk_error v =
      a2a
        (from_json_rpc_error_response (error_from_json js (or_else (get "error" (members v)) null)))

  unfoldable pub http_error : String → HttpResponse → String → Thrown
  http_error m r text = other_error (
      concat "HTTP error for " (
        concat m (
          concat "! Status: " (
            concat (literal (pos r.status))
              (concat " " (concat r.status_text (concat ". Response: " text)))))))

  -- The error of a response that is not ok.
  unfoldable pub failed_response : String → HttpResponse → Thrown
  unfolding http_error sdk_error
  failed_response m r = elim r.body [
    | threw e ↦ http_error m r "(empty or non-JSON response)"
    | returned text ↦ elim (parse text) [
      | inl e ↦ http_error m r text
      | inr null ↦ type_error
      | inr v ↦
          if boolean_of (or_else (get "jsonrpc" (members v)) null)
            && boolean_of (or_else (get "error" (members v)) null)
          then sdk_error v
          else http_error m r text
    ]
  ]

  -- The JSON of a response that is ok: an error is thrown, an identifier checked.
  unfoldable pub read_response : String → ℕ → Json → Attempt Json
  unfolding sdk_error is_same_id id_mismatch
  read_response m id v =
      if not (is_object v)
      then threw type_error
      else if has_key "error" v
      then threw (sdk_error v)
      else if is_same_id (get "id" (members v)) id
      then returned (or_else (get "result" (members v)) null)
      else threw (
          id_mismatch (concat "JSON-RPC response ID mismatch for method " (concat m ".")) id
            (get "id" (members v)))

  unfoldable pub rpc_result : String → ℕ → HttpResponse → Attempt Json
  unfolding failed_response read_response
  rpc_result m id r =
      if r.is_ok
      then elim r.body [
        | threw e ↦ threw e
        | returned text ↦ elim (parse text) [
          | inl e ↦ threw (other_error e)
          | inr v ↦ read_response m id v
        ]
      ]
      else threw (failed_response m r)

  -- The error of an event that holds one; its `cause`, the mapped error, is left out.
  unfoldable pub event_error : Json → Thrown
  event_error v =
      let e = error_from_json js v in
      let details = or_else (get "data" (members v)) null in
      other_error (
        concat "SSE event contained an error: " (
          concat e.message (
            concat " (Code: " (
              concat (literal e.code) (
                concat ") Data: " (stringify (if boolean_of details then details else obj end)))))))

  -- `_processSseEventData`. The start of the event in the text of a parse error is left out.
  unfoldable pub process_sse_event_data : String → ℕ → Attempt (Option StreamResponse)
  unfolding event_error is_same_id id_mismatch
  process_sse_event_data event id =
      if is_blank event
      then threw (other_error "Attempted to process empty SSE event data.")
      else elim (parse event) [
        | inl e ↦ threw (other_error (concat "Failed to parse SSE event data. Original error: " e))
        | inr null ↦ threw type_error
        | inr v ↦
            if not (is_same_id (get "id" (members v)) id)
            then threw (
                id_mismatch "JSON-RPC response ID mismatch in SSE event." id (get "id" (members v)))
            else if has_key "error" v
            then threw (event_error (or_else (get "error" (members v)) null))
            else if has_key "result" v
            then read_request p (stream_response_fns js) (or_else (get "result" (members v)) null)
            else threw (
                other_error
                  (concat "SSE event JSON-RPC response is missing 'result' field. Data: " event))
      ]

  -- What the generator yields for the data of the events that `parseSseStream` gives, up to the
  -- first that throws.
  unfoldable pub stream_results : List String → ℕ → List (Option StreamResponse) × Option Thrown
  stream_results [] id = ([], none)
  stream_results (event ∷ rest) id =
      let (results, failure) = stream_results rest id in
      elim (process_sse_event_data event id) [
        | threw e ↦ ([], some e)
        | returned r ↦ (r ∷ results, failure)
      ]
