-- ===== src/Rpc/Replies.antt =====
-- The answers of `JsonRpcTransportHandler`: their identifiers, and two requests that it mishandles.
use package.a2a_js.Prelude.{
  String, true, false, none, List, [], ◌∷◌, All, get, not, map, ◌&&◌, ◌==◌, ◌≡◌, refl, ◌∙◌,
  Bool-cases, inl, inr, if◌then◌else◌,
}
use package.a2a_js.Types.{
  Json, null, bool, num, str, arr, obj, StreamResponse, AgentCard, SendMessageRequest,
  SubscribeToTaskRequest,
}
use package.a2a_js.Errors.Classes.{other_error}
use package.a2a_js.Context.{ServerCallContext}
use package.a2a_js.Codec.Requests.{send_request_fns}
use package.a2a_js.Codec.Queries.{subscribe_request_fns}
use package.a2a_js.Codec.Fields.{members, is_null, from_json}
use package.a2a_js.Rpc.{
  Attempt, returned, threw, Action, Events, RequestHandler, RpcPlatform, Outcome, RpcResponse,
  Reply, response, stream, rejected,
}
use package.a2a_js.Rpc.Server.{
  malformed, method_of, id_of, rpc_params, params_are_valid, context_for, is_streaming_method,
  can_stream, error_reply, then_of, reply_of, stream_reply, opened, read_request, rpc_value_of,
  is_request_valid, run_method, open_stream, handle_request, handle_value, handle,
}

-- `handle` returns, and every response that it returns or yields has the identifier. The error by
-- which a stream ends is no response yet.
abbrev pub HasId : Json → Reply → Type 0
HasId id (response r) = r.id ≡ id
HasId id (stream s) = All (λ r. r.id ≡ id) s.yielded
HasId id (rejected e) = ⊥

abbrev HasIdStream : Json → Attempt (Events RpcResponse) → Type 0
HasIdStream id (returned s) = All (λ r. r.id ≡ id) s.yielded
HasIdStream id (threw e) = Unit

then_of-HasIdStream :
    {W A : Type 0} (id : Json) (k : A → Action W (Events RpcResponse)) (a : Attempt A × W)
    → ((x : A) (w : W) → HasIdStream id (k x w).0)
    → HasIdStream id (then_of k a).0
then_of-HasIdStream id k (returned x, w) h = h x w
then_of-HasIdStream id k (threw e, w) h = tt

reply_of-HasId : {W : Type 0} (id : Json) (a : Attempt Outcome × W) → HasId id (reply_of id a).0
reply_of-HasId id (returned o, w) = refl
reply_of-HasId id (threw e, w) = refl

stream_reply-HasId :
    {W : Type 0} (p : RpcPlatform) (h : RequestHandler W) (id : Json)
    (a : Attempt (Events RpcResponse) × W)
    → HasIdStream id a.0
    → HasId id (stream_reply p h id a).0
stream_reply-HasId p h id (returned s, w) k = k
stream_reply-HasId p h id (threw e, w) k = refl

module _ (p : RpcPlatform) {W : Type 0} (h : RequestHandler W) where
  responses-All :
      (id : Json) (f : StreamResponse → RpcResponse) (events : List StreamResponse)
      → ((e : StreamResponse) → (f e).id ≡ id)
      → All (λ r. r.id ≡ id) (map f events)
  responses-All id f [] k = tt
  responses-All id f (e ∷ events) k = (k e, responses-All id f events k)

  opened-HasIdStream :
      {A : Type 0} (id : Json) (a : Attempt A) (run : A → W → Events StreamResponse × W) (w : W)
      → HasIdStream id (opened p h id a run w).0
  opened-HasIdStream id (threw e) run w = tt
  opened-HasIdStream id (returned x) run w = responses-All id _ (run x w).0.yielded (λ e. refl)

  open_stream-HasIdStream :
      (m : String) (id params : Json) (c : ServerCallContext) (card : AgentCard) (w : W)
      → HasIdStream id (open_stream p h m id params c card w).0
  unfolding open_stream
  open_stream-HasIdStream m id params c card w = elim (Bool-cases (can_stream card)) [
    | inr no_stream ↦ rw no_stream tt
    | inl yes_stream ↦ elim (Bool-cases (m == "SendStreamingMessage")) [
      | inl send ↦
          rw (yes_stream, send)
            (opened-HasIdStream {A = SendMessageRequest} id
              (read_request p (send_request_fns p.js) params) (λ x. h.send_message_stream x c) w)
      | inr subscribe ↦
          rw (yes_stream, subscribe)
            (opened-HasIdStream {A = SubscribeToTaskRequest} id
              (read_request p (subscribe_request_fns p.js) params) (λ x. h.resubscribe x c) w)
    ]
  ]

  if_valid_of :
      (v : Json) (c : ServerCallContext) (w : W)
      → is_null v ≡ false
      → handle_value p h v c w ≡ (
          if is_request_valid p v
          then handle_request p h v c w
          else (error_reply (id_of v) (malformed "Invalid JSON-RPC Request."), w))
  unfolding handle_value
  if_valid_of null c w e = cc
  if_valid_of (bool b) c w e = refl
  if_valid_of (num n) c w e = refl
  if_valid_of (str s) c w e = refl
  if_valid_of (arr vs) c w e = refl
  if_valid_of (obj fs) c w e = refl

  pub handle_value_of_valid :
      (v : Json) (c : ServerCallContext) (w : W)
      → is_null v ≡ false
      → is_request_valid p v ≡ true
      → handle_value p h v c w ≡ handle_request p h v c w
  handle_value_of_valid v c w e yes_valid = if_valid_of v c w e ∙ rw yes_valid refl

  handle_value_of_invalid :
      (v : Json) (c : ServerCallContext) (w : W)
      → is_null v ≡ false
      → is_request_valid p v ≡ false
      → handle_value p h v c w ≡ (error_reply (id_of v) (malformed "Invalid JSON-RPC Request."), w)
  handle_value_of_invalid v c w e no_valid = if_valid_of v c w e ∙ rw no_valid refl

  pub handle_of_value :
      (body v : Json) (c : ServerCallContext) (w : W)
      → rpc_value_of p body ≡ returned v
      → handle p h body c w ≡ handle_value p h v c w
  unfolding handle
  handle_of_value body v c w e = rw (e, handle) refl

  stream_reply_of_card :
      (v : Json) (c : ServerCallContext) (w : W)
      → HasId
          (id_of v)
          (stream_reply p h (id_of v) (
            then_of
              (open_stream p h (method_of v) (id_of v) (rpc_params v) c)
              (h.get_agent_card w))).0
  stream_reply_of_card v c w =
      let id = id_of v in
      let start = open_stream p h (method_of v) id (rpc_params v) c in
      stream_reply-HasId p h id (then_of start (h.get_agent_card w)) (
        then_of-HasIdStream id start (h.get_agent_card w)
          (open_stream-HasIdStream (method_of v) id (rpc_params v) c))

  handle_request-HasId :
      (v : Json) (c : ServerCallContext) (w : W) → HasId (id_of v) (handle_request p h v c w).0
  unfolding handle_request
  handle_request-HasId v c w =
      let c' = context_for (rpc_params v) c in
      let m = method_of v in
      elim (Bool-cases
        (not (m == "GetExtendedAgentCard") && not (params_are_valid (rpc_params v)))) [
          | inl bad ↦ rw (bad, HasId) refl
          | inr good ↦ elim (Bool-cases (is_streaming_method m)) [
            | inl streams ↦ rw (good, streams) (stream_reply_of_card v c' w)
            | inr one ↦
                rw (good, one) (reply_of-HasId (id_of v) (run_method p h m (rpc_params v) c' w))
          ]
        ]

  handle_value-HasId :
      (v : Json) (c : ServerCallContext) (w : W)
      → is_null v ≡ false
      → HasId (id_of v) (handle_value p h v c w).0
  handle_value-HasId v c w e = elim (Bool-cases (is_request_valid p v)) [
    | inl yes_valid ↦ rw (handle_value_of_valid v c w e yes_valid) (handle_request-HasId v c w)
    | inr no_valid ↦ rw (handle_value_of_invalid v c w e no_valid) refl
  ]

  -- What `handle` returns or yields for a body that holds a request, which is any value other than
  -- `null`, has the identifier of the request.
  pub handle-HasId :
      (body v : Json) (c : ServerCallContext) (w : W)
      → rpc_value_of p body ≡ returned v
      → is_null v ≡ false
      → HasId (id_of v) (handle p h body c w).0
  handle-HasId body v c w e n = rw (handle_of_value body v c w e) (handle_value-HasId v c w n)

  -- `handle` throws on a body whose text is parsed as `null`.
  pub null_body_is_rejected :
      (body : Json) (c : ServerCallContext) (w : W)
      → rpc_value_of p body ≡ returned null
      → handle p h body c w ≡ (rejected (other_error p.type_error_text), w)
  unfolding handle_value
  null_body_is_rejected body c w e = handle_of_value body null c w e

  -- A request for the extended card that has no parameters is answered with an internal error, and
  -- the request handler is not called.
  pub card_request_without_params :
      (v : Json) (c : ServerCallContext) (w : W)
      → method_of v ≡ "GetExtendedAgentCard"
      → get "params" (members v) ≡ none
      → handle_request p h v c w ≡ (error_reply (id_of v) (other_error p.type_error_text), w)
  unfolding handle_request run_method from_json
  card_request_without_params v c w m n = rw (m, n, handle_request) refl
