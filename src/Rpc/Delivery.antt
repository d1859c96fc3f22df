-- ===== src/Rpc/Delivery.antt =====
-- Both sides of the JSON-RPC transport together, over a network that delivers: a call that does not
-- stream.
use package.a2a_js.Prelude.{
  ℕ, ℤ, pos, suc, String, Bool, true, false, Option, none, some, List, [], ◌∷◌, JsMap, truthy, any,
  not, map, ◌&&◌, ◌==◌, ◌≡◌, arith, refl, ap, ◌∙◌, eq_refl, inr,
}
use package.a2a_js.Types.{Json, Struct, struct_of-fields_of, list_of, items_of}
use package.a2a_js.Errors.{ok}
use package.a2a_js.Errors.Classes.{ErrorData, detail_list, detail_object, Thrown, a2a}
use package.a2a_js.Errors.JsonRpc.{JsonRpcError, to_json_rpc_error, from_json_rpc_error_response}
use package.a2a_js.Context.{ServerCallContext}
use package.a2a_js.Codec.Fields.{
  IsFaithful, MessageFns, members, entries_object, to_json, from_json,
}
use package.a2a_js.Rpc.{
  Attempt, returned, threw, Action, RequestHandler, RpcPlatform, Outcome, result, failure,
  RpcResponse, response,
}
use package.a2a_js.Rpc.Server.{
  params_are_valid, context_for, is_streaming_method, then_of, reply_of, read_request, rpc_value_of,
  is_request_valid, has_valid_id, run_method, handle_request, handle,
}
use package.a2a_js.Rpc.Wire.{error_to_json, error_from_json, response_to_json, object_json}
use package.a2a_js.Rpc.Client.{
  HttpResponse, number_json, rpc_request, is_same_id, sdk_error, read_response, rpc_result,
}
use package.a2a_js.Rpc.Client.Calls.{ClientState, send_rpc_request, remote}
use package.a2a_js.Rpc.Replies.{handle_of_value, handle_value_of_valid}

-- What the documentation of the conversions and of `Number.isInteger` says of the platform.
pub record IsPlatform (p : RpcPlatform) : Type 0 where
  pub faithful : IsFaithful p.js
  pub literal-IsInteger : (z : ℤ) → p.is_integer (p.js.literal z) ≡ true

structs_of-structs :
    (ds : List Struct) → map (λ v. members v) (list_of (items_of (map object_json ds))) ≡ ds
structs_of-structs [] = refl
structs_of-structs (d ∷ ds) = λ i. struct_of-fields_of d i ∷ structs_of-structs ds i

-- No key is empty.
abbrev pub has_filled_keys : JsMap (Option Json) → Bool
has_filled_keys [] = true
has_filled_keys ((k, v) ∷ es) = truthy k && has_filled_keys es

any-entries_object :
    (es : JsMap (Option Json))
    → has_filled_keys es ≡ true
    → any (λ e. e.0 == "") (entries_object es) ≡ false
unfolding entries_object
any-entries_object [] h = refl
any-entries_object ((k, none) ∷ es) h = ground (arith, any-entries_object es)
any-entries_object ((k, some v) ∷ es) h = ground (arith, any-entries_object es)

to_json-params_are_valid {ℓ} :
    {A : Type ℓ} (fns : MessageFns A) (x : A)
    → has_filled_keys (fns.entries x) ≡ true
    → params_are_valid (to_json fns x) ≡ true
unfolding params_are_valid to_json
to_json-params_are_valid fns x h =
    ap (λ m. not (any (λ e. e.0 == "") m)) (struct_of-fields_of (entries_object (fns.entries x)))
    ∙ ap not (any-entries_object (fns.entries x) h)

-- The state after a call of the client.
abbrev pub after_call : {W : Type 0} → ClientState W → W → ClientState W
after_call s w = record s { request_id_counter = suc s.request_id_counter; world = w }

-- An error as it comes back to the client.
abbrev pub received : Thrown → Thrown
received e = a2a (from_json_rpc_error_response (to_json_rpc_error e))

-- What the client gets of what a method of the request handler gives: the value, or the error that
-- its JSON-RPC error stands for.
abbrev pub carried : {W A : Type 0} → ClientState W → Attempt A × W → Attempt A × ClientState W
carried s (returned x, w) = (returned x, after_call s w)
carried s (threw e, w) = (threw (received e), after_call s w)

and_false : (b : Bool) → (b && false) ≡ false
and_false true = refl
and_false false = refl

abbrev outcome_result : Outcome → Attempt Json
outcome_result (result v) = returned v
outcome_result (failure e) = threw (a2a (from_json_rpc_error_response e))

abbrev pub OnReturned {ℓ} : {A : Type 0} → (A → Type ℓ) → Attempt A → Type ℓ
OnReturned P (returned x) = P x
OnReturned P (threw e) = Unit

-- The outcome of a method, with the JSON of its value.
abbrev pub written_as : {W B : Type 0} → (B → Json) → Attempt B × W → Attempt Outcome × W
written_as write = then_of (λ y w. (returned (result (write y)), w))

module _ (p : RpcPlatform) (platform : IsPlatform p) where
  open platform use {faithful, literal-IsInteger}
  open faithful use {number_lem}

  error_from_json-error_to_json :
      (e : JsonRpcError) → error_from_json p.js (error_to_json p.js e) ≡ e
  unfolding error_from_json error_to_json
  error_from_json-error_to_json e = details e.details
    where
      details :
          (d : Option ErrorData)
          → error_from_json p.js (error_to_json p.js (record e { details = d }))
            ≡ record e { details = d }
      details none = rw (number_lem e.code) refl
      details (some (detail_list ds)) = rw (number_lem e.code, structs_of-structs ds) refl
      details (some (detail_object d)) = rw (number_lem e.code, struct_of-fields_of d) refl

  -- The response of a reply, as `res.json` sends it.
  abbrev pub json_response : RpcResponse → HttpResponse
  json_response r = record {
    is_ok = true;
    status = 200;
    status_text = "OK";
    body = returned (p.stringify (response_to_json p.js r));
  }

  -- `isRequestValid` on what the client sends.
  rpc_request-is_valid :
      (m : String) (params : Json) (id : ℕ)
      → truthy m ≡ true
      → is_request_valid p (rpc_request p m params id) ≡ true
  unfolding is_request_valid has_valid_id rpc_request
  rpc_request-is_valid m params id h = rw (literal-IsInteger (pos id), h) refl

  -- A request for a method that does not stream goes to that method.
  handle-rpc_request :
      {W : Type 0} (h : RequestHandler W) (m : String) (params : Json) (id : ℕ)
      (c : ServerCallContext) (w : W)
      → truthy m ≡ true
      → is_streaming_method m ≡ false
      → params_are_valid params ≡ true
      → handle p h (rpc_request p m params id) c w
        ≡ reply_of (number_json p id) (run_method p h m params (context_for params c) w)
  unfolding handle_request rpc_value_of rpc_request
  handle-rpc_request h m params id c w filled single valid =
      let v = rpc_request p m params id in
      handle_of_value p h v v c w refl
      ∙ handle_value_of_valid p h v c w refl (rpc_request-is_valid m params id filled)
      ∙ rw (valid, single) (rw (and_false (not (m == "GetExtendedAgentCard"))) refl)

  -- `JSON.parse` reads the text of a response that `JSON.stringify` wrote.
  abbrev IsParsed : RpcResponse → Type 0
  IsParsed r = let v = response_to_json p.js r in p.parse (p.stringify v) ≡ inr v

  -- The client reads the result or the error of a response with its identifier.
  rpc_result-json_response :
      (m : String) (id : ℕ) (o : Outcome)
      → IsParsed (record { id = number_json p id; outcome = o })
      → rpc_result p m id (json_response (record { id = number_json p id; outcome = o }))
        ≡ outcome_result o
  unfolding rpc_result read_response response_to_json is_same_id sdk_error
  rpc_result-json_response m id (result v) parsed =
      rw parsed (rw (eq_refl (p.js.literal (pos id))) refl)
  rpc_result-json_response m id (failure e) parsed =
      rw parsed
        (ap (λ x. threw (a2a (from_json_rpc_error_response x))) (error_from_json-error_to_json e))

  -- The network delivers a request to the server, which handles it in the context, and its response
  -- to the client as a text that can be parsed.
  abbrev pub Delivers :
      {W : Type 0}
      → RequestHandler W
      → (Json → Action W HttpResponse)
      → ServerCallContext
      → Json
      → W
      → Type 0
  Delivers {W} h fetch c v w =
      (r : RpcResponse) (w' : W)
      → handle p h v c w ≡ (response r, w')
      → (fetch v w ≡ (returned (json_response r), w')) × IsParsed r

  abbrev outcome_sent :
      {W : Type 0} → ClientState W → Attempt Outcome × W → Attempt Json × ClientState W
  outcome_sent s (returned o, w) = (outcome_result o, after_call s w)
  outcome_sent s (threw e, w) = (threw (received e), after_call s w)

  sent :
      {W : Type 0} (h : RequestHandler W) (fetch : Json → Action W HttpResponse)
      (c : ServerCallContext) (m : String) (params : Json) (s : ClientState W)
      (a : Attempt Outcome × W)
      → Delivers h fetch c (rpc_request p m params s.request_id_counter) s.world
      → handle p h (rpc_request p m params s.request_id_counter) c s.world
        ≡ reply_of (number_json p s.request_id_counter) a
      → send_rpc_request p fetch m params s ≡ outcome_sent s a
  unfolding send_rpc_request
  sent h fetch c m params s (returned o, w') delivers e =
      let (arrives, parsed) = delivers _ _ e in
      rw arrives
        (ap (λ r. (r, after_call s w')) (rpc_result-json_response m s.request_id_counter o parsed))
  sent h fetch c m params s (threw x, w') delivers e =
      let (arrives, parsed) = delivers _ _ e in
      rw arrives (
        ap (λ r. (r, after_call s w'))
          (rpc_result-json_response m s.request_id_counter (failure (to_json_rpc_error x)) parsed))

  read_back :
      {W B : Type 0} (answer : MessageFns B) (write : B → Json) (s : ClientState W)
      (a : Attempt B × W)
      → OnReturned (λ y. from_json answer (write y) ≡ ok y) a.0
      → then_of (λ v s'. (read_request p answer v, s')) (outcome_sent s (written_as write a))
        ≡ carried s a
  read_back answer write s (returned y, w) h = rw (h, read_request) refl
  read_back answer write s (threw e, w) h = refl

  -- What the client gets of a method that does not stream is what the method gives.
  pub remote-carried :
      {W A B : Type 0} (h : RequestHandler W) (fetch : Json → Action W HttpResponse)
      (c : ServerCallContext) (m : String) (request : MessageFns A) (answer : MessageFns B)
      (write : B → Json) (x : A) (s : ClientState W) (a : Attempt B × W)
      → Delivers h fetch c (rpc_request p m (to_json request x) s.request_id_counter) s.world
      → truthy m ≡ true
      → is_streaming_method m ≡ false
      → has_filled_keys (request.entries x) ≡ true
      → run_method p h m (to_json request x) (context_for (to_json request x) c) s.world
        ≡ written_as write a
      → OnReturned (λ y. from_json answer (write y) ≡ ok y) a.0
      → remote p fetch m request answer x s ≡ carried s a
  unfolding remote
  remote-carried h fetch c m request answer write x s a delivers filled single keys runs back =
      let params = to_json request x in
      let served =
        handle-rpc_request h m params s.request_id_counter c s.world filled single
          (to_json-params_are_valid request x keys) in
      let answered =
        sent h fetch c m params s (written_as write a) delivers
          (served ∙ ap (reply_of (number_json p s.request_id_counter)) runs) in
      ap (then_of (λ v s'. (read_request p answer v, s'))) answered
      ∙ read_back answer write s a back
