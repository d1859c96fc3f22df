-- ===== src/Tests/Rpcs.antt =====
-- Calls of the JSON-RPC client through the server to a small request handler.
use package.a2a_js.Prelude.{
  ℕ, suc, pos, true, false, none, some, List, [], ◌∷◌, map, inr, ◌≡◌, refl, ap,
}
use package.a2a_js.Types.{
  Json, null, str, obj, end, field, completed, ListTasksRequest, ListTasksResponse, unspecified,
  StreamResponse, task_response,
}
use package.a2a_js.Errors.Classes.{other_error, other_value}
use package.a2a_js.Result.{message_result}
use package.a2a_js.Codec.Fields.{
  to_json, from_json, entries_object, text_entry, option_number_entry, option_entry, read_text,
  read_option, read_option_flag, read_with, struct_entry, list_entry, read_list, read_elements,
  read_struct,
}
use package.a2a_js.Codec.Tasks.{state_entry, read_state}
use package.a2a_js.Codec.Messages.{
  role_entry, role_to_json, role_from_json, read_role, read_message, message_entries,
}
use package.a2a_js.Codec.Requests.{send_request_fns, send_request_entries, read_send_request}
use package.a2a_js.Codec.Responses.{send_response_fns}
use package.a2a_js.Codec.Queries.{list_request_fns, list_request_entries, read_list_request}
use package.a2a_js.Rpc.{
  Attempt, returned, threw, Action, Events, RequestHandler, RpcPlatform, result, RpcResponse, Reply,
  response,
}
use package.a2a_js.Rpc.Server.{
  context_for, error_reply, rpc_value_of, handle_request, event_stream, handle, handle_value,
  is_request_valid, has_valid_id, params_are_valid, run_method,
}
use package.a2a_js.Rpc.Listing.{serialize_list_tasks_response}
use package.a2a_js.Rpc.Wire.{response_to_json}
use package.a2a_js.Rpc.Client.{HttpResponse, number_json, stream_results, rpc_request}
use package.a2a_js.Rpc.Client.Calls.{ClientState, send_message, list_tasks}
use package.a2a_js.Rpc.Replies.{card_request_without_params}
use package.a2a_js.Rpc.Delivery.{IsPlatform, json_response, carried}
use package.a2a_js.Rpc.EndToEnd.{DeliversCall, send_message-send_message, list_tasks-list_tasks}
use package.a2a_js.Rpc.Streams.{yielded_of, event_response, event_text, stream_results-event_stream}
use package.a2a_js.Tests.Data.{caller, message_of, task_of, card_with, send_request}
use package.a2a_js.Tests.Codecs.{js, faithful}

abbrev page : ListTasksResponse
page = record {
  tasks = task_of completed ∷ [];
  next_page_token = "";
  page_size = pos 50;
  total_size = pos 1;
}

abbrev events_of_send : List StreamResponse
events_of_send = task_response (task_of completed) ∷ []

-- A request handler that counts its calls.
abbrev counting : RequestHandler ℕ
counting = record {
  get_agent_card = λ n. (returned (card_with true), n);
  get_authenticated_extended_agent_card = λ q c n. (returned (card_with true), suc n);
  send_message = λ q c n. (returned (message_result (message_of "m2" "t1")), suc n);
  send_message_stream = λ q c n. (record { yielded = events_of_send; failure = none }, suc n);
  get_task = λ q c n. (returned (task_of completed), suc n);
  list_tasks = λ q c n. (returned page, suc n);
  cancel_task = λ q c n. (threw other_value, suc n);
  create_task_push_notification_config = λ q c n. (returned q, suc n);
  get_task_push_notification_config = λ q c n. (threw other_value, suc n);
  delete_task_push_notification_config = λ q c n. (returned tt, suc n);
  list_task_push_notification_configs =
      λ q c n. (returned (record { configs = []; next_page_token = "" }), suc n);
  resubscribe = λ q c n. (record { yielded = []; failure = none }, suc n);
}

-- A platform for one exchange, whose response is parsed as the JSON that it was made from.
abbrev platform_of : Json → RpcPlatform
platform_of reply = record {
  js = js;
  parse = λ s. inr reply;
  stringify = λ v. "reply";
  is_integer = λ l. true;
  is_blank = λ s. false;
  type_error_text = "Cannot read properties of undefined";
}

platform_of-IsPlatform : (reply : Json) → IsPlatform (platform_of reply)
platform_of-IsPlatform reply = record { faithful = faithful; literal-IsInteger = λ z. refl }

abbrev first_response : Reply → RpcResponse
first_response (response r) = r
first_response _ = record { id = null; outcome = result null }

abbrev arrived : (reply : Json) → Reply × ℕ → Attempt HttpResponse × ℕ
arrived reply (response r, n) =
    (returned (json_response (platform_of reply) (platform_of-IsPlatform reply) r), n)
arrived reply (other, n) = (threw other_value, n)

abbrev network : Json → Json → Action ℕ HttpResponse
network reply v n = arrived reply (handle (platform_of reply) counting v caller n)

abbrev start : ClientState ℕ
start = record { request_id_counter = 1; world = 0 }

abbrev list_request : ListTasksRequest
list_request = record {
  tenant = "acme";
  context_id = "";
  status = unspecified;
  page_size = none;
  page_token = "";
  history_length = none;
  status_timestamp_after = none;
  include_artifacts = some true;
}

abbrev list_reply : Json
list_reply = response_to_json js (record {
  id = number_json (platform_of null) 1;
  outcome = result (serialize_list_tasks_response js page (some true));
})

list_is_delivered :
    DeliversCall
      (platform_of list_reply)
      (platform_of-IsPlatform list_reply)
      counting
      (network list_reply)
      caller
      "ListTasks"
      (list_request_fns js)
      list_request
      start
unfolding handle handle_value handle_request rpc_value_of is_request_valid has_valid_id
    params_are_valid context_for run_method rpc_request to_json from_json entries_object
    list_request_entries read_list_request text_entry option_number_entry option_entry state_entry
    read_state read_text read_option read_option_flag read_with
list_is_delivered r n e =
    (ap (arrived list_reply) e, ap (λ x. inr (response_to_json js (first_response x.0))) e)

list_tasks-list_tasks_example :
    list_tasks (platform_of list_reply) (network list_reply) list_request start
    ≡ carried start (counting.list_tasks list_request caller 0)
list_tasks-list_tasks_example =
    list_tasks-list_tasks (platform_of list_reply) (platform_of-IsPlatform list_reply) counting
      (network list_reply) caller list_request start list_is_delivered ((tt, tt, (tt, tt)), tt)

abbrev send_reply : Json
send_reply = response_to_json js (record {
  id = number_json (platform_of null) 1;
  outcome = result (to_json (send_response_fns js) (some (message_result (message_of "m2" "t1"))));
})

send_is_delivered :
    DeliversCall
      (platform_of send_reply)
      (platform_of-IsPlatform send_reply)
      counting
      (network send_reply)
      caller
      "SendMessage"
      (send_request_fns js)
      send_request
      start
unfolding handle handle_value handle_request rpc_value_of is_request_valid has_valid_id
    params_are_valid context_for run_method rpc_request to_json from_json entries_object
    send_request_entries read_send_request read_message message_entries text_entry option_entry
    struct_entry list_entry role_entry role_to_json role_from_json read_role read_text read_list
    read_elements read_struct read_option read_with
send_is_delivered r n e =
    (ap (arrived send_reply) e, ap (λ x. inr (response_to_json js (first_response x.0))) e)

send_message-send_message_example :
    send_message (platform_of send_reply) (network send_reply) send_request start
    ≡ carried start (counting.send_message send_request caller 0)
send_message-send_message_example =
    send_message-send_message (platform_of send_reply) (platform_of-IsPlatform send_reply) counting
      (network send_reply) caller send_request start send_is_delivered tt tt

-- A streaming request whose identifier is a text.
abbrev stream_body : Json
stream_body = obj (
    field "jsonrpc" (str "2.0") (
      field "id" (str "r1") (
        field "method" (str "SubscribeToTask")
          (field "params" (obj (field "id" (str "t1") end)) end))))

-- A request handler whose streams fail behind their first event.
abbrev failing : RequestHandler ℕ
failing = record counting {
  resubscribe = λ q c n. (record { yielded = events_of_send; failure = some other_value }, suc n);
}

abbrev bare_card_request : Json
bare_card_request = obj (
    field "jsonrpc" (str "2.0")
      (field "id" (str "r2") (field "method" (str "GetExtendedAgentCard") end)))

card_request_without_params_example :
    handle_request (platform_of null) counting bare_card_request caller 0
    ≡ (error_reply (str "r2") (other_error "Cannot read properties of undefined"), 0)
card_request_without_params_example =
    card_request_without_params (platform_of null) counting bare_card_request caller 0 refl refl

abbrev completed_task : StreamResponse
completed_task = task_response (task_of completed)

abbrev event_reply : Json
event_reply = response_to_json js (event_response (platform_of null) faithful 1 completed_task)

abbrev task_stream : Events StreamResponse
task_stream = record { yielded = completed_task ∷ completed_task ∷ []; failure = none }

stream_results-event_stream_example :
    stream_results
      (platform_of event_reply)
      (map (event_text (platform_of event_reply) faithful) (
        yielded_of
          (event_stream
            (platform_of event_reply)
            counting
            (number_json (platform_of event_reply) 1)
            (task_stream, 0)).0))
      1
    ≡ (some completed_task ∷ some completed_task ∷ [], none)
stream_results-event_stream_example =
    stream_results-event_stream (platform_of event_reply) faithful counting 1 task_stream 0
      ((tt, tt, (tt, tt)), ((tt, tt, (tt, tt)), tt)) ((refl, refl), ((refl, refl), tt))
