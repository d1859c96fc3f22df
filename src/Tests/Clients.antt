-- ===== src/Tests/Clients.antt =====
-- A client's interceptors around a call, and the choice of its transport.
use package.a2a_js.Prelude.{
  ℕ, ◌+◌, String, true, false, none, some, List, [], ◌∷◌, ◌++◌, any, get, is_some, JsMap, inl, ◌==◌,
  ◌&&◌, ◌≡◌, refl,
}
use package.a2a_js.Types.{AgentInterface, SendMessageRequest, StreamResponse, message_response}
use package.a2a_js.Result.{SendResult, message_result}
use package.a2a_js.Client.Stream.{
  ClientConfig, apply_client_config, single, send_as_response, event_loop, send_message_stream,
}
use package.a2a_js.Client.Stream.Fallback.{send_message_stream-execute_with_interceptors}
use package.a2a_js.Tests.Data.{message_of}
use package.a2a_js.Errors.{ok}
use package.a2a_js.Client.Interceptors.{
  Effect, done, ◌⟫◌, CallInterceptor, execute_with_interceptors, intercept_before, before_from,
  after_before, intercept_after, after_loop,
}
use package.a2a_js.Client.Interceptors.Onion.{nested, execute_with_interceptors-nested}
use package.a2a_js.Client.Factory.{
  Selected, select_transport, best_interfaces, first_supported, is_current,
}
use package.a2a_js.Client.Factory.Choice.{
  is_chosen, select_transport-is_supported, select_transport-is_current,
}

-- The world is the log of what ran.
abbrev Log : Type 0
Log = List String

abbrev note : {A : Type 0} → String → A → Effect Log A
note s a log = (ok a, log ++ s ∷ [])

abbrev logging : String → String → CallInterceptor Log ℕ String ℕ
logging enter leave = record { before = note enter; after = note leave }

abbrev hooks : List (CallInterceptor Log ℕ String ℕ)
hooks = logging "enter outer" "leave outer" ∷ logging "enter inner" "leave inner" ∷ []

abbrev call : ℕ → String → Effect Log ℕ
call n options = note "call" (n + 1)

call_log :
    execute_with_interceptors hooks call 1 "" []
    ≡ (ok 2, "enter outer" ∷ "enter inner" ∷ "call" ∷ "leave inner" ∷ "leave outer" ∷ [])
unfolding execute_with_interceptors intercept_before before_from after_before intercept_after
    after_loop
call_log = refl

execute_with_interceptors-nested_example : execute_with_interceptors hooks call 1 "" ≡ (
    nested call hooks (record { input = 1; early_return = none; options = "" }) ⟫ λ args.
    done args.result)
execute_with_interceptors-nested_example = execute_with_interceptors-nested call hooks 1 ""

abbrev interface_of : String → String → String → AgentInterface
interface_of binding url version = record {
  url = url;
  protocol_binding = binding;
  tenant = "acme";
  protocol_version = version;
}

abbrev card_interfaces : List AgentInterface
card_interfaces =
    interface_of "GRPC" "grpc" "1.0"
    ∷ interface_of "JSONRPC" "old" "0.3"
    ∷ interface_of "JSONRPC" "new" "1.0"
    ∷ []

abbrev transports : JsMap ℕ
transports = ("JSONRPC", 7) ∷ ("HTTP+JSON", 8) ∷ []

-- The names stand in upper case already.
abbrev upper : String → String
upper s = s

abbrev choice : Selected ℕ
choice = record {
  factory = 7;
  interface = interface_of "JSONRPC" "new" "1.0";
  decorated_tenant = some "acme";
}

chooses : select_transport upper transports ("HTTP+JSON" ∷ []) card_interfaces ≡ inl choice
unfolding select_transport best_interfaces first_supported
chooses = refl

select_transport-is_supported_example :
    is_chosen (select_transport upper transports ("HTTP+JSON" ∷ []) card_interfaces)
    ≡ any (λ i. is_some (get (upper i.protocol_binding) transports)) card_interfaces
select_transport-is_supported_example =
    select_transport-is_supported upper transports ("HTTP+JSON" ∷ []) card_interfaces

select_transport-is_current_example :
    (get "JSONRPC" transports ≡ some 7)
    × (true ≡ any (λ j. (upper j.protocol_binding == "JSONRPC") && is_current j) card_interfaces)
select_transport-is_current_example =
    select_transport-is_current upper transports ("HTTP+JSON" ∷ []) card_interfaces choice chooses

abbrev no_config : ClientConfig
no_config = record { polling = none; accepted_output_modes = none; push_notification_config = none }

abbrev send_params : SendMessageRequest
send_params = record {
  tenant = "acme";
  message = some (message_of "m1" "");
  configuration = none;
  metadata = none;
}

abbrev stream_hooks : List (CallInterceptor Log SendMessageRequest String StreamResponse)
stream_hooks = record { before = note "enter"; after = note "leave" } ∷ []

abbrev send_call : SendMessageRequest → String → Effect Log SendResult
send_call q options = note "send" (message_result (message_of "m2" "t1"))

send_message_stream-execute_with_interceptors_example :
    send_message_stream stream_hooks no_config false send_call (λ q options. []) send_params "" []
    ≡ single (
        execute_with_interceptors stream_hooks
          (send_as_response send_call)
          (apply_client_config no_config false send_params)
          ""
          [])
send_message_stream-execute_with_interceptors_example =
    send_message_stream-execute_with_interceptors stream_hooks no_config send_call (λ q options. [])
      send_params "" []

sent_alone :
    send_message_stream stream_hooks no_config false send_call (λ q options. []) send_params "" []
    ≡ record {
      items = message_response (message_of "m2" "t1") ∷ [];
      failure = none;
      world = "enter" ∷ "send" ∷ "leave" ∷ [];
    }
unfolding send_message_stream apply_client_config intercept_before before_from intercept_after
    after_loop event_loop
sent_alone = refl
