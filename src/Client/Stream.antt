-- ===== src/Client/Stream.antt =====
-- `sendMessageStream` and `resubscribeTask` of src/client/multitransport-client.ts, with
-- `applyClientConfig`. The stream of the transport is a list of calls, each of which delivers the
-- next event or throws; a consumer takes all items.
pub mod Fallback
use package.a2a_js.Prelude.{
  Bool, true, false, Option, none, some, List, [], ◌∷◌, String, or_else, is_some, if◌then◌else◌,
}
use package.a2a_js.Types.{
  SendMessageRequest, SendMessageConfiguration, TaskPushNotificationConfig, StreamResponse,
  task_response, message_response,
}
use package.a2a_js.Errors.{A2aError, Result, ok, err}
use package.a2a_js.Result.{SendResult, task_result, message_result}
use package.a2a_js.Client.Interceptors.{
  Effect, ◌⟫◌, done, BeforeArgs, AfterArgs, CallInterceptor, EarlyReturn, intercept_before,
  intercept_after, after_args,
}

pub record ClientConfig : Type 0 where
  pub polling : Option Bool
  pub accepted_output_modes : Option (List String)
  pub push_notification_config : Option TaskPushNotificationConfig

-- The config of the client stands in for one that is not given, if there is a message.
abbrev push_config :
    Option TaskPushNotificationConfig
    → ClientConfig
    → SendMessageRequest
    → Option TaskPushNotificationConfig
push_config (some c) config q = some c
push_config none config q = if is_some q.message then config.push_notification_config else none

abbrev configured :
    Option SendMessageConfiguration
    → ClientConfig
    → Bool
    → SendMessageRequest
    → SendMessageConfiguration
configured none config returns q = record {
  accepted_output_modes = or_else config.accepted_output_modes [];
  task_push_notification_config = push_config none config q;
  history_length = none;
  return_immediately = returns;
}
configured (some c) config returns q = record c {
  task_push_notification_config = push_config c.task_push_notification_config config q;
}

unfoldable pub apply_client_config : ClientConfig → Bool → SendMessageRequest → SendMessageRequest
apply_client_config config returns q = record q {
  configuration = some (configured q.configuration config returns q);
}

-- What a consumer receives, the error by which the stream ends, and the world then.
pub record Streamed (W R : Type 0) : Type 0 where
  pub items : List R
  pub failure : Option A2aError
  pub world : W

module _ {W R : Type 0} where
  abbrev pub ended : W → Streamed W R
  ended w = record { items = []; failure = none; world = w }

  abbrev pub failed : A2aError → W → Streamed W R
  failed e w = record { items = []; failure = some e; world = w }

  abbrev pub put_item : R → Streamed W R → Streamed W R
  put_item r out = record out { items = r ∷ out.items }

  -- A single item, or an error in its place.
  abbrev pub single : Result R × W → Streamed W R
  single (ok r, w) = put_item r (ended w)
  single (err e, w) = failed e w

  -- What the `after` hooks leave of an event is yielded, unless they throw.
  abbrev pub yield_item :
      {O : Type 0} → Result (AfterArgs O R) × W → (W → Streamed W R) → Streamed W R
  yield_item (err e, w) rest = failed e w
  yield_item (ok args, w) rest =
      put_item args.result (if args.early_return then ended w else rest w)

  abbrev after_pull : Result R × W → (R → W → Streamed W R) → Streamed W R
  after_pull (err e, w) rest = failed e w
  after_pull (ok v, w) rest = rest v w

module _ {W I O R : Type 0} where
  -- The loop over the events of the transport.
  unfoldable pub event_loop :
      List (CallInterceptor W I O R) → List (Effect W R) → O → W → Streamed W R
  unfolding intercept_after
  event_loop is [] options w = ended w
  event_loop is (pull ∷ pulls) options w = after_pull (pull w) (λ v w'.
      yield_item (intercept_after is (after_args v options) w') (event_loop is pulls options))

  -- What follows `interceptBefore` in a stream: `responds` is what the client does if no `before`
  -- hook returns early.
  abbrev pub stream_after_before :
      (BeforeArgs I O R → W → Streamed W R)
      → Result (BeforeArgs I O R × EarlyReturn W I O R) × W
      → Streamed W R
  stream_after_before responds (err e, w) = failed e w
  stream_after_before responds (ok (args, some (v, executed)), w) =
      yield_item (intercept_after executed (after_args v args.options) w) ended
  stream_after_before responds (ok (args, none), w) = responds args w

  unfoldable pub resubscribe_task :
      List (CallInterceptor W I O R) → (I → O → List (Effect W R)) → I → O → W → Streamed W R
  unfolding intercept_before intercept_after event_loop
  resubscribe_task is stream_call input options w =
      stream_after_before (λ args. event_loop is (stream_call args.input args.options) args.options)
        (intercept_before is (record { input = input; early_return = none; options = options }) w)

abbrev pub response_of : SendResult → StreamResponse
response_of (message_result m) = message_response m
response_of (task_result t) = task_response t

-- The call of the transport's `sendMessage` in place of a stream.
abbrev pub send_as_response :
    {W O : Type 0}
    → (SendMessageRequest → O → Effect W SendResult)
    → SendMessageRequest
    → O
    → Effect W StreamResponse
send_as_response send q options = send q options ⟫ λ r. done (response_of r)

unfoldable pub send_message_stream :
    {W O : Type 0}
    → List (CallInterceptor W SendMessageRequest O StreamResponse)
    → ClientConfig
    → Bool
    → (SendMessageRequest → O → Effect W SendResult)
    → (SendMessageRequest → O → List (Effect W StreamResponse))
    → SendMessageRequest
    → O
    → W
    → Streamed W StreamResponse
unfolding apply_client_config intercept_before intercept_after event_loop
send_message_stream is config streams send stream_call params options w =
    stream_after_before
      (λ args w'.
        if streams
        then event_loop is (stream_call args.input args.options) args.options w'
        else yield_item
            ((send_as_response send args.input args.options ⟫ λ r.
                intercept_after is (after_args r args.options))
              w')
            ended)
      (intercept_before is
        (record {
          input = apply_client_config config false params;
          early_return = none;
          options = options;
        })
        w)
