-- ===== src/Client/Stream/Fallback.antt =====
-- A stream from an agent that does not stream.
use package.a2a_js.Prelude.{Bool, true, false, if◌then◌else◌, none, some, List, ◌≡◌, refl}
use package.a2a_js.Types.{SendMessageRequest, StreamResponse}
use package.a2a_js.Errors.{Result, ok, err}
use package.a2a_js.Result.{SendResult}
use package.a2a_js.Client.Interceptors.{
  Effect, next_of, ◌⟫◌, done, BeforeArgs, AfterArgs, CallInterceptor, EarlyReturn, intercept_before,
  intercept_after, after_args, after_before, execute_with_interceptors,
}
use package.a2a_js.Client.Stream.{
  ClientConfig, apply_client_config, ended, put_item, single, yield_item, stream_after_before,
  send_as_response, send_message_stream,
}

ends_either_way :
    {W R : Type 0} (r : R) (w : W) (b : Bool)
    → put_item r (if b then ended w else ended w) ≡ put_item r (ended w)
ends_either_way r w true = refl
ends_either_way r w false = refl

module _ {W O R : Type 0} where
  yield_last :
      (r : Result (AfterArgs O R) × W)
      → yield_item r ended ≡ single (next_of (λ args. done args.result) r)
  yield_last (err e, w) = refl
  yield_last (ok args, w) = ends_either_way args.result w args.early_return

module _ {W O : Type 0} where
  -- From an agent that does not stream, the client yields one response, and it is the one that a
  -- call of the transport's `sendMessage` through the same interceptors returns; or it ends by the
  -- error by which that call ends. The request is the one that the client's config completes.
  pub send_message_stream-execute_with_interceptors :
      (is : List (CallInterceptor W SendMessageRequest O StreamResponse)) (config : ClientConfig)
      (send : SendMessageRequest → O → Effect W SendResult)
      (stream_call : SendMessageRequest → O → List (Effect W StreamResponse))
      (params : SendMessageRequest) (options : O) (w : W)
      → send_message_stream is config false send stream_call params options w
        ≡ single (
            execute_with_interceptors is
              (send_as_response send)
              (apply_client_config config false params)
              options
              w)
  unfolding send_message_stream execute_with_interceptors after_before
  send_message_stream-execute_with_interceptors is config send stream_call params options w = from (
      intercept_before is
        (record {
          input = apply_client_config config false params;
          early_return = none;
          options = options;
        })
        w)
    where
      from :
          (r : Result (
              BeforeArgs SendMessageRequest O StreamResponse
              × EarlyReturn W SendMessageRequest O StreamResponse)
            × W)
          → stream_after_before
              (λ args w'.
                yield_item
                  ((send_as_response send args.input args.options ⟫ λ v.
                      intercept_after is (after_args v args.options))
                    w')
                  ended)
              r
            ≡ single (
                next_of
                  (λ args. done args.result)
                  (next_of (after_before is (send_as_response send)) r))
      from (err e, w) = refl
      from (ok (args, some (v, executed)), w) =
          yield_last (intercept_after executed (after_args v args.options) w)
      from (ok (args, none), w) = yield_last (
          (send_as_response send args.input args.options ⟫ λ v.
          intercept_after is (after_args v args.options))
            w)
