-- ===== src/Rpc/Streams.antt =====
-- The events of a stream, from `jsonRpcEventStream` of the server to `_processSseEventData` of the
-- client. How the texts of the events travel is src/sse_utils.ts.
use package.a2a_js.Prelude.{
  ℕ, pos, String, false, Option, none, some, List, [], ◌∷◌, All, map, ◌≡◌, refl, ap, ◌∙◌, eq_refl,
  inr,
}
use package.a2a_js.Types.{StreamResponse}
use package.a2a_js.Codec.Fields.{IsFaithful, to_json}
use package.a2a_js.Codec.Responses.{stream_response_fns}
use package.a2a_js.Codec.RoundTrip.Responses.{IsReadableResponse, from_json-to_json_stream_response}
use package.a2a_js.Rpc.{Attempt, returned, Events, RequestHandler, RpcPlatform, result, RpcResponse}
use package.a2a_js.Rpc.Server.{event_stream, read_request}
use package.a2a_js.Rpc.Wire.{response_to_json}
use package.a2a_js.Rpc.Client.{number_json, is_same_id, process_sse_event_data, stream_results}

-- What a call of an async generator yields.
abbrev pub yielded_of : {A : Type 0} → Attempt (Events A) → List A
yielded_of (returned s) = s.yielded
yielded_of _ = []

module _ (p : RpcPlatform) (faithful : IsFaithful p.js) where
  -- The response that carries an event.
  abbrev pub event_response : ℕ → StreamResponse → RpcResponse
  event_response id e = record {
    id = number_json p id;
    outcome = result (to_json (stream_response_fns p.js) (some e));
  }

  abbrev pub event_text : RpcResponse → String
  event_text r = p.stringify (response_to_json p.js r)

  -- The text of the response that carries an event is not blank, and is parsed as what was written.
  abbrev pub IsSent : ℕ → StreamResponse → Type 0
  IsSent id e =
      let r = event_response id e in
      (p.is_blank (event_text r) ≡ false) × (p.parse (event_text r) ≡ inr (response_to_json p.js r))

  process-event_text :
      (id : ℕ) (e : StreamResponse)
      → IsReadableResponse e
      → IsSent id e
      → process_sse_event_data p (event_text (event_response id e)) id ≡ returned (some e)
  unfolding process_sse_event_data is_same_id response_to_json
  process-event_text id e readable (filled, parsed) =
      rw (filled, parsed)
        (rw (eq_refl (p.js.literal (pos id)))
          (rw (from_json-to_json_stream_response p.js faithful e readable, read_request) refl))

  results_of_read :
      (text : String) (texts : List String) (id : ℕ) (r : Option StreamResponse)
      → process_sse_event_data p text id ≡ returned r
      → let rest = stream_results p texts id in
        stream_results p (text ∷ texts) id ≡ (r ∷ rest.0, rest.1)
  unfolding stream_results
  results_of_read text texts id r e = rw (e, stream_results) refl

  events_are_read :
      (id : ℕ) (events : List StreamResponse)
      → All IsReadableResponse events
      → All (IsSent id) events
      → stream_results p (map event_text (map (event_response id) events)) id
        ≡ (map some events, none)
  unfolding stream_results
  events_are_read id [] r t = refl
  events_are_read id (e ∷ events) (r, rs) (t, ts) =
      let texts = map event_text (map (event_response id) events) in
      results_of_read (event_text (event_response id e)) texts id (some e)
        (process-event_text id e r t)
      ∙ ap (λ x. (some e ∷ x.0, x.1)) (events_are_read id events rs ts)

  -- The events that a streaming method of the request handler yields reach the client in their
  -- order, all of them and unchanged, where the client knows the identifier that the server answers
  -- with, and each text is parsed as what was written. The data parts of the events must have values
  -- other than `null`.
  pub stream_results-event_stream :
      {W : Type 0} (h : RequestHandler W) (id : ℕ) (s : Events StreamResponse) (w : W)
      → All IsReadableResponse s.yielded
      → All (IsSent id) s.yielded
      → stream_results p
          (map event_text (yielded_of (event_stream p h (number_json p id) (s, w)).0))
          id
        ≡ (map some s.yielded, none)
  stream_results-event_stream h id s w readable sent = events_are_read id s.yielded readable sent
