-- ===== src/Tests/Streams.antt =====
-- Server-sent events formatted and parsed, and a bus with listeners.
use package.a2a_js.Prelude.{Text, codes, String, none, List, [], ◌∷◌, ◌≡◌, arith, refl}
use package.a2a_js.Sse.Parser.{parse_sse_stream, format_sse_event, format_sse_error_event}
use package.a2a_js.Sse.Chunks.{concat_all, parse_sse_stream-concat_all}
use package.a2a_js.Sse.Format.{
  Outgoing, sends, sends_error, format_outgoing, format_all, IsStringify,
  parse_sse_stream-format_all,
}
use package.a2a_js.Events.Bus.{new_channel}
use package.a2a_js.Events.Bus.Refinement.{
  BusCall, on, once, off, publish, remove_all, bus_calls, emitter_calls, emitter_call,
  bus_calls-emitter_calls,
}

-- The values are texts without control characters already.
abbrev to_json : String → Text
to_json s = codes "{}"

to_json-IsStringify : IsStringify to_json
to_json-IsStringify s = ((refl, (refl, tt)), refl)

abbrev outgoing : List (Outgoing String)
outgoing = sends "a" ∷ sends_error "b" ∷ []

abbrev event_chunks : List Text
event_chunks = codes "data: {" ∷ codes "}\n\nevent: err" ∷ codes "or\ndata: {}\n" ∷ codes "\n" ∷ []

chunks-format_all : concat_all event_chunks ≡ format_all to_json outgoing
unfolding format_outgoing format_sse_event format_sse_error_event
chunks-format_all = refl

parse_sse_stream-format_all_example : parse_sse_stream 64 event_chunks ≡ record {
  events =
      record { event_type = codes "message"; payload = codes "{}" }
      ∷ record { event_type = codes "error"; payload = codes "{}" }
      ∷ [];
  failure = none;
}
parse_sse_stream-format_all_example =
    parse_sse_stream-format_all to_json 64 outgoing event_chunks to_json-IsStringify
      (omega arith, (omega arith, tt)) chunks-format_all

parse_sse_stream-concat_all_example :
    parse_sse_stream 8 event_chunks ≡ parse_sse_stream 8 (concat_all event_chunks ∷ [])
parse_sse_stream-concat_all_example = parse_sse_stream-concat_all 8 event_chunks

-- A listener that is there twice and for one call, and one that is removed.
abbrev bus_script : List BusCall
bus_script =
    on "a" ∷ once "a" ∷ on "b" ∷ publish ∷ on "a" ∷ off "a" ∷ publish ∷ remove_all ∷ publish ∷ []

bus_calls-emitter_calls_example : bus_calls bus_script new_channel ≡ emitter_calls bus_script []
bus_calls-emitter_calls_example = bus_calls-emitter_calls bus_script

calls_of_script :
    emitter_calls bus_script []
    ≡ [] ∷ [] ∷ [] ∷ ("a" ∷ "a" ∷ "b" ∷ []) ∷ [] ∷ [] ∷ ("a" ∷ "b" ∷ []) ∷ [] ∷ [] ∷ []
unfolding emitter_calls emitter_call
calls_of_script = refl
