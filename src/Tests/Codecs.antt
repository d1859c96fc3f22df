-- ===== src/Tests/Codecs.antt =====
-- Messages written as JSON and read back.
use package.a2a_js.Prelude.{
  ℕ, ℤ, pos, negsuc, String, Bool, true, false, none, some, List, [], ◌∷◌, ◌≡◌, refl, ap,
}
use package.a2a_js.Types.{
  Json, null, bool, num, str, obj, end, field, completed, Part, Content, text, raw, json, Message,
  Task, StreamResponse, status_response,
}
use package.a2a_js.Errors.{Result, ok, err, type_error}
use package.a2a_js.Codec.Fields.{JsPlatform, IsFaithful, to_json, from_json}
use package.a2a_js.Codec.Messages.{part_fns}
use package.a2a_js.Codec.Tasks.{task_fns}
use package.a2a_js.Codec.Cards.{card_fns}
use package.a2a_js.Codec.Responses.{stream_response_fns}
use package.a2a_js.Codec.RoundTrip.Messages.{null_data_is_lost}
use package.a2a_js.Codec.RoundTrip.Tasks.{from_json-to_json_task}
use package.a2a_js.Codec.RoundTrip.Cards.{from_json-to_json_card}
use package.a2a_js.Codec.RoundTrip.Responses.{from_json-to_json_stream_response}
use package.a2a_js.Tests.Data.{message_of, status_of, task_of, artifact_of, card_with}
use package.a2a_js.Tests.Compats.{write_bytes, read_bytes, read_bytes-write_bytes}

-- An integer is written as the bytes of its magnitude, after one byte more if it is negative.
abbrev write_integer : ℤ → String
write_integer (pos n) = write_bytes (n ∷ [])
write_integer (negsuc n) = write_bytes (0 ∷ n ∷ [])

abbrev integer_of : List ℕ → ℤ
integer_of (z ∷ n ∷ ns) = negsuc n
integer_of (n ∷ []) = pos n
integer_of [] = pos 0

abbrev text_value : Json → Result String
text_value (str s) = ok s
text_value _ = err type_error

abbrev integer_value : Json → Result ℤ
integer_value (num l) = ok (integer_of (read_bytes 0 l))
integer_value _ = err type_error

abbrev is_truthy : Json → Bool
is_truthy null = false
is_truthy (bool b) = b
is_truthy _ = true

abbrev bytes_value : Json → Result (List ℕ)
bytes_value (str s) = ok (read_bytes 0 s)
bytes_value _ = err type_error

abbrev pub js : JsPlatform
js = record {
  string_of = text_value;
  number_of = integer_value;
  boolean_of = is_truthy;
  bytes_from_base64 = bytes_value;
  base64_from_bytes = write_bytes;
  literal = write_integer;
}

integers_read : (z : ℤ) → integer_value (num (write_integer z)) ≡ ok z
integers_read (pos n) = ap (λ ns. ok (integer_of ns)) (read_bytes-write_bytes (n ∷ []))
integers_read (negsuc n) = ap (λ ns. ok (integer_of ns)) (read_bytes-write_bytes (0 ∷ n ∷ []))

pub faithful : IsFaithful js
faithful = record {
  string_lem = λ s. refl;
  number_lem = integers_read;
  boolean_lem = λ b. refl;
  bytes_lem = λ b. ap ok (read_bytes-write_bytes b);
}

abbrev part_of : Content → Part
part_of c = record { content = some c; metadata = none; filename = "a.txt"; media_type = "" }

abbrev full_message : Message
full_message = record (message_of "m5" "t1") {
  parts =
      part_of (text "hello")
      ∷ part_of (raw (1 ∷ 2 ∷ []))
      ∷ part_of (json (some (obj (field "k" null end))))
      ∷ [];
  metadata = some (("k", bool true) ∷ []);
  extensions = "ext:a" ∷ [];
}

abbrev full_task : Task
full_task = record (task_of completed) {
  artifacts = record (artifact_of "a1" "draft") { parts = full_message.parts } ∷ [];
  history = full_message ∷ [];
}

from_json-to_json_task_example :
    from_json (task_fns js) (to_json (task_fns js) full_task) ≡ ok full_task
from_json-to_json_task_example =
    from_json-to_json_task js faithful full_task
      (tt, ((refl, (refl, (refl, tt))), tt), ((refl, (refl, (refl, tt))), tt))

abbrev status_change : StreamResponse
status_change = status_response (record {
  task_id = "t1";
  context_id = "ctx";
  status = some (status_of completed);
  metadata = none;
})

from_json-to_json_stream_response_example :
    from_json (stream_response_fns js) (to_json (stream_response_fns js) (some status_change))
    ≡ ok (some status_change)
from_json-to_json_stream_response_example =
    from_json-to_json_stream_response js faithful status_change tt

from_json-to_json_card_example :
    from_json (card_fns js) (to_json (card_fns js) (card_with true)) ≡ ok (card_with true)
from_json-to_json_card_example = from_json-to_json_card js faithful (card_with true)

null_data_is_lost_example :
    from_json (part_fns js) (to_json (part_fns js) (part_of (json (some null))))
    ≡ ok (record (part_of (json (some null))) { content = none })
null_data_is_lost_example = null_data_is_lost js faithful (part_of (json (some null))) refl
