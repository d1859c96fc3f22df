-- ===== src/Tests/Compats.antt =====
-- Translations to version 0.3 and back on small messages, with a plain code for bytes.
use package.a2a_js.Prelude.{
  ℕ, zero, suc, ◌+◌, String, true, false, none, some, List, [], ◌∷◌, ◌≡◌, arith, refl, ◌∙◌, pos,
  nat_eq, inl, ap,
}
use Prim.Native.Char.{code}
use package.a2a_js.Types.{
  Message, Part, Content, text, raw, json, str, completed, TaskStatusUpdateEvent, status_response,
  SendMessageRequest,
}
use package.a2a_js.Errors.{ok, map_option_result}
use package.a2a_js.Compat.Enums.{to_compat_task_state, literal_of}
use package.a2a_js.Compat.Messages.RoundTrip.{IsMessageCompat}
use package.a2a_js.Tests.Data.{message_of}
use package.a2a_js.Compat.Legacy.{
  LegacyStreamResult, LegacyMessageSendParams, LegacyTaskStatusUpdateEvent, string_id,
  success_response,
}
use package.a2a_js.Compat.Parts.{Base64}
use package.a2a_js.Compat.Parts.RoundTrip.{IsInverse}
use package.a2a_js.Compat.Tasks.{
  to_compat_task_status_update_event, to_compat_status_or_unknown, to_compat_task_status,
}
use package.a2a_js.Compat.Responses.{to_core_stream_response, to_compat_stream_response}
use package.a2a_js.Compat.Requests.{
  request_of, to_core_send_message_request, to_compat_send_message_request,
}
use package.a2a_js.Compat.Requests.RoundTrip.{
  to_core_stream_response-to_compat_stream_response,
  to_core_send_message_request-to_compat_send_message_request,
}

-- A byte is written as that many letters, and ended by another.
abbrev pub write_byte : ℕ → String → String
write_byte zero s = String.◌∷◌ "b" s
write_byte (suc n) s = String.◌∷◌ "a" (write_byte n s)

abbrev pub write_bytes : List ℕ → String
write_bytes [] = ""
write_bytes (n ∷ ns) = write_byte n (write_bytes ns)

abbrev pub read_bytes : ℕ → String → List ℕ
read_bytes n String.[] = []
read_bytes n (String.◌∷◌ c s) = elim (nat_eq (code c) b'a') [
  | true ↦ read_bytes (suc n) s
  | false ↦ n ∷ read_bytes 0 s
]

read_bytes-write_byte :
    (k n : ℕ) (s : String) → read_bytes k (write_byte n s) ≡ (k + n) ∷ read_bytes 0 s
read_bytes-write_byte k zero s = ap (λ n. n ∷ read_bytes 0 s) (omega arith)
read_bytes-write_byte k (suc n) s =
    read_bytes-write_byte (suc k) n s ∙ ap (λ m. m ∷ read_bytes 0 s) (omega arith)

pub read_bytes-write_bytes : (ns : List ℕ) → read_bytes 0 (write_bytes ns) ≡ ns
read_bytes-write_bytes [] = refl
read_bytes-write_bytes (n ∷ ns) =
    read_bytes-write_byte 0 n (write_bytes ns)
    ∙ ap (λ m. m ∷ read_bytes 0 (write_bytes ns)) (omega arith)
    ∙ ap (◌∷◌ n) (read_bytes-write_bytes ns)

abbrev byte_code : Base64
byte_code = record { to_base64 = write_bytes; from_base64 = read_bytes 0 }

byte_code-IsInverse : IsInverse byte_code
byte_code-IsInverse = read_bytes-write_bytes

abbrev part_of : Content → Part
part_of c = record { content = some c; metadata = none; filename = ""; media_type = "" }

-- A text, a picture and the value "x", which is no object.
abbrev mixed_message : Message
mixed_message = record (message_of "m1" "t1") {
  parts =
      part_of (text "hello")
      ∷ record (part_of (raw (2 ∷ 0 ∷ []))) { filename = "a.png"; media_type = "image/png" }
      ∷ part_of (json (some (str "x")))
      ∷ [];
}

mixed_message-IsMessageCompat : IsMessageCompat mixed_message
mixed_message-IsMessageCompat = (refl, inl refl, ((refl, refl), (tt, (((refl, refl), tt), tt))))

abbrev completed_update : TaskStatusUpdateEvent
completed_update = record {
  task_id = "t1";
  context_id = "ctx";
  status =
      some (record { state = completed; message = some mixed_message; timestamp = some "12:00" });
  metadata = none;
}

to_core_stream_response-to_compat_stream_response_example :
    (l : LegacyStreamResult) × (to_compat_stream_response byte_code
        (some (status_response completed_update))
        (string_id "1")
      ≡ ok (success_response (string_id "1") l))
    × (to_core_stream_response byte_code (success_response (string_id "1") l)
        ≡ ok (status_response completed_update))
to_core_stream_response-to_compat_stream_response_example =
    to_core_stream_response-to_compat_stream_response byte_code (status_response completed_update)
      (string_id "1") byte_code-IsInverse (refl, mixed_message-IsMessageCompat, refl)

abbrev send_request : SendMessageRequest
send_request = record {
  tenant = "acme";
  message = some mixed_message;
  configuration = some (record {
    accepted_output_modes = [];
    task_push_notification_config = none;
    history_length = some (pos 2);
    return_immediately = true;
  });
  metadata = none;
}

to_core_send_message_request-to_compat_send_message_request_example :
    (l : LegacyMessageSendParams) × (to_compat_send_message_request byte_code send_request
        (string_id "1")
      ≡ ok (request_of (string_id "1") "message/send" l))
    × (to_core_send_message_request byte_code (request_of (string_id "1") "message/send" l) "acme"
        ≡ ok send_request)
to_core_send_message_request-to_compat_send_message_request_example =
    to_core_send_message_request-to_compat_send_message_request byte_code send_request mixed_message
      (string_id "1") byte_code-IsInverse refl mixed_message-IsMessageCompat tt

abbrev legacy_update : LegacyTaskStatusUpdateEvent
legacy_update = record {
  task_id = "t1";
  context_id = "ctx";
  status = record { state = "completed"; message = none; timestamp = none };
  final = true;
  metadata = none;
}

abbrev bare_update : TaskStatusUpdateEvent
bare_update = record completed_update {
  status = some (record { state = completed; message = none; timestamp = none });
}

bare_update-translated : to_compat_task_status_update_event byte_code bare_update ≡ ok legacy_update
unfolding to_compat_task_status_update_event to_compat_status_or_unknown to_compat_task_status
    to_compat_task_state literal_of map_option_result
bare_update-translated = refl
