-- ===== src/Codec/Messages.antt =====
-- `Role`, `Part` and `Message` of src/types/pb/a2a.ts as JSON.
use package.a2a_js.Prelude.{String, Option, none, some, List, [], ◌∷◌, JsMap, ◌==◌, if◌then◌else◌}
use package.a2a_js.Types.{
  Json, num, str, Role, role_unspecified, role_user, role_agent, unrecognized, Part, Content, text,
  raw, url, json, Message,
}
use package.a2a_js.Errors.{Result, ok, ◌>>=◌}
use package.a2a_js.Codec.Fields.{
  JsPlatform, MessageFns, to_json, from_json, read_text, read_list, read_struct, text_entry,
  struct_entry, list_entry, case_entry,
}

-- One `case` of an enum's `switch`: its number, its name and its value.
abbrev pub enum_from_json {ℓ} : {A : Type ℓ} → A → List (String × String × A) → Json → A
enum_from_json other [] v = other
enum_from_json other ((n, name, x) ∷ cases) v =
    let rest = enum_from_json other cases v in
    elim v [
      | num m ↦ if m == n then x else rest
      | str s ↦ if s == name then x else rest
      | _ ↦ other
    ]

unfoldable pub role_from_json : Json → Role
role_from_json = enum_from_json unrecognized (
    ("0", "ROLE_UNSPECIFIED", role_unspecified)
    ∷ ("1", "ROLE_USER", role_user)
    ∷ ("2", "ROLE_AGENT", role_agent)
    ∷ [])

unfoldable pub role_to_json : Role → String
role_to_json role_unspecified = "ROLE_UNSPECIFIED"
role_to_json role_user = "ROLE_USER"
role_to_json role_agent = "ROLE_AGENT"
role_to_json unrecognized = "UNRECOGNIZED"

-- `if (role !== 0) obj.role = roleToJSON(role)`.
unfoldable pub role_entry : Role → Option Json
unfolding role_to_json
role_entry role_unspecified = none
role_entry role = some (str (role_to_json role))

unfoldable pub read_role : Option Json → Role
unfolding role_from_json
read_role none = role_unspecified
read_role (some v) = role_from_json v

module _ (js : JsPlatform) where
  open js use {string_of, bytes_from_base64, base64_from_bytes}

  unfoldable pub read_content :
      Option Json → Option Json → Option Json → Option Json → Result (Option Content)
  read_content (some v) r u d = do s ← string_of v; ok (some (text s))
  read_content none (some v) u d = do b ← bytes_from_base64 v; ok (some (raw b))
  read_content none none (some v) d = do s ← string_of v; ok (some (url s))
  read_content none none none (some v) = ok (some (json (some v)))
  read_content none none none none = ok none

  unfoldable pub read_part : (String → Option Json) → Result Part
  unfolding read_content
  read_part at = do
    content ← read_content (at "text") (at "raw") (at "url") (at "data")
    let metadata = read_struct js (at "metadata")
    filename ← read_text js (at "filename") none
    media_type ← read_text js (at "mediaType") (at "media_type")
    ok (record {
      content = content;
      metadata = metadata;
      filename = filename;
      media_type = media_type;
    })

  -- The one of four properties that the content sets, with its value.
  unfoldable pub content_case : Option Content → Option (String × Option Json)
  content_case none = none
  content_case (some (text s)) = some ("text", some (str s))
  content_case (some (raw b)) = some ("raw", some (str (base64_from_bytes b)))
  content_case (some (url s)) = some ("url", some (str s))
  content_case (some (json v)) = some ("data", v)

  unfoldable pub part_entries : Part → JsMap (Option Json)
  unfolding content_case case_entry
  part_entries p =
      let content = content_case p.content in
      ("text", case_entry "text" content)
      ∷ ("raw", case_entry "raw" content)
      ∷ ("url", case_entry "url" content)
      ∷ ("data", case_entry "data" content)
      ∷ ("metadata", struct_entry p.metadata)
      ∷ ("filename", text_entry p.filename)
      ∷ ("mediaType", text_entry p.media_type)
      ∷ []

  abbrev pub part_fns : MessageFns Part
  part_fns = record { entries = part_entries; read = read_part }

  unfoldable pub read_message : (String → Option Json) → Result Message
  unfolding read_role
  read_message at = do
    message_id ← read_text js (at "messageId") (at "message_id")
    context_id ← read_text js (at "contextId") (at "context_id")
    task_id ← read_text js (at "taskId") (at "task_id")
    let role = read_role (at "role")
    parts ← read_list (from_json part_fns) (at "parts") none
    let metadata = read_struct js (at "metadata")
    extensions ← read_list string_of (at "extensions") none
    reference_task_ids ← read_list string_of (at "referenceTaskIds") (at "reference_task_ids")
    ok (record {
      message_id = message_id;
      context_id = context_id;
      task_id = task_id;
      role = role;
      parts = parts;
      metadata = metadata;
      extensions = extensions;
      reference_task_ids = reference_task_ids;
    })

  unfoldable pub message_entries : Message → JsMap (Option Json)
  unfolding role_entry
  message_entries m =
      ("messageId", text_entry m.message_id)
      ∷ ("contextId", text_entry m.context_id)
      ∷ ("taskId", text_entry m.task_id)
      ∷ ("role", role_entry m.role)
      ∷ ("parts", list_entry (to_json part_fns) m.parts)
      ∷ ("metadata", struct_entry m.metadata)
      ∷ ("extensions", list_entry str m.extensions)
      ∷ ("referenceTaskIds", list_entry str m.reference_task_ids)
      ∷ []

  abbrev pub message_fns : MessageFns Message
  message_fns = record { entries = message_entries; read = read_message }
