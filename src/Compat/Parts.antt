-- ===== src/Compat/Parts.antt =====
-- src/compat/v0_3/translate/parts.ts. The two directions of base64 are a parameter. A clone of a
-- metadata object is the object itself here.
pub mod RoundTrip
use package.a2a_js.Prelude.{
  ℕ, String, Bool, true, false, Option, none, some, List, [], ◌∷◌, JsMap, get, set, delete, or_else,
  is_empty, truthy, if◌then◌else◌,
}
use package.a2a_js.Types.{
  Json, null, bool, num, str, arr, obj, struct_of, fields_of, Struct, Part, Content, text, raw, url,
  json,
}
use package.a2a_js.Errors.{Result, ok, err, request_malformed}
use package.a2a_js.Handler.Context.{concat}
use package.a2a_js.Compat.Legacy.{
  LegacyPart, legacy_text, legacy_file, legacy_data, legacy_other, LegacyFile,
}

-- `Buffer.from(b).toString('base64')` and `Buffer.from(s, 'base64')`.
pub record Base64 : Type 0 where
  pub to_base64 : List ℕ → String
  pub from_base64 : String → List ℕ

abbrev pub data_part_compat_flag : String
data_part_compat_flag = "data_part_compat"

abbrev is_true_value : Option Json → Bool
is_true_value (some (bool b)) = b
is_true_value _ = false

-- `metadata !== undefined && metadata[DATA_PART_COMPAT_FLAG] === true`.
abbrev pub is_flagged : Option Struct → Bool
is_flagged none = false
is_flagged (some m) = is_true_value (get data_part_compat_flag m)

-- `Object.keys(metadata).length > 0 ? metadata : undefined`.
abbrev pub some_if_filled : Struct → Option Struct
some_if_filled m = if is_empty m then none else some m

-- The value inside a wrapper, or the object itself if it holds no `value`.
unfoldable pub unwrap_value : Struct → Json
unwrap_value d = or_else (get "value" d) (obj (fields_of d))

-- The content and the metadata of a data part.
unfoldable pub core_data_part : Struct → Option Struct → Part
unfolding unwrap_value
core_data_part d metadata =
    if is_flagged metadata
    then record {
      content = some (json (some (unwrap_value d)));
      metadata = some_if_filled (delete data_part_compat_flag (or_else metadata []));
      filename = "";
      media_type = "";
    }
    else record {
      content = some (json (some (obj (fields_of d))));
      metadata = metadata;
      filename = "";
      media_type = "";
    }

-- The data part of a value: an object as it is, any other value in a wrapper with the flag.
unfoldable pub compat_data_part : Json → Option Struct → LegacyPart
compat_data_part (obj fs) metadata = legacy_data (struct_of fs) metadata
compat_data_part v metadata =
    legacy_data (("value", v) ∷ [])
      (some (set data_part_compat_flag (bool true) (or_else metadata [])))

abbrev pub non_empty : String → Option String
non_empty s = if truthy s then some s else none

abbrev unrepresentable_text : String
unrepresentable_text =
    "Cannot translate v1 data part to v0.3: value is neither a plain object nor a wrap-eligible primitive / array / null (e.g., Symbol, function, bigint, undefined, Buffer). Primitives, arrays, and null are wrapped as { value: ... } with data_part_compat=true; all other non-plain-object values are rejected."

module _ (b64 : Base64) where
  open b64 use {to_base64, from_base64}

  unfoldable pub core_file_part : LegacyFile → Option Struct → Result Part
  core_file_part file metadata = elim file.bytes [
    | some b ↦ ok (record {
      content = some (raw (from_base64 b));
      metadata = metadata;
      filename = or_else file.name "";
      media_type = or_else file.mime_type "";
    })
    | none ↦ elim file.uri [
      | some u ↦ ok (record {
        content = some (url u);
        metadata = metadata;
        filename = or_else file.name "";
        media_type = or_else file.mime_type "";
      })
      | none ↦ err (request_malformed "Invalid file part: missing `bytes` or `uri`")
    ]
  ]

  unfoldable pub to_core_part : LegacyPart → Result Part
  unfolding core_file_part core_data_part
  to_core_part (legacy_text s metadata) =
      ok (record { content = some (text s); metadata = metadata; filename = ""; media_type = "" })
  to_core_part (legacy_file file metadata) = core_file_part file metadata
  to_core_part (legacy_data d metadata) = ok (core_data_part d metadata)
  to_core_part (legacy_other kind) =
      err (request_malformed (concat "Invalid v0.3 part kind: " kind))

  abbrev compat_part_of : Option Content → Part → Result LegacyPart
  compat_part_of none p = err (request_malformed "Invalid v1.0 part: missing content")
  compat_part_of (some (text s)) p = ok (legacy_text s p.metadata)
  compat_part_of (some (raw b)) p = ok (
      legacy_file
        (record {
          bytes = some (to_base64 b);
          uri = none;
          mime_type = non_empty p.media_type;
          name = non_empty p.filename;
        })
        p.metadata)
  compat_part_of (some (url u)) p = ok (
      legacy_file
        (record {
          bytes = none;
          uri = some u;
          mime_type = non_empty p.media_type;
          name = non_empty p.filename;
        })
        p.metadata)
  compat_part_of (some (json (some v))) p = ok (compat_data_part v p.metadata)
  compat_part_of (some (json none)) p = err (request_malformed unrepresentable_text)

  unfoldable pub to_compat_part : Part → Result LegacyPart
  unfolding compat_data_part
  to_compat_part p = compat_part_of p.content p
