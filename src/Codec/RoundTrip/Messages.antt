-- ===== src/Codec/RoundTrip/Messages.antt =====
-- Parts and messages read from the JSON form that was written.
use package.a2a_js.Prelude.{String, Bool, true, false, Option, none, some, All, ◌≡◌, refl, ◌∙◌}
use package.a2a_js.Types.{
  null, bool, num, str, arr, obj, Role, role_unspecified, role_user, role_agent, unrecognized, Part,
  Content, text, raw, url, json, Message,
}
use package.a2a_js.Errors.{ok}
use package.a2a_js.Codec.Fields.{JsPlatform, IsFaithful, if_set, case_entry, to_json, from_json}
use package.a2a_js.Codec.Messages.{
  role_from_json, role_to_json, role_entry, read_role, read_content, read_part, content_case,
  part_entries, part_fns, read_message, message_entries, message_fns,
}
use package.a2a_js.Codec.RoundTrip.{
  from_json-to_json, ReadsBack, read_list-messages, read_struct-struct_entry, read_text-text_entry,
  read_list-texts,
}

read_role-role_entry : (r : Role) → read_role (if_set (role_entry r)) ≡ r
unfolding read_role role_entry role_from_json role_to_json
read_role-role_entry role_unspecified = refl
read_role-role_entry role_user = refl
read_role-role_entry role_agent = refl
read_role-role_entry unrecognized = refl

-- A data part has a value other than `null`.
abbrev has_readable_content : Option Content → Bool
has_readable_content (some (json none)) = false
has_readable_content (some (json (some null))) = false
has_readable_content _ = true

abbrev pub IsReadable : Part → Type 0
IsReadable p = has_readable_content p.content ≡ true

module _ (js : JsPlatform) (faithful : IsFaithful js) where
  open faithful use {string_lem, bytes_lem}

  read_content-content_case :
      (c : Option Content)
      → has_readable_content c ≡ true
      → let at = λ (k : String). if_set (case_entry k (content_case js c)) in
        read_content js (at "text") (at "raw") (at "url") (at "data") ≡ ok c
  unfolding read_content content_case case_entry
  read_content-content_case none h = refl
  read_content-content_case (some (text s)) h = rw (string_lem s) refl
  read_content-content_case (some (raw b)) h = rw (bytes_lem b) refl
  read_content-content_case (some (url s)) h = rw (string_lem s) refl
  read_content-content_case (some (json none)) h = cc
  read_content-content_case (some (json (some null))) h = cc
  read_content-content_case (some (json (some (bool b)))) h = refl
  read_content-content_case (some (json (some (num n)))) h = refl
  read_content-content_case (some (json (some (str s)))) h = refl
  read_content-content_case (some (json (some (arr vs)))) h = refl
  read_content-content_case (some (json (some (obj fs)))) h = refl

  null_content_lem :
      (c : Option Content)
      → c ≡ some (json (some null))
      → let at = λ (k : String). if_set (case_entry k (content_case js c)) in
        read_content js (at "text") (at "raw") (at "url") (at "data") ≡ ok none
  unfolding read_content content_case case_entry
  null_content_lem c e = rw (e, content_case) refl

  pub from_json-to_json_part : (p : Part) → IsReadable p → ReadsBack (part_fns js) p
  unfolding read_part part_entries
  from_json-to_json_part p h =
      from_json-to_json (part_fns js) p refl
      ∙ simp
          (
            read_content-content_case p.content h,
            read_text-text_entry js faithful,
            read_struct-struct_entry js,
          )
          refl

  -- A data part whose value is `null` comes back without content.
  pub null_data_is_lost :
      (p : Part)
      → p.content ≡ some (json (some null))
      → from_json (part_fns js) (to_json (part_fns js) p) ≡ ok (record p { content = none })
  unfolding read_part part_entries
  null_data_is_lost p e =
      from_json-to_json (part_fns js) p refl
      ∙ simp
          (
            null_content_lem p.content e,
            read_text-text_entry js faithful,
            read_struct-struct_entry js,
          )
          refl

  pub from_json-to_json_message :
      (m : Message) → All IsReadable m.parts → ReadsBack (message_fns js) m
  unfolding read_message message_entries
  from_json-to_json_message m h =
      from_json-to_json (message_fns js) m refl
      ∙ simp
          (
            read_text-text_entry js faithful,
            read_role-role_entry,
            read_list-messages (part_fns js) IsReadable m.parts from_json-to_json_part h,
            read_struct-struct_entry js,
            read_list-texts js faithful,
          )
          refl
