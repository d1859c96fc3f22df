-- ===== src/Codec/Security.antt =====
-- The security schemes of src/types/pb/a2a.ts as JSON.
use package.a2a_js.Prelude.{String, Option, none, some, [], ◌∷◌, JsMap, get}
use package.a2a_js.Types.{
  Json, str, ApiKeySecurityScheme, HttpAuthSecurityScheme, Oauth2SecurityScheme,
  OpenIdConnectSecurityScheme, MutualTlsSecurityScheme, SchemeCase, SecurityScheme, StringList,
  SecurityRequirement, api_key, http_auth, oauth2, open_id_connect, mtls,
}
use package.a2a_js.Errors.{Result, ok, ◌>>=◌}
use package.a2a_js.Codec.Fields.{
  JsPlatform, MessageFns, to_json, from_json, if_set, members, first_set, read_text, read_option,
  read_list, read_map, read_struct, text_entry, list_entry, map_entry, option_entry, case_entry,
}
use package.a2a_js.Codec.Flows.{flows_fns}

unfoldable pub api_key_scheme_entries : ApiKeySecurityScheme → JsMap (Option Json)
api_key_scheme_entries x =
    ("description", text_entry x.description)
    ∷ ("location", text_entry x.location)
    ∷ ("name", text_entry x.name)
    ∷ []

unfoldable pub http_auth_scheme_entries : HttpAuthSecurityScheme → JsMap (Option Json)
http_auth_scheme_entries x =
    ("description", text_entry x.description)
    ∷ ("scheme", text_entry x.scheme)
    ∷ ("bearerFormat", text_entry x.bearer_format)
    ∷ []

unfoldable pub open_id_scheme_entries : OpenIdConnectSecurityScheme → JsMap (Option Json)
open_id_scheme_entries x =
    ("description", text_entry x.description)
    ∷ ("openIdConnectUrl", text_entry x.open_id_connect_url)
    ∷ []

unfoldable pub mtls_scheme_entries : MutualTlsSecurityScheme → JsMap (Option Json)
mtls_scheme_entries x = ("description", text_entry x.description) ∷ []

unfoldable pub string_list_entries : StringList → JsMap (Option Json)
string_list_entries x = ("list", list_entry str x.list) ∷ []

module _ (js : JsPlatform) where
  open js use {string_of}

  unfoldable pub read_api_key_scheme : (String → Option Json) → Result ApiKeySecurityScheme
  read_api_key_scheme at = do
    description ← read_text js (at "description") none
    location ← read_text js (at "location") none
    name ← read_text js (at "name") none
    ok (record { description = description; location = location; name = name })

  abbrev pub api_key_scheme_fns : MessageFns ApiKeySecurityScheme
  api_key_scheme_fns = record { entries = api_key_scheme_entries; read = read_api_key_scheme }

  unfoldable pub read_http_auth_scheme : (String → Option Json) → Result HttpAuthSecurityScheme
  read_http_auth_scheme at = do
    description ← read_text js (at "description") none
    scheme ← read_text js (at "scheme") none
    bearer_format ← read_text js (at "bearerFormat") (at "bearer_format")
    ok (record { description = description; scheme = scheme; bearer_format = bearer_format })

  abbrev pub http_auth_scheme_fns : MessageFns HttpAuthSecurityScheme
  http_auth_scheme_fns = record { entries = http_auth_scheme_entries; read = read_http_auth_scheme }

  unfoldable pub read_oauth2_scheme : (String → Option Json) → Result Oauth2SecurityScheme
  read_oauth2_scheme at = do
    description ← read_text js (at "description") none
    flows ← read_option (from_json (flows_fns js)) (first_set (at "flows") none)
    oauth2_metadata_url ← read_text js (at "oauth2MetadataUrl") (at "oauth2_metadata_url")
    ok (record {
      description = description;
      flows = flows;
      oauth2_metadata_url = oauth2_metadata_url;
    })

  unfoldable pub oauth2_scheme_entries : Oauth2SecurityScheme → JsMap (Option Json)
  oauth2_scheme_entries x =
      ("description", text_entry x.description)
      ∷ ("flows", option_entry (to_json (flows_fns js)) x.flows)
      ∷ ("oauth2MetadataUrl", text_entry x.oauth2_metadata_url)
      ∷ []

  abbrev pub oauth2_scheme_fns : MessageFns Oauth2SecurityScheme
  oauth2_scheme_fns = record { entries = oauth2_scheme_entries; read = read_oauth2_scheme }

  unfoldable pub read_open_id_scheme : (String → Option Json) → Result OpenIdConnectSecurityScheme
  read_open_id_scheme at = do
    description ← read_text js (at "description") none
    open_id_connect_url ← read_text js (at "openIdConnectUrl") (at "open_id_connect_url")
    ok (record { description = description; open_id_connect_url = open_id_connect_url })

  abbrev pub open_id_scheme_fns : MessageFns OpenIdConnectSecurityScheme
  open_id_scheme_fns = record { entries = open_id_scheme_entries; read = read_open_id_scheme }

  unfoldable pub read_mtls_scheme : (String → Option Json) → Result MutualTlsSecurityScheme
  read_mtls_scheme at = do
    description ← read_text js (at "description") none
    ok (record { description = description })

  abbrev pub mtls_scheme_fns : MessageFns MutualTlsSecurityScheme
  mtls_scheme_fns = record { entries = mtls_scheme_entries; read = read_mtls_scheme }

  unfoldable pub read_scheme_case :
      Option Json
      → Option Json
      → Option Json
      → Option Json
      → Option Json
      → Result (Option SchemeCase)
  read_scheme_case (some v) b c d e = do x ← from_json api_key_scheme_fns v; ok (some (api_key x))
  read_scheme_case none (some v) c d e = do
    x ← from_json http_auth_scheme_fns v
    ok (some (http_auth x))
  read_scheme_case none none (some v) d e = do
    x ← from_json oauth2_scheme_fns v
    ok (some (oauth2 x))
  read_scheme_case none none none (some v) e = do
    x ← from_json open_id_scheme_fns v
    ok (some (open_id_connect x))
  read_scheme_case none none none none (some v) = do
    x ← from_json mtls_scheme_fns v
    ok (some (mtls x))
  read_scheme_case none none none none none = ok none

  unfoldable pub read_scheme : (String → Option Json) → Result SecurityScheme
  unfolding read_scheme_case
  read_scheme at = do
    scheme ←
        read_scheme_case (first_set (at "apiKeySecurityScheme") (at "api_key_security_scheme"))
          (first_set (at "httpAuthSecurityScheme") (at "http_auth_security_scheme"))
          (first_set (at "oauth2SecurityScheme") (at "oauth2_security_scheme"))
          (first_set (at "openIdConnectSecurityScheme") (at "open_id_connect_security_scheme"))
          (first_set (at "mtlsSecurityScheme") (at "mtls_security_scheme"))
    ok (record { scheme = scheme })

  unfoldable pub scheme_case : Option SchemeCase → Option (String × Option Json)
  scheme_case none = none
  scheme_case (some (api_key x)) =
      some ("apiKeySecurityScheme", some (to_json api_key_scheme_fns x))
  scheme_case (some (http_auth x)) =
      some ("httpAuthSecurityScheme", some (to_json http_auth_scheme_fns x))
  scheme_case (some (oauth2 x)) = some ("oauth2SecurityScheme", some (to_json oauth2_scheme_fns x))
  scheme_case (some (open_id_connect x)) =
      some ("openIdConnectSecurityScheme", some (to_json open_id_scheme_fns x))
  scheme_case (some (mtls x)) = some ("mtlsSecurityScheme", some (to_json mtls_scheme_fns x))

  unfoldable pub scheme_entries : SecurityScheme → JsMap (Option Json)
  unfolding scheme_case case_entry
  scheme_entries x =
      let case = scheme_case x.scheme in
      ("apiKeySecurityScheme", case_entry "apiKeySecurityScheme" case)
      ∷ ("httpAuthSecurityScheme", case_entry "httpAuthSecurityScheme" case)
      ∷ ("oauth2SecurityScheme", case_entry "oauth2SecurityScheme" case)
      ∷ ("openIdConnectSecurityScheme", case_entry "openIdConnectSecurityScheme" case)
      ∷ ("mtlsSecurityScheme", case_entry "mtlsSecurityScheme" case)
      ∷ []

  abbrev pub scheme_fns : MessageFns SecurityScheme
  scheme_fns = record { entries = scheme_entries; read = read_scheme }

  unfoldable pub read_string_list : (String → Option Json) → Result StringList
  read_string_list at = do list ← read_list string_of (at "list") none; ok (record { list = list })

  abbrev pub string_list_fns : MessageFns StringList
  string_list_fns = record { entries = string_list_entries; read = read_string_list }

  -- `StringList.fromJSON`, which reads `object?.list` only: `null` gives the empty list.
  unfoldable pub string_list_from_json : Json → Result StringList
  string_list_from_json v = read_string_list (λ k. if_set (get k (members v)))

  unfoldable pub read_requirement : (String → Option Json) → Result SecurityRequirement
  read_requirement at = do
    schemes ← read_map string_list_from_json (read_struct js (at "schemes")) none
    ok (record { schemes = schemes })

  unfoldable pub requirement_entries : SecurityRequirement → JsMap (Option Json)
  requirement_entries x = ("schemes", map_entry (to_json string_list_fns) x.schemes) ∷ []

  abbrev pub requirement_fns : MessageFns SecurityRequirement
  requirement_fns = record { entries = requirement_entries; read = read_requirement }
