-- ===== src/Codec/Flows.antt =====
-- The OAuth flows of src/types/pb/a2a.ts as JSON.
use package.a2a_js.Prelude.{String, Option, none, some, [], ◌∷◌, JsMap}
use package.a2a_js.Types.{
  Json, str, AuthorizationCodeOauthFlow, ClientCredentialsOauthFlow, ImplicitOauthFlow,
  PasswordOauthFlow, DeviceCodeOauthFlow, OauthFlow, OauthFlows, authorization_code,
  client_credentials, implicit, password, device_code,
}
use package.a2a_js.Errors.{Result, ok, ◌>>=◌}
use package.a2a_js.Codec.Fields.{
  JsPlatform, MessageFns, to_json, from_json, first_set, read_text, read_map, read_struct,
  read_flag, text_entry, map_entry, flag_entry, case_entry,
}

unfoldable pub authorization_code_flow_entries : AuthorizationCodeOauthFlow → JsMap (Option Json)
authorization_code_flow_entries x =
    ("authorizationUrl", text_entry x.authorization_url)
    ∷ ("tokenUrl", text_entry x.token_url)
    ∷ ("refreshUrl", text_entry x.refresh_url)
    ∷ ("scopes", map_entry str x.scopes)
    ∷ ("pkceRequired", flag_entry x.pkce_required)
    ∷ []

unfoldable pub client_credentials_flow_entries : ClientCredentialsOauthFlow → JsMap (Option Json)
client_credentials_flow_entries x =
    ("tokenUrl", text_entry x.token_url)
    ∷ ("refreshUrl", text_entry x.refresh_url)
    ∷ ("scopes", map_entry str x.scopes)
    ∷ []

unfoldable pub implicit_flow_entries : ImplicitOauthFlow → JsMap (Option Json)
implicit_flow_entries x =
    ("authorizationUrl", text_entry x.authorization_url)
    ∷ ("refreshUrl", text_entry x.refresh_url)
    ∷ ("scopes", map_entry str x.scopes)
    ∷ []

unfoldable pub password_flow_entries : PasswordOauthFlow → JsMap (Option Json)
password_flow_entries x =
    ("tokenUrl", text_entry x.token_url)
    ∷ ("refreshUrl", text_entry x.refresh_url)
    ∷ ("scopes", map_entry str x.scopes)
    ∷ []

unfoldable pub device_code_flow_entries : DeviceCodeOauthFlow → JsMap (Option Json)
device_code_flow_entries x =
    ("deviceAuthorizationUrl", text_entry x.device_authorization_url)
    ∷ ("tokenUrl", text_entry x.token_url)
    ∷ ("refreshUrl", text_entry x.refresh_url)
    ∷ ("scopes", map_entry str x.scopes)
    ∷ []

module _ (js : JsPlatform) where
  open js use {string_of}

  unfoldable pub read_authorization_code_flow :
      (String → Option Json) → Result AuthorizationCodeOauthFlow
  read_authorization_code_flow at = do
    authorization_url ← read_text js (at "authorizationUrl") (at "authorization_url")
    token_url ← read_text js (at "tokenUrl") (at "token_url")
    refresh_url ← read_text js (at "refreshUrl") (at "refresh_url")
    scopes ← read_map string_of (read_struct js (at "scopes")) none
    let pkce_required = read_flag js (first_set (at "pkceRequired") (at "pkce_required"))
    ok (record {
      authorization_url = authorization_url;
      token_url = token_url;
      refresh_url = refresh_url;
      scopes = scopes;
      pkce_required = pkce_required;
    })

  abbrev pub authorization_code_flow_fns : MessageFns AuthorizationCodeOauthFlow
  authorization_code_flow_fns = record {
    entries = authorization_code_flow_entries;
    read = read_authorization_code_flow;
  }

  unfoldable pub read_client_credentials_flow :
      (String → Option Json) → Result ClientCredentialsOauthFlow
  read_client_credentials_flow at = do
    token_url ← read_text js (at "tokenUrl") (at "token_url")
    refresh_url ← read_text js (at "refreshUrl") (at "refresh_url")
    scopes ← read_map string_of (read_struct js (at "scopes")) none
    ok (record { token_url = token_url; refresh_url = refresh_url; scopes = scopes })

  abbrev pub client_credentials_flow_fns : MessageFns ClientCredentialsOauthFlow
  client_credentials_flow_fns = record {
    entries = client_credentials_flow_entries;
    read = read_client_credentials_flow;
  }

  unfoldable pub read_implicit_flow : (String → Option Json) → Result ImplicitOauthFlow
  read_implicit_flow at = do
    authorization_url ← read_text js (at "authorizationUrl") (at "authorization_url")
    refresh_url ← read_text js (at "refreshUrl") (at "refresh_url")
    scopes ← read_map string_of (read_struct js (at "scopes")) none
    ok (record {
      authorization_url = authorization_url;
      refresh_url = refresh_url;
      scopes = scopes;
    })

  abbrev pub implicit_flow_fns : MessageFns ImplicitOauthFlow
  implicit_flow_fns = record { entries = implicit_flow_entries; read = read_implicit_flow }

  unfoldable pub read_password_flow : (String → Option Json) → Result PasswordOauthFlow
  read_password_flow at = do
    token_url ← read_text js (at "tokenUrl") (at "token_url")
    refresh_url ← read_text js (at "refreshUrl") (at "refresh_url")
    scopes ← read_map string_of (read_struct js (at "scopes")) none
    ok (record { token_url = token_url; refresh_url = refresh_url; scopes = scopes })

  abbrev pub password_flow_fns : MessageFns PasswordOauthFlow
  password_flow_fns = record { entries = password_flow_entries; read = read_password_flow }

  unfoldable pub read_device_code_flow : (String → Option Json) → Result DeviceCodeOauthFlow
  read_device_code_flow at = do
    device_authorization_url ←
        read_text js (at "deviceAuthorizationUrl") (at "device_authorization_url")
    token_url ← read_text js (at "tokenUrl") (at "token_url")
    refresh_url ← read_text js (at "refreshUrl") (at "refresh_url")
    scopes ← read_map string_of (read_struct js (at "scopes")) none
    ok (record {
      device_authorization_url = device_authorization_url;
      token_url = token_url;
      refresh_url = refresh_url;
      scopes = scopes;
    })

  abbrev pub device_code_flow_fns : MessageFns DeviceCodeOauthFlow
  device_code_flow_fns = record { entries = device_code_flow_entries; read = read_device_code_flow }

  unfoldable pub read_flows_case :
      Option Json
      → Option Json
      → Option Json
      → Option Json
      → Option Json
      → Result (Option OauthFlow)
  read_flows_case (some v) b c d e = do
    x ← from_json authorization_code_flow_fns v
    ok (some (authorization_code x))
  read_flows_case none (some v) c d e = do
    x ← from_json client_credentials_flow_fns v
    ok (some (client_credentials x))
  read_flows_case none none (some v) d e = do
    x ← from_json implicit_flow_fns v
    ok (some (implicit x))
  read_flows_case none none none (some v) e = do
    x ← from_json password_flow_fns v
    ok (some (password x))
  read_flows_case none none none none (some v) = do
    x ← from_json device_code_flow_fns v
    ok (some (device_code x))
  read_flows_case none none none none none = ok none

  unfoldable pub read_flows : (String → Option Json) → Result OauthFlows
  unfolding read_flows_case
  read_flows at = do
    flow ←
        read_flows_case (first_set (at "authorizationCode") (at "authorization_code"))
          (first_set (at "clientCredentials") (at "client_credentials")) (at "implicit")
          (at "password") (first_set (at "deviceCode") (at "device_code"))
    ok (record { flow = flow })

  unfoldable pub flows_case : Option OauthFlow → Option (String × Option Json)
  flows_case none = none
  flows_case (some (authorization_code x)) =
      some ("authorizationCode", some (to_json authorization_code_flow_fns x))
  flows_case (some (client_credentials x)) =
      some ("clientCredentials", some (to_json client_credentials_flow_fns x))
  flows_case (some (implicit x)) = some ("implicit", some (to_json implicit_flow_fns x))
  flows_case (some (password x)) = some ("password", some (to_json password_flow_fns x))
  flows_case (some (device_code x)) = some ("deviceCode", some (to_json device_code_flow_fns x))

  unfoldable pub flows_entries : OauthFlows → JsMap (Option Json)
  unfolding flows_case case_entry
  flows_entries x =
      let case = flows_case x.flow in
      ("authorizationCode", case_entry "authorizationCode" case)
      ∷ ("clientCredentials", case_entry "clientCredentials" case)
      ∷ ("implicit", case_entry "implicit" case)
      ∷ ("password", case_entry "password" case)
      ∷ ("deviceCode", case_entry "deviceCode" case)
      ∷ []

  abbrev pub flows_fns : MessageFns OauthFlows
  flows_fns = record { entries = flows_entries; read = read_flows }
