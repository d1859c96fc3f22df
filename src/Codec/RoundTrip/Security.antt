-- ===== src/Codec/RoundTrip/Security.antt =====
-- Security schemes read from the JSON form that was written.
use package.a2a_js.Prelude.{String, Option, none, some, ◌≡◌, refl, ◌∙◌}
use package.a2a_js.Types.{
  AuthorizationCodeOauthFlow, ClientCredentialsOauthFlow, ImplicitOauthFlow, PasswordOauthFlow,
  DeviceCodeOauthFlow, OauthFlow, OauthFlows, ApiKeySecurityScheme, HttpAuthSecurityScheme,
  Oauth2SecurityScheme, OpenIdConnectSecurityScheme, MutualTlsSecurityScheme, SchemeCase,
  SecurityScheme, StringList, SecurityRequirement, authorization_code, client_credentials, implicit,
  password, device_code, api_key, http_auth, oauth2, open_id_connect, mtls,
}
use package.a2a_js.Errors.{ok}
use package.a2a_js.Codec.Fields.{
  JsPlatform, IsFaithful, if_set, first_set, to_json, from_json, case_entry,
}
use package.a2a_js.Codec.Flows.{
  read_authorization_code_flow, authorization_code_flow_entries, authorization_code_flow_fns,
  read_client_credentials_flow, client_credentials_flow_entries, client_credentials_flow_fns,
  read_implicit_flow, implicit_flow_entries, implicit_flow_fns, read_password_flow,
  password_flow_entries, password_flow_fns, read_device_code_flow, device_code_flow_entries,
  device_code_flow_fns, read_flows_case, read_flows, flows_case, flows_entries, flows_fns,
}
use package.a2a_js.Codec.Security.{
  read_api_key_scheme, api_key_scheme_entries, api_key_scheme_fns, read_http_auth_scheme,
  http_auth_scheme_entries, http_auth_scheme_fns, read_oauth2_scheme, oauth2_scheme_entries,
  oauth2_scheme_fns, read_open_id_scheme, open_id_scheme_entries, open_id_scheme_fns,
  read_mtls_scheme, mtls_scheme_entries, mtls_scheme_fns, read_string_list, string_list_entries,
  string_list_fns, string_list_from_json, read_requirement, requirement_entries, requirement_fns,
  read_scheme_case, read_scheme, scheme_case, scheme_entries, scheme_fns,
}
use package.a2a_js.Codec.RoundTrip.{
  ReadsBack, from_json-to_json, read_option-any, read_map-map_entry, values-All, read_map-texts,
  read_text-text_entry, read_flag-flag_entry, read_list-texts,
}

module _ (js : JsPlatform) (faithful : IsFaithful js) where
  from_json-to_json_authorization_code_flow :
      (x : AuthorizationCodeOauthFlow) → ReadsBack (authorization_code_flow_fns js) x
  unfolding read_authorization_code_flow authorization_code_flow_entries
  from_json-to_json_authorization_code_flow x =
      from_json-to_json (authorization_code_flow_fns js) x refl
      ∙ simp
          (
            read_text-text_entry js faithful,
            read_map-texts js faithful,
            read_flag-flag_entry js faithful,
          )
          refl

  from_json-to_json_client_credentials_flow :
      (x : ClientCredentialsOauthFlow) → ReadsBack (client_credentials_flow_fns js) x
  unfolding read_client_credentials_flow client_credentials_flow_entries
  from_json-to_json_client_credentials_flow x =
      from_json-to_json (client_credentials_flow_fns js) x refl
      ∙ simp (read_text-text_entry js faithful, read_map-texts js faithful) refl

  from_json-to_json_implicit_flow : (x : ImplicitOauthFlow) → ReadsBack (implicit_flow_fns js) x
  unfolding read_implicit_flow implicit_flow_entries
  from_json-to_json_implicit_flow x =
      from_json-to_json (implicit_flow_fns js) x refl
      ∙ simp (read_text-text_entry js faithful, read_map-texts js faithful) refl

  from_json-to_json_password_flow : (x : PasswordOauthFlow) → ReadsBack (password_flow_fns js) x
  unfolding read_password_flow password_flow_entries
  from_json-to_json_password_flow x =
      from_json-to_json (password_flow_fns js) x refl
      ∙ simp (read_text-text_entry js faithful, read_map-texts js faithful) refl

  from_json-to_json_device_code_flow :
      (x : DeviceCodeOauthFlow) → ReadsBack (device_code_flow_fns js) x
  unfolding read_device_code_flow device_code_flow_entries
  from_json-to_json_device_code_flow x =
      from_json-to_json (device_code_flow_fns js) x refl
      ∙ simp (read_text-text_entry js faithful, read_map-texts js faithful) refl

  read_flows_case-flows_case :
      (c : Option OauthFlow)
      → let at = λ (k : String). if_set (case_entry k (flows_case js c)) in
        read_flows_case js
          (first_set (at "authorizationCode") none)
          (first_set (at "clientCredentials") none)
          (at "implicit")
          (at "password")
          (first_set (at "deviceCode") none)
        ≡ ok c
  unfolding read_flows_case flows_case case_entry to_json
  read_flows_case-flows_case none = refl
  read_flows_case-flows_case (some (authorization_code x)) =
      rw (from_json-to_json_authorization_code_flow x) refl
  read_flows_case-flows_case (some (client_credentials x)) =
      rw (from_json-to_json_client_credentials_flow x) refl
  read_flows_case-flows_case (some (implicit x)) = rw (from_json-to_json_implicit_flow x) refl
  read_flows_case-flows_case (some (password x)) = rw (from_json-to_json_password_flow x) refl
  read_flows_case-flows_case (some (device_code x)) = rw (from_json-to_json_device_code_flow x) refl

  from_json-to_json_flows : (x : OauthFlows) → ReadsBack (flows_fns js) x
  unfolding read_flows flows_entries
  from_json-to_json_flows x =
      from_json-to_json (flows_fns js) x refl ∙ simp (read_flows_case-flows_case x.flow) refl

  from_json-to_json_api_key_scheme :
      (x : ApiKeySecurityScheme) → ReadsBack (api_key_scheme_fns js) x
  unfolding read_api_key_scheme api_key_scheme_entries
  from_json-to_json_api_key_scheme x =
      from_json-to_json (api_key_scheme_fns js) x refl
      ∙ simp (read_text-text_entry js faithful) refl

  from_json-to_json_http_auth_scheme :
      (x : HttpAuthSecurityScheme) → ReadsBack (http_auth_scheme_fns js) x
  unfolding read_http_auth_scheme http_auth_scheme_entries
  from_json-to_json_http_auth_scheme x =
      from_json-to_json (http_auth_scheme_fns js) x refl
      ∙ simp (read_text-text_entry js faithful) refl

  from_json-to_json_oauth2_scheme : (x : Oauth2SecurityScheme) → ReadsBack (oauth2_scheme_fns js) x
  unfolding read_oauth2_scheme oauth2_scheme_entries
  from_json-to_json_oauth2_scheme x =
      from_json-to_json (oauth2_scheme_fns js) x refl
      ∙ simp
          (
            read_text-text_entry js faithful,
            read_option-any (flows_fns js) x.flows from_json-to_json_flows,
          )
          refl

  from_json-to_json_open_id_scheme :
      (x : OpenIdConnectSecurityScheme) → ReadsBack (open_id_scheme_fns js) x
  unfolding read_open_id_scheme open_id_scheme_entries
  from_json-to_json_open_id_scheme x =
      from_json-to_json (open_id_scheme_fns js) x refl
      ∙ simp (read_text-text_entry js faithful) refl

  from_json-to_json_mtls_scheme : (x : MutualTlsSecurityScheme) → ReadsBack (mtls_scheme_fns js) x
  unfolding read_mtls_scheme mtls_scheme_entries
  from_json-to_json_mtls_scheme x =
      from_json-to_json (mtls_scheme_fns js) x refl ∙ simp (read_text-text_entry js faithful) refl

  read_scheme_case-scheme_case :
      (c : Option SchemeCase)
      → let at = λ (k : String). if_set (case_entry k (scheme_case js c)) in
        read_scheme_case js
          (first_set (at "apiKeySecurityScheme") none)
          (first_set (at "httpAuthSecurityScheme") none)
          (first_set (at "oauth2SecurityScheme") none)
          (first_set (at "openIdConnectSecurityScheme") none)
          (first_set (at "mtlsSecurityScheme") none)
        ≡ ok c
  unfolding read_scheme_case scheme_case case_entry to_json
  read_scheme_case-scheme_case none = refl
  read_scheme_case-scheme_case (some (api_key x)) = rw (from_json-to_json_api_key_scheme x) refl
  read_scheme_case-scheme_case (some (http_auth x)) = rw (from_json-to_json_http_auth_scheme x) refl
  read_scheme_case-scheme_case (some (oauth2 x)) = rw (from_json-to_json_oauth2_scheme x) refl
  read_scheme_case-scheme_case (some (open_id_connect x)) =
      rw (from_json-to_json_open_id_scheme x) refl
  read_scheme_case-scheme_case (some (mtls x)) = rw (from_json-to_json_mtls_scheme x) refl

  pub from_json-to_json_scheme : (x : SecurityScheme) → ReadsBack (scheme_fns js) x
  unfolding read_scheme scheme_entries
  from_json-to_json_scheme x =
      from_json-to_json (scheme_fns js) x refl ∙ simp (read_scheme_case-scheme_case x.scheme) refl

  from_json-to_json_string_list : (x : StringList) → ReadsBack (string_list_fns js) x
  unfolding read_string_list string_list_entries
  from_json-to_json_string_list x =
      from_json-to_json (string_list_fns js) x refl ∙ simp (read_list-texts js faithful) refl

  string_list_from_json-to_json :
      (x : StringList) → string_list_from_json js (to_json (string_list_fns js) x) ≡ ok x
  unfolding string_list_from_json to_json
  string_list_from_json-to_json x = unfold from_json to_json in from_json-to_json_string_list x

  pub from_json-to_json_requirement : (x : SecurityRequirement) → ReadsBack (requirement_fns js) x
  unfolding read_requirement requirement_entries
  from_json-to_json_requirement x =
      from_json-to_json (requirement_fns js) x refl
      ∙ simp
          (read_map-map_entry js (string_list_from_json js) (to_json (string_list_fns js)) x.schemes
            (values-All (λ y. string_list_from_json js (to_json (string_list_fns js) y) ≡ ok y)
              x.schemes string_list_from_json-to_json))
          refl
