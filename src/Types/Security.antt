-- ===== src/Types/Security.antt =====
-- The security schemes of src/types/pb/a2a.ts.
use package.a2a_js.Prelude.{String, Bool, Option, List, JsMap}

pub record AuthorizationCodeOauthFlow : Type 0 where
  pub authorization_url : String
  pub token_url : String
  pub refresh_url : String
  pub scopes : JsMap String
  pub pkce_required : Bool

pub record ClientCredentialsOauthFlow : Type 0 where
  pub token_url : String
  pub refresh_url : String
  pub scopes : JsMap String

pub record ImplicitOauthFlow : Type 0 where
  pub authorization_url : String
  pub refresh_url : String
  pub scopes : JsMap String

pub record PasswordOauthFlow : Type 0 where
  pub token_url : String
  pub refresh_url : String
  pub scopes : JsMap String

pub record DeviceCodeOauthFlow : Type 0 where
  pub device_authorization_url : String
  pub token_url : String
  pub refresh_url : String
  pub scopes : JsMap String

-- The oneof `flow`.
pub data OauthFlow : Type 0 where
  authorization_code : AuthorizationCodeOauthFlow → OauthFlow
  client_credentials : ClientCredentialsOauthFlow → OauthFlow
  implicit : ImplicitOauthFlow → OauthFlow
  password : PasswordOauthFlow → OauthFlow
  device_code : DeviceCodeOauthFlow → OauthFlow

pub record OauthFlows : Type 0 where
  pub flow : Option OauthFlow

pub record ApiKeySecurityScheme : Type 0 where
  pub description : String
  pub location : String
  pub name : String

pub record HttpAuthSecurityScheme : Type 0 where
  pub description : String
  pub scheme : String
  pub bearer_format : String

pub record Oauth2SecurityScheme : Type 0 where
  pub description : String
  pub flows : Option OauthFlows
  pub oauth2_metadata_url : String

pub record OpenIdConnectSecurityScheme : Type 0 where
  pub description : String
  pub open_id_connect_url : String

pub record MutualTlsSecurityScheme : Type 0 where
  pub description : String

-- The oneof `scheme`.
pub data SchemeCase : Type 0 where
  api_key : ApiKeySecurityScheme → SchemeCase
  http_auth : HttpAuthSecurityScheme → SchemeCase
  oauth2 : Oauth2SecurityScheme → SchemeCase
  open_id_connect : OpenIdConnectSecurityScheme → SchemeCase
  mtls : MutualTlsSecurityScheme → SchemeCase

pub record SecurityScheme : Type 0 where
  pub scheme : Option SchemeCase

pub record StringList : Type 0 where
  pub list : List String

pub record SecurityRequirement : Type 0 where
  pub schemes : JsMap StringList
