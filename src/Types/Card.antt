-- ===== src/Types/Card.antt =====
-- `AgentCard` of src/types/pb/a2a.ts and its parts.
use package.a2a_js.Prelude.{String, Bool, Option, List, JsMap}
use package.a2a_js.Types.Values.{Struct}
use package.a2a_js.Types.Security.{SecurityScheme, SecurityRequirement}

pub record AgentInterface : Type 0 where
  pub url : String
  pub protocol_binding : String
  pub tenant : String
  pub protocol_version : String

pub record AgentProvider : Type 0 where
  pub url : String
  pub organization : String

pub record AgentExtension : Type 0 where
  pub uri : String
  pub description : String
  pub required : Bool
  pub params : Option Struct

pub record AgentCapabilities : Type 0 where
  pub streaming : Option Bool
  pub push_notifications : Option Bool
  pub extensions : List AgentExtension
  pub extended_agent_card : Option Bool

pub record AgentSkill : Type 0 where
  pub id : String
  pub name : String
  pub description : String
  pub tags : List String
  pub examples : List String
  pub input_modes : List String
  pub output_modes : List String
  pub security_requirements : List SecurityRequirement

pub record AgentCardSignature : Type 0 where
  pub protected : String
  pub signature : String
  pub header : Option Struct

pub record AgentCard : Type 0 where
  pub name : String
  pub description : String
  pub supported_interfaces : List AgentInterface
  pub provider : Option AgentProvider
  pub version : String
  pub documentation_url : Option String
  pub capabilities : Option AgentCapabilities
  pub security_schemes : JsMap SecurityScheme
  pub security_requirements : List SecurityRequirement
  pub default_input_modes : List String
  pub default_output_modes : List String
  pub skills : List AgentSkill
  pub signatures : List AgentCardSignature
  pub icon_url : Option String
