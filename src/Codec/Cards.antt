-- ===== src/Codec/Cards.antt =====
-- Agent cards of src/types/pb/a2a.ts as JSON.
use package.a2a_js.Prelude.{String, Option, none, [], ◌∷◌, JsMap}
use package.a2a_js.Types.{
  Json, bool, str, AgentInterface, AgentProvider, AgentExtension, AgentCapabilities, AgentSkill,
  AgentCardSignature, AgentCard,
}
use package.a2a_js.Errors.{Result, ok, ◌>>=◌}
use package.a2a_js.Codec.Fields.{
  JsPlatform, MessageFns, to_json, from_json, first_set, read_text, read_option, read_list,
  read_map, read_struct, read_flag, read_option_flag, text_entry, struct_entry, list_entry,
  map_entry, option_entry, flag_entry,
}
use package.a2a_js.Codec.Security.{scheme_fns, requirement_fns}

unfoldable pub interface_entries : AgentInterface → JsMap (Option Json)
interface_entries x =
    ("url", text_entry x.url)
    ∷ ("protocolBinding", text_entry x.protocol_binding)
    ∷ ("tenant", text_entry x.tenant)
    ∷ ("protocolVersion", text_entry x.protocol_version)
    ∷ []

unfoldable pub provider_entries : AgentProvider → JsMap (Option Json)
provider_entries x = ("url", text_entry x.url) ∷ ("organization", text_entry x.organization) ∷ []

unfoldable pub extension_entries : AgentExtension → JsMap (Option Json)
extension_entries x =
    ("uri", text_entry x.uri)
    ∷ ("description", text_entry x.description)
    ∷ ("required", flag_entry x.required)
    ∷ ("params", struct_entry x.params)
    ∷ []

unfoldable pub signature_entries : AgentCardSignature → JsMap (Option Json)
signature_entries x =
    ("protected", text_entry x.protected)
    ∷ ("signature", text_entry x.signature)
    ∷ ("header", struct_entry x.header)
    ∷ []

module _ (js : JsPlatform) where
  open js use {string_of}

  unfoldable pub read_interface : (String → Option Json) → Result AgentInterface
  read_interface at = do
    url ← read_text js (at "url") none
    protocol_binding ← read_text js (at "protocolBinding") (at "protocol_binding")
    tenant ← read_text js (at "tenant") none
    protocol_version ← read_text js (at "protocolVersion") (at "protocol_version")
    ok (record {
      url = url;
      protocol_binding = protocol_binding;
      tenant = tenant;
      protocol_version = protocol_version;
    })

  abbrev pub interface_fns : MessageFns AgentInterface
  interface_fns = record { entries = interface_entries; read = read_interface }

  unfoldable pub read_provider : (String → Option Json) → Result AgentProvider
  read_provider at = do
    url ← read_text js (at "url") none
    organization ← read_text js (at "organization") none
    ok (record { url = url; organization = organization })

  abbrev pub provider_fns : MessageFns AgentProvider
  provider_fns = record { entries = provider_entries; read = read_provider }

  unfoldable pub read_extension : (String → Option Json) → Result AgentExtension
  read_extension at = do
    uri ← read_text js (at "uri") none
    description ← read_text js (at "description") none
    let required = read_flag js (first_set (at "required") none)
    let params = read_struct js (at "params")
    ok (record { uri = uri; description = description; required = required; params = params })

  abbrev pub extension_fns : MessageFns AgentExtension
  extension_fns = record { entries = extension_entries; read = read_extension }

  unfoldable pub read_capabilities : (String → Option Json) → Result AgentCapabilities
  read_capabilities at = do
    let streaming = read_option_flag js (first_set (at "streaming") none)
    let push_notifications =
        read_option_flag js (first_set (at "pushNotifications") (at "push_notifications"))
    extensions ← read_list (from_json extension_fns) (at "extensions") none
    let extended_agent_card =
        read_option_flag js (first_set (at "extendedAgentCard") (at "extended_agent_card"))
    ok (record {
      streaming = streaming;
      push_notifications = push_notifications;
      extensions = extensions;
      extended_agent_card = extended_agent_card;
    })

  unfoldable pub capabilities_entries : AgentCapabilities → JsMap (Option Json)
  capabilities_entries x =
      ("streaming", option_entry bool x.streaming)
      ∷ ("pushNotifications", option_entry bool x.push_notifications)
      ∷ ("extensions", list_entry (to_json extension_fns) x.extensions)
      ∷ ("extendedAgentCard", option_entry bool x.extended_agent_card)
      ∷ []

  abbrev pub capabilities_fns : MessageFns AgentCapabilities
  capabilities_fns = record { entries = capabilities_entries; read = read_capabilities }

  unfoldable pub read_skill : (String → Option Json) → Result AgentSkill
  read_skill at = do
    id ← read_text js (at "id") none
    name ← read_text js (at "name") none
    description ← read_text js (at "description") none
    tags ← read_list string_of (at "tags") none
    examples ← read_list string_of (at "examples") none
    input_modes ← read_list string_of (at "inputModes") (at "input_modes")
    output_modes ← read_list string_of (at "outputModes") (at "output_modes")
    security_requirements ←
        read_list (from_json (requirement_fns js)) (at "securityRequirements")
          (at "security_requirements")
    ok (record {
      id = id;
      name = name;
      description = description;
      tags = tags;
      examples = examples;
      input_modes = input_modes;
      output_modes = output_modes;
      security_requirements = security_requirements;
    })

  unfoldable pub skill_entries : AgentSkill → JsMap (Option Json)
  skill_entries x =
      ("id", text_entry x.id)
      ∷ ("name", text_entry x.name)
      ∷ ("description", text_entry x.description)
      ∷ ("tags", list_entry str x.tags)
      ∷ ("examples", list_entry str x.examples)
      ∷ ("inputModes", list_entry str x.input_modes)
      ∷ ("outputModes", list_entry str x.output_modes)
      ∷ ("securityRequirements", list_entry (to_json (requirement_fns js)) x.security_requirements)
      ∷ []

  abbrev pub skill_fns : MessageFns AgentSkill
  skill_fns = record { entries = skill_entries; read = read_skill }

  unfoldable pub read_signature : (String → Option Json) → Result AgentCardSignature
  read_signature at = do
    protected ← read_text js (at "protected") none
    signature ← read_text js (at "signature") none
    let header = read_struct js (at "header")
    ok (record { protected = protected; signature = signature; header = header })

  abbrev pub signature_fns : MessageFns AgentCardSignature
  signature_fns = record { entries = signature_entries; read = read_signature }

  unfoldable pub read_card : (String → Option Json) → Result AgentCard
  read_card at = do
    name ← read_text js (at "name") none
    description ← read_text js (at "description") none
    supported_interfaces ←
        read_list (from_json interface_fns) (at "supportedInterfaces") (at "supported_interfaces")
    provider ← read_option (from_json provider_fns) (first_set (at "provider") none)
    version ← read_text js (at "version") none
    documentation_url ←
        read_option string_of (first_set (at "documentationUrl") (at "documentation_url"))
    capabilities ← read_option (from_json capabilities_fns) (first_set (at "capabilities") none)
    security_schemes ←
        read_map (from_json (scheme_fns js)) (read_struct js (at "securitySchemes"))
          (read_struct js (at "security_schemes"))
    security_requirements ←
        read_list (from_json (requirement_fns js)) (at "securityRequirements")
          (at "security_requirements")
    default_input_modes ← read_list string_of (at "defaultInputModes") (at "default_input_modes")
    default_output_modes ← read_list string_of (at "defaultOutputModes") (at "default_output_modes")
    skills ← read_list (from_json skill_fns) (at "skills") none
    signatures ← read_list (from_json signature_fns) (at "signatures") none
    icon_url ← read_option string_of (first_set (at "iconUrl") (at "icon_url"))
    ok (record {
      name = name;
      description = description;
      supported_interfaces = supported_interfaces;
      provider = provider;
      version = version;
      documentation_url = documentation_url;
      capabilities = capabilities;
      security_schemes = security_schemes;
      security_requirements = security_requirements;
      default_input_modes = default_input_modes;
      default_output_modes = default_output_modes;
      skills = skills;
      signatures = signatures;
      icon_url = icon_url;
    })

  unfoldable pub card_entries : AgentCard → JsMap (Option Json)
  card_entries x =
      ("name", text_entry x.name)
      ∷ ("description", text_entry x.description)
      ∷ ("supportedInterfaces", list_entry (to_json interface_fns) x.supported_interfaces)
      ∷ ("provider", option_entry (to_json provider_fns) x.provider)
      ∷ ("version", text_entry x.version)
      ∷ ("documentationUrl", option_entry str x.documentation_url)
      ∷ ("capabilities", option_entry (to_json capabilities_fns) x.capabilities)
      ∷ ("securitySchemes", map_entry (to_json (scheme_fns js)) x.security_schemes)
      ∷ ("securityRequirements", list_entry (to_json (requirement_fns js)) x.security_requirements)
      ∷ ("defaultInputModes", list_entry str x.default_input_modes)
      ∷ ("defaultOutputModes", list_entry str x.default_output_modes)
      ∷ ("skills", list_entry (to_json skill_fns) x.skills)
      ∷ ("signatures", list_entry (to_json signature_fns) x.signatures)
      ∷ ("iconUrl", option_entry str x.icon_url)
      ∷ []

  abbrev pub card_fns : MessageFns AgentCard
  card_fns = record { entries = card_entries; read = read_card }
