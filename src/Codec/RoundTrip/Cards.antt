-- ===== src/Codec/RoundTrip/Cards.antt =====
-- Agent cards read from the JSON form that was written.
use package.a2a_js.Prelude.{refl, ◌∙◌}
use package.a2a_js.Types.{
  AgentInterface, AgentProvider, AgentExtension, AgentCapabilities, AgentSkill, AgentCardSignature,
  AgentCard,
}
use package.a2a_js.Codec.Fields.{JsPlatform, IsFaithful, to_json, from_json}
use package.a2a_js.Codec.Security.{scheme_fns, requirement_fns}
use package.a2a_js.Codec.Cards.{
  read_interface, interface_entries, interface_fns, read_provider, provider_entries, provider_fns,
  read_extension, extension_entries, extension_fns, read_capabilities, capabilities_entries,
  capabilities_fns, read_skill, skill_entries, skill_fns, read_signature, signature_entries,
  signature_fns, read_card, card_entries, card_fns,
}
use package.a2a_js.Codec.RoundTrip.{
  ReadsBack, from_json-to_json, read_option-any, read_list-any, read_map-map_entry, values-All,
  read_struct-struct_entry, read_struct-none, read_text-text_entry, read_option-option_text,
  read_flag-flag_entry, read_option_flag-option_entry, read_list-texts,
}
use package.a2a_js.Codec.RoundTrip.Security.{
  from_json-to_json_scheme, from_json-to_json_requirement,
}

module _ (js : JsPlatform) (faithful : IsFaithful js) where
  from_json-to_json_interface : (x : AgentInterface) → ReadsBack (interface_fns js) x
  unfolding read_interface interface_entries
  from_json-to_json_interface x =
      from_json-to_json (interface_fns js) x refl ∙ simp (read_text-text_entry js faithful) refl

  from_json-to_json_provider : (x : AgentProvider) → ReadsBack (provider_fns js) x
  unfolding read_provider provider_entries
  from_json-to_json_provider x =
      from_json-to_json (provider_fns js) x refl ∙ simp (read_text-text_entry js faithful) refl

  from_json-to_json_extension : (x : AgentExtension) → ReadsBack (extension_fns js) x
  unfolding read_extension extension_entries
  from_json-to_json_extension x =
      from_json-to_json (extension_fns js) x refl
      ∙ simp
          (
            read_text-text_entry js faithful,
            read_flag-flag_entry js faithful,
            read_struct-struct_entry js,
          )
          refl

  from_json-to_json_capabilities : (x : AgentCapabilities) → ReadsBack (capabilities_fns js) x
  unfolding read_capabilities capabilities_entries
  from_json-to_json_capabilities x =
      from_json-to_json (capabilities_fns js) x refl
      ∙ simp
          (
            read_option_flag-option_entry js faithful,
            read_list-any (extension_fns js) x.extensions from_json-to_json_extension,
          )
          refl

  from_json-to_json_skill : (x : AgentSkill) → ReadsBack (skill_fns js) x
  unfolding read_skill skill_entries
  from_json-to_json_skill x =
      from_json-to_json (skill_fns js) x refl
      ∙ simp
          (
            read_text-text_entry js faithful,
            read_list-texts js faithful,
            read_list-any (requirement_fns js) x.security_requirements
                (from_json-to_json_requirement js faithful),
          )
          refl

  from_json-to_json_signature : (x : AgentCardSignature) → ReadsBack (signature_fns js) x
  unfolding read_signature signature_entries
  from_json-to_json_signature x =
      from_json-to_json (signature_fns js) x refl
      ∙ simp (read_text-text_entry js faithful, read_struct-struct_entry js) refl

  -- An agent card, with all of its security schemes, skills and signatures, is read back from its
  -- JSON form.
  pub from_json-to_json_card : (x : AgentCard) → ReadsBack (card_fns js) x
  unfolding read_card card_entries
  from_json-to_json_card x =
      from_json-to_json (card_fns js) x refl
      ∙ simp
          (
            read_text-text_entry js faithful,
            read_list-any (interface_fns js) x.supported_interfaces from_json-to_json_interface,
            read_option-any (provider_fns js) x.provider from_json-to_json_provider,
            read_option-option_text js faithful,
            read_option-any (capabilities_fns js) x.capabilities from_json-to_json_capabilities,
            read_struct-none js,
            read_map-map_entry js (from_json (scheme_fns js)) (to_json (scheme_fns js))
                x.security_schemes
                (values-All (ReadsBack (scheme_fns js)) x.security_schemes
                  (from_json-to_json_scheme js faithful)),
            read_list-any (requirement_fns js) x.security_requirements
                (from_json-to_json_requirement js faithful),
            read_list-texts js faithful,
            read_list-any (skill_fns js) x.skills from_json-to_json_skill,
            read_list-any (signature_fns js) x.signatures from_json-to_json_signature,
          )
          refl
