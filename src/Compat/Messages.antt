-- ===== src/Compat/Messages.antt =====
-- src/compat/v0_3/translate/messages.ts and artifacts.ts.
pub mod RoundTrip
use package.a2a_js.Prelude.{
  String, Bool, true, false, not, ◌&&◌, Option, none, some, List, [], ◌∷◌, or_else, is_empty,
  truthy, if◌then◌else◌, ◌==◌,
}
use package.a2a_js.Types.{Message, Artifact}
use package.a2a_js.Errors.{Result, ok, err, ◌>>=◌, ◌>>◌, throw_if, map_result, request_malformed}
use package.a2a_js.Compat.Legacy.{LegacyPart, LegacyMessage, LegacyArtifact}
use package.a2a_js.Compat.Enums.{to_core_role, to_compat_role}
use package.a2a_js.Compat.Parts.{Base64, non_empty, to_core_part, to_compat_part}

abbrev pub non_empty_list {ℓ} : {A : Type ℓ} → List A → Option (List A)
non_empty_list xs = if is_empty xs then none else some xs

abbrev pub compat_message_of : Message → List LegacyPart → LegacyMessage
compat_message_of m parts = record {
  message_id = m.message_id;
  context_id = non_empty m.context_id;
  task_id = non_empty m.task_id;
  role = to_compat_role m.role;
  parts = parts;
  metadata = m.metadata;
  extensions = non_empty_list m.extensions;
  reference_task_ids = non_empty_list m.reference_task_ids;
}

abbrev pub compat_artifact_of : Artifact → List LegacyPart → LegacyArtifact
compat_artifact_of a parts = record {
  artifact_id = a.artifact_id;
  name = non_empty a.name;
  description = non_empty a.description;
  parts = parts;
  metadata = a.metadata;
  extensions = non_empty_list a.extensions;
}

module _ (b64 : Base64) where
  unfoldable pub to_core_message : LegacyMessage → Result Message
  to_core_message m = do
    throw_if (not (truthy m.message_id)) (request_malformed "message.messageId is required")
    throw_if (not (m.role == "user") && not (m.role == "agent"))
        (request_malformed "message.role must be \"user\" or \"agent\"")
    parts ← map_result (to_core_part b64) m.parts
    ok (record {
      message_id = m.message_id;
      context_id = or_else m.context_id "";
      task_id = or_else m.task_id "";
      role = to_core_role m.role;
      parts = parts;
      metadata = m.metadata;
      extensions = or_else m.extensions [];
      reference_task_ids = or_else m.reference_task_ids [];
    })

  unfoldable pub to_compat_message : Message → Result LegacyMessage
  to_compat_message m = do
    parts ← map_result (to_compat_part b64) m.parts
    ok (compat_message_of m parts)

  unfoldable pub to_core_artifact : LegacyArtifact → Result Artifact
  to_core_artifact a = do
    parts ← map_result (to_core_part b64) a.parts
    ok (record {
      artifact_id = a.artifact_id;
      name = or_else a.name "";
      description = or_else a.description "";
      parts = parts;
      metadata = a.metadata;
      extensions = or_else a.extensions [];
    })

  unfoldable pub to_compat_artifact : Artifact → Result LegacyArtifact
  to_compat_artifact a = do
    parts ← map_result (to_compat_part b64) a.parts
    ok (compat_artifact_of a parts)
