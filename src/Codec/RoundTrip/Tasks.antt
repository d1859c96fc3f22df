-- ===== src/Codec/RoundTrip/Tasks.antt =====
-- Tasks, artifacts and update events read from the JSON form that was written.
use package.a2a_js.Prelude.{All, ◌≡◌, refl, ◌∙◌}
use package.a2a_js.Types.{
  TaskState, unspecified, submitted, working, completed, failed, canceled, input_required, rejected,
  auth_required, unknown_state, Message, TaskStatus, Artifact, Task, TaskStatusUpdateEvent,
  TaskArtifactUpdateEvent,
}
use package.a2a_js.Codec.Fields.{JsPlatform, IsFaithful, if_set}
use package.a2a_js.Codec.Messages.{part_fns, message_fns}
use package.a2a_js.Codec.Tasks.{
  task_state_from_json, task_state_to_json, state_entry, read_state, read_status, status_entries,
  status_fns, read_artifact, artifact_entries, artifact_fns, read_task, task_entries, task_fns,
  read_status_event, status_event_entries, status_event_fns, read_artifact_event,
  artifact_event_entries, artifact_event_fns,
}
use package.a2a_js.Codec.RoundTrip.{
  ReadsBack, OnSome, from_json-to_json, read_option-option_entry, read_list-messages,
  read_struct-struct_entry, read_text-text_entry, read_option-option_text, read_flag-flag_entry,
  read_list-texts,
}
use package.a2a_js.Codec.RoundTrip.Messages.{
  IsReadable, from_json-to_json_part, from_json-to_json_message,
}

pub read_state-state_entry : (s : TaskState) → read_state (if_set (state_entry s)) ≡ s
unfolding read_state state_entry task_state_from_json task_state_to_json
read_state-state_entry unspecified = refl
read_state-state_entry submitted = refl
read_state-state_entry working = refl
read_state-state_entry completed = refl
read_state-state_entry failed = refl
read_state-state_entry canceled = refl
read_state-state_entry input_required = refl
read_state-state_entry rejected = refl
read_state-state_entry auth_required = refl
read_state-state_entry unknown_state = refl

-- Every data part has a value other than `null`.
abbrev pub HasReadableParts : Message → Type 0
HasReadableParts m = All IsReadable m.parts

abbrev pub IsReadableStatus : TaskStatus → Type 0
IsReadableStatus s = OnSome HasReadableParts s.message

abbrev pub IsReadableArtifact : Artifact → Type 0
IsReadableArtifact a = All IsReadable a.parts

abbrev pub IsReadableTask : Task → Type 0
IsReadableTask t =
    OnSome IsReadableStatus t.status
    × All IsReadableArtifact t.artifacts
    × All HasReadableParts t.history

module _ (js : JsPlatform) (faithful : IsFaithful js) where
  pub from_json-to_json_status : (s : TaskStatus) → IsReadableStatus s → ReadsBack (status_fns js) s
  unfolding read_status status_entries
  from_json-to_json_status s h =
      from_json-to_json (status_fns js) s refl
      ∙ simp
          (
            read_state-state_entry,
            read_option-option_entry (message_fns js) HasReadableParts s.message
                (from_json-to_json_message js faithful) h,
            read_option-option_text js faithful,
          )
          refl

  from_json-to_json_artifact : (a : Artifact) → IsReadableArtifact a → ReadsBack (artifact_fns js) a
  unfolding read_artifact artifact_entries
  from_json-to_json_artifact a h =
      from_json-to_json (artifact_fns js) a refl
      ∙ simp
          (
            read_text-text_entry js faithful,
            read_struct-struct_entry js,
            read_list-texts js faithful,
            read_list-messages (part_fns js) IsReadable a.parts (from_json-to_json_part js faithful)
                h,
          )
          refl

  -- A task whose data parts all have a value other than `null` is read back from its JSON form.
  pub from_json-to_json_task : (t : Task) → IsReadableTask t → ReadsBack (task_fns js) t
  unfolding read_task task_entries
  from_json-to_json_task t (s, a, h) =
      from_json-to_json (task_fns js) t refl
      ∙ simp
          (
            read_text-text_entry js faithful,
            read_struct-struct_entry js,
            read_option-option_entry (status_fns js) IsReadableStatus t.status
                from_json-to_json_status s,
            read_list-messages (artifact_fns js) IsReadableArtifact t.artifacts
                from_json-to_json_artifact a,
            read_list-messages (message_fns js) HasReadableParts t.history
                (from_json-to_json_message js faithful) h,
          )
          refl

  pub from_json-to_json_status_event :
      (e : TaskStatusUpdateEvent)
      → OnSome IsReadableStatus e.status
      → ReadsBack (status_event_fns js) e
  unfolding read_status_event status_event_entries
  from_json-to_json_status_event e h =
      from_json-to_json (status_event_fns js) e refl
      ∙ simp
          (
            read_text-text_entry js faithful,
            read_struct-struct_entry js,
            read_option-option_entry (status_fns js) IsReadableStatus e.status
                from_json-to_json_status h,
          )
          refl

  pub from_json-to_json_artifact_event :
      (e : TaskArtifactUpdateEvent)
      → OnSome IsReadableArtifact e.artifact
      → ReadsBack (artifact_event_fns js) e
  unfolding read_artifact_event artifact_event_entries
  from_json-to_json_artifact_event e h =
      from_json-to_json (artifact_event_fns js) e refl
      ∙ simp
          (
            read_text-text_entry js faithful,
            read_struct-struct_entry js,
            read_flag-flag_entry js faithful,
            read_option-option_entry (artifact_fns js) IsReadableArtifact e.artifact
                from_json-to_json_artifact h,
          )
          refl
