-- ===== src/Compat/Tasks/RoundTrip.antt =====
-- Which tasks and update events survive the way to version 0.3 and back.
use package.a2a_js.Prelude.{
  String, true, false, Option, none, some, truthy, All, All-imp, ◌≡◌, refl, ap, sym,
}
use package.a2a_js.Types.{
  TaskState, unspecified, unknown_state, includes_state, terminal_state_list, state_eq, TaskStatus,
  Artifact, Task, TaskStatusUpdateEvent, TaskArtifactUpdateEvent,
}
use package.a2a_js.Errors.{Result, ok, >>=-ok, map_option_result}
use package.a2a_js.Handler.Context.{state_in, is_terminal_state}
use package.a2a_js.Compat.Legacy.{LegacyTaskStatus, LegacyTaskStatusUpdateEvent}
use package.a2a_js.Compat.Enums.{
  to_core_task_state, to_compat_task_state, to_core_task_state-to_compat_task_state,
}
use package.a2a_js.Compat.Parts.{Base64}
use package.a2a_js.Compat.Parts.RoundTrip.{Survives, IsInverse}
use package.a2a_js.Compat.Messages.{
  to_core_message, to_compat_message, to_core_artifact, to_compat_artifact,
}
use package.a2a_js.Compat.Messages.RoundTrip.{
  or_else-non_empty_list, map_result-Survives, IsMessageCompat, IsArtifactCompat, message-Survives,
  artifact-Survives,
}
use package.a2a_js.Compat.Tasks.{
  is_final_state, unknown_status, filled_timestamp, compat_status_of, compat_task_of,
  compat_status_update_of, compat_artifact_update_of, to_core_task_status, to_compat_task_status,
  to_compat_status_or_unknown, to_core_task, to_compat_task, to_core_task_status_update_event,
  to_compat_task_status_update_event, to_core_task_artifact_update_event,
  to_compat_task_artifact_update_event,
}

-- What holds of a value that is there.
abbrev pub IfSome {ℓ} : {A : Type ℓ} → (A → Type 0) → Option A → Type 0
IfSome P none = Unit
IfSome P (some a) = P a

-- A value is there, and this holds of it.
abbrev pub IsSomeWith {ℓ} : {A : Type ℓ} → (A → Type 0) → Option A → Type 0
IsSomeWith P none = ⊥
IsSomeWith P (some a) = P a

abbrev pub IsStatusCompat : TaskStatus → Type 0
IsStatusCompat st =
    (state_eq st.state unknown_state ≡ false)
    × IfSome IsMessageCompat st.message
    × IfSome (λ s. truthy s ≡ true) st.timestamp

abbrev pub IsTaskCompat : Task → Type 0
IsTaskCompat t =
    IsSomeWith IsStatusCompat t.status
    × All IsMessageCompat t.history
    × All IsArtifactCompat t.artifacts

abbrev pub IsStatusUpdateCompat : TaskStatusUpdateEvent → Type 0
IsStatusUpdateCompat e = IsSomeWith IsStatusCompat e.status

abbrev pub IsArtifactUpdateCompat : TaskArtifactUpdateEvent → Type 0
IsArtifactUpdateCompat e = IsSomeWith IsArtifactCompat e.artifact

map_option_result-Survives {ℓ κ} :
    {A : Type ℓ} {B : Type κ} (f : A → Result B) (g : B → Result A) (P : A → Type 0) (o : Option A)
    → ((a : A) → P a → Survives f g a)
    → IfSome P o
    → Survives (map_option_result f) (map_option_result g) o
unfolding map_option_result
map_option_result-Survives f g P none h k = (none, refl, refl)
map_option_result-Survives f g P (some a) h k =
    let (b, there, back) = h a k in (some b, rw there refl, rw back refl)

filled_timestamp-same :
    (o : Option String) → IfSome (λ s. truthy s ≡ true) o → filled_timestamp o ≡ o
filled_timestamp-same none h = refl
filled_timestamp-same (some s) h = rw h refl

state_survives :
    (s : TaskState)
    → state_eq s unknown_state ≡ false
    → to_core_task_state (to_compat_task_state s) ≡ s
state_survives s h = rw h at (to_core_task_state-to_compat_task_state.0 s)

-- In version 0.3 a status update is final exactly if its state is terminal.
is_final_state-to_compat_task_state :
    (s : TaskState) → is_final_state (to_compat_task_state s) ≡ includes_state terminal_state_list s
unfolding to_compat_task_state
is_final_state-to_compat_task_state unspecified = refl
is_final_state-to_compat_task_state _ = refl

module _ (b64 : Base64) (inverse : IsInverse b64) where
  status-Survives :
      (st : TaskStatus)
      → IsStatusCompat st
      → Survives (to_compat_task_status b64) (to_core_task_status b64) st
  unfolding to_compat_task_status to_core_task_status
  status-Survives st (known, message, stamp) =
      let (m, there, back) =
        map_option_result-Survives (to_compat_message b64) (to_core_message b64) IsMessageCompat
          st.message (λ x h. message-Survives b64 inverse x h) message in
      (
        compat_status_of st m,
        rw there refl,
        rw (back, state_survives st.state known, filled_timestamp-same st.timestamp stamp) refl,
      )

  status_or_unknown_survives :
      (o : Option TaskStatus)
      → IsSomeWith IsStatusCompat o
      → (st : TaskStatus) × (l : LegacyTaskStatus) × (o ≡ some st)
        × (to_compat_status_or_unknown b64 o ≡ ok l)
        × (to_core_task_status b64 l ≡ ok st)
  unfolding to_compat_status_or_unknown
  status_or_unknown_survives none h = absurd h
  status_or_unknown_survives (some st) h =
      let (l, there, back) = status-Survives st h in (st, l, refl, there, back)

  pub task-Survives :
      (t : Task) → IsTaskCompat t → Survives (to_compat_task b64) (to_core_task b64) t
  unfolding to_compat_task to_core_task
  task-Survives t (status, history, artifacts) =
      let (st, l, given, there, back) = status_or_unknown_survives t.status status in
      let (ms, ms_there, ms_back) =
        map_result-Survives (to_compat_message b64) (to_core_message b64) t.history
          (All-imp IsMessageCompat _ t.history (λ m h. message-Survives b64 inverse m h) history) in
      let (as_, as_there, as_back) =
        map_result-Survives (to_compat_artifact b64) (to_core_artifact b64) t.artifacts (
          All-imp IsArtifactCompat _ t.artifacts (λ a h. artifact-Survives b64 inverse a h)
            artifacts) in
      (
        compat_task_of t l ms as_,
        rw (there, ms_there, as_there) refl,
        rw (or_else-non_empty_list as_, or_else-non_empty_list ms, back, as_back, ms_back)
            (ap (λ o. ok (record t { status = o })) (sym given)),
      )

  pub status_update-Survives :
      (e : TaskStatusUpdateEvent)
      → IsStatusUpdateCompat e
      → Survives (to_compat_task_status_update_event b64) (to_core_task_status_update_event b64) e
  unfolding to_compat_task_status_update_event to_core_task_status_update_event
  status_update-Survives e status =
      let (st, l, given, there, back) = status_or_unknown_survives e.status status in
      (
        compat_status_update_of e l,
        rw there refl,
        rw back (ap (λ o. ok (record e { status = o })) (sym given)),
      )

  artifact_update-Survives_with :
      (e : TaskArtifactUpdateEvent) (o : Option Artifact)
      → IsSomeWith IsArtifactCompat o
      → Survives
          (to_compat_task_artifact_update_event b64)
          (to_core_task_artifact_update_event b64)
          (record e { artifact = o })
  unfolding to_compat_task_artifact_update_event to_core_task_artifact_update_event
  artifact_update-Survives_with e none h = absurd h
  artifact_update-Survives_with e (some a) h =
      let (l, there, back) = artifact-Survives b64 inverse a h in
      (compat_artifact_update_of e l, rw there refl, rw back refl)

  pub artifact_update-Survives :
      (e : TaskArtifactUpdateEvent)
      → IsArtifactUpdateCompat e
      → Survives
          (to_compat_task_artifact_update_event b64)
          (to_core_task_artifact_update_event b64)
          e
  artifact_update-Survives e h = artifact_update-Survives_with e e.artifact h

module _ (b64 : Base64) where
  status_final :
      (o : Option TaskStatus) (l : LegacyTaskStatus)
      → to_compat_status_or_unknown b64 o ≡ ok l
      → is_final_state l.state ≡ is_terminal_state (state_in o)
  unfolding to_compat_status_or_unknown to_compat_task_status
  status_final none l h = let same : unknown_status ≡ l = cc in rw (← same) refl
  status_final (some st) l h =
      let (m, translated, made) =
        >>=-ok (map_option_result (to_compat_message b64) st.message) _ l h in
      let same : compat_status_of st m ≡ l = cc in
      rw (← same) (is_final_state-to_compat_task_state st.state)

  -- A status update that is translated to version 0.3 is final there exactly if its state is
  -- terminal.
  pub final-to_compat_task_status_update_event :
      (e : TaskStatusUpdateEvent) (l : LegacyTaskStatusUpdateEvent)
      → to_compat_task_status_update_event b64 e ≡ ok l
      → l.final ≡ is_terminal_state (state_in e.status)
  unfolding to_compat_task_status_update_event
  final-to_compat_task_status_update_event e l h =
      let (st, translated, made) = >>=-ok (to_compat_status_or_unknown b64 e.status) _ l h in
      let same : compat_status_update_of e st ≡ l = cc in
      rw (← same) (status_final e.status st translated)
