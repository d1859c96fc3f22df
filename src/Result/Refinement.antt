-- ===== src/Result/Refinement.antt =====
-- The specification of `ResultManager`: each stored task is the fold of the events about it.
use package.a2a_js.Prelude.{
  String, Bool, false, Option, none, some, List, [], ◌∷◌, is_some, All, if◌then◌else◌, ◌==◌, ◌&&◌,
  ◌≡◌, arith, refl, eq_iff,
}
use mathlib.Core.Option
use package.a2a_js.Types.{
  Message, Task, Artifact, TaskArtifactUpdateEvent, AgentExecutionEvent, message_event, task_event,
  status_update, artifact_update,
}
use package.a2a_js.Store.Interface.{TaskStore}
use package.a2a_js.Result.Merge.{with_latest, apply_status, merge_task, apply_artifact}
use package.a2a_js.Result.Stored.{
  stored, IsConsistent, stored-update_stored, process_event-IsConsistent,
}
use package.a2a_js.Result.{
  ResultManager, note_persisted_task_id, save_current, load_persisted, process_task_event,
  update_stored, apply_status_update, apply_artifact_update, apply_artifact_update_of,
  process_event, process_events,
}

-- Whether an event is about the task of an id.
abbrev pub is_about : String → AgentExecutionEvent → Bool
is_about id (message_event m) = false
is_about id (task_event t) = t.id == id
is_about id (status_update u) = u.task_id == id
is_about id (artifact_update u) = u.task_id == id

-- An event that names a task names it by a non-empty id.
abbrev pub IsNamed : AgentExecutionEvent → Type 0
IsNamed e = is_about "" e ≡ false

abbrev pub with_artifact : Bool → Option Artifact → Option Task → Option Task
with_artifact append none o = o
with_artifact append (some a) o = Option.map (apply_artifact append a) o

-- The task that an event makes of the stored one.
abbrev pub after_event : Option Message → AgentExecutionEvent → Option Task → Option Task
after_event latest (message_event m) o = o
after_event latest (task_event t) o = some (with_latest latest (merge_task o t))
after_event latest (status_update u) o = Option.map (apply_status u.status) o
after_event latest (artifact_update u) o = with_artifact u.append u.artifact o

-- The fold of the events about one task.
abbrev pub after_events :
    Option Message → String → List AgentExecutionEvent → Option Task → Option Task
after_events latest id [] o = o
after_events latest id (e ∷ es) o =
    after_events latest id es (if is_about id e then after_event latest e o else o)

merge_task-id : (o : Option Task) (t : Task) → (merge_task o t).id ≡ t.id
unfolding merge_task
merge_task-id none t = refl
merge_task-id (some p) t = ground arith

with_latest-id : (m : Option Message) (t : Task) → (with_latest m t).id ≡ t.id
unfolding with_latest
with_latest-id none t = refl
with_latest-id (some m) t = ground arith

module _ (ts : TaskStore) where
  open ts use {Store, save, load, load-save}

  load_persisted_of_truthy :
      (id : String) (rm : ResultManager Store)
      → (id == "") ≡ false
      → load_persisted ts id rm ≡ stored ts id rm
  unfolding load_persisted
  load_persisted_of_truthy id rm h = rw h refl

  stored_update :
      (id other : String) (change : Task → Task) (rm : ResultManager Store)
      → ((t : Task) → (change t).id ≡ t.id)
      → IsConsistent ts rm
      → (id == "") ≡ false
      → stored ts other
          (update_stored ts id change (load_persisted ts id rm) (note_persisted_task_id ts id rm))
        ≡ (if id == other then Option.map change (stored ts other rm) else stored ts other rm)
  unfolding note_persisted_task_id
  stored_update id other change rm same v named =
      rw
        (
          load_persisted_of_truthy id rm named,
          stored-update_stored ts id other change (note_persisted_task_id ts id rm)
              (stored ts id rm) same (v.keyed id),
        )
        (stored_change (stored ts id rm) refl)
    where
      stored_change :
          (o : Option Task)
          → stored ts id rm ≡ o
          → (if is_some o && id == other then Option.map change o else stored ts other rm)
            ≡ (if id == other then Option.map change (stored ts other rm) else stored ts other rm)
      stored_change none e = ground (arith, eq_iff id other)
      stored_change (some t) e = ground (arith, eq_iff id other)

  stored_task :
      (t : Task) (id : String) (rm : ResultManager Store)
      → let new = with_latest rm.latest_user_message (merge_task (stored ts t.id rm) t) in
        stored ts id (save_current ts new (note_persisted_task_id ts t.id rm)) ≡ (
          if t.id == id
          then some (with_latest rm.latest_user_message (merge_task (stored ts id rm) t))
          else stored ts id rm)
  unfolding save_current note_persisted_task_id
  stored_task t id rm =
      let merged = merge_task (stored ts t.id rm) t in
      let new = with_latest rm.latest_user_message merged in
      ground (
        arith,
        load-save new rm.server_call_context rm.task_store id,
        with_latest-id rm.latest_user_message merged,
        merge_task-id (stored ts t.id rm) t,
        eq_iff t.id id,
      )

  stored_artifact :
      (o : Option Artifact) (u : TaskArtifactUpdateEvent) (id : String) (rm : ResultManager Store)
      → IsConsistent ts rm
      → (u.task_id == "") ≡ false
      → stored ts id (apply_artifact_update_of ts o u rm)
        ≡ (if u.task_id == id then with_artifact u.append o (stored ts id rm) else stored ts id rm)
  unfolding apply_artifact_update_of
  stored_artifact none u id rm v named = ground arith
  stored_artifact (some a) u id rm v named =
      stored_update u.task_id id (apply_artifact u.append a) rm (λ t. unfold apply_artifact in refl)
        v named

  -- One event: the task that it is about becomes what `after_event` says, and no other changes.
  pub stored-process_event :
      (e : AgentExecutionEvent) (id : String) (rm : ResultManager Store)
      → IsConsistent ts rm
      → IsNamed e
      → stored ts id (process_event ts e rm) ≡ (
          if is_about id e
          then after_event rm.latest_user_message e (stored ts id rm)
          else stored ts id rm)
  unfolding process_event process_task_event apply_status_update apply_artifact_update
  stored-process_event (message_event m) id rm v named = refl
  stored-process_event (task_event t) id rm v named =
      rw (load_persisted_of_truthy t.id rm named) (stored_task t id rm)
  stored-process_event (status_update u) id rm v named =
      stored_update u.task_id id (apply_status u.status) rm (λ t. unfold apply_status in refl) v
        named
  stored-process_event (artifact_update u) id rm v named =
      stored_artifact u.artifact u id rm v named

  latest-update_stored :
      (id : String) (change : Task → Task) (o : Option Task) (rm : ResultManager Store)
      → (update_stored ts id change o (note_persisted_task_id ts id rm)).latest_user_message
        ≡ rm.latest_user_message
  unfolding update_stored note_persisted_task_id save_current
  latest-update_stored id change none rm = refl
  latest-update_stored id change (some t) rm = ground arith

  latest_artifact :
      (o : Option Artifact) (u : TaskArtifactUpdateEvent) (rm : ResultManager Store)
      → (apply_artifact_update_of ts o u rm).latest_user_message ≡ rm.latest_user_message
  unfolding apply_artifact_update_of
  latest_artifact none u rm = refl
  latest_artifact (some a) u rm = latest-update_stored u.task_id _ _ rm

  latest-process_event :
      (e : AgentExecutionEvent) (rm : ResultManager Store)
      → (process_event ts e rm).latest_user_message ≡ rm.latest_user_message
  unfolding process_event process_task_event apply_status_update apply_artifact_update
  latest-process_event (message_event m) rm = refl
  latest-process_event (task_event t) rm = refl
  latest-process_event (status_update u) rm = latest-update_stored u.task_id _ _ rm
  latest-process_event (artifact_update u) rm = latest_artifact u.artifact u rm

  -- After any sequence of events, each of which names its task by a non-empty id, the store
  -- holds for every id the fold of the events about that task over what it held before, started
  -- from a manager that agrees with its store: no event changes another task.
  pub stored-process_events :
      (es : List AgentExecutionEvent) (id : String) (rm : ResultManager Store)
      → IsConsistent ts rm
      → All IsNamed es
      → stored ts id (process_events ts es rm)
        ≡ after_events rm.latest_user_message id es (stored ts id rm)
  unfolding process_events
  stored-process_events [] id rm v named = refl
  stored-process_events (e ∷ es) id rm v (named, rest) =
      rw
        (
          stored-process_events es id (process_event ts e rm) (process_event-IsConsistent ts e rm v)
              rest,
          latest-process_event e rm,
          stored-process_event e id rm v named,
        )
        refl
