-- ===== src/Result/Stored.antt =====
-- What an event changes in the store.
use package.a2a_js.Prelude.{
  String, Option, none, some, List, [], ◌∷◌, if◌then◌else◌, is_some, ◌&&◌, ◌==◌, ◌≡◌, arith, refl,
  eq_iff, Bool-cases, inl, inr,
}
use mathlib.Core.Option
use package.a2a_js.Types.{
  Task, TaskArtifactUpdateEvent, AgentExecutionEvent, message_event, task_event, status_update,
  artifact_update, Artifact,
}
use package.a2a_js.Store.Interface.{TaskStore}
use package.a2a_js.Result.Merge.{apply_status, apply_artifact}
use package.a2a_js.Result.{
  ResultManager, note_persisted_task_id, save_current, load_persisted, process_task_event,
  update_stored, apply_status_update, apply_artifact_update, apply_artifact_update_of,
  process_event, process_events,
}

-- The task that an event is about; a message is about none.
abbrev pub event_task_id : AgentExecutionEvent → Option String
event_task_id (message_event m) = none
event_task_id (task_event t) = some t.id
event_task_id (status_update u) = some u.task_id
event_task_id (artifact_update u) = some u.task_id

module _ (ts : TaskStore) where
  open ts use {Store, save, load, load-save}

  -- What the manager's caller finds in the store.
  abbrev pub stored : String → ResultManager Store → Option Task
  stored id rm = load id rm.server_call_context rm.task_store

  -- The manager and its store agree: every entry of the store that the manager can load stands
  -- under its own id, and the current task is the one that is stored.
  pub record IsConsistent (rm : ResultManager Store) : Type 0 where
    pub keyed : (id : String) (t : Task) → stored id rm ≡ some t → t.id ≡ id
    pub current : (t : Task) → rm.current_task ≡ some t → stored t.id rm ≡ some t

  save_current-IsConsistent :
      (t : Task) (rm : ResultManager Store)
      → ((id : String) (u : Task) → stored id rm ≡ some u → u.id ≡ id)
      → IsConsistent (save_current ts t rm)
  unfolding save_current
  save_current-IsConsistent t rm keyed = record {
    keyed = λ id u.
        ground
          (arith, load-save t rm.server_call_context rm.task_store id, eq_iff t.id id, keyed id u);
    current = λ u.
        ground (arith, load-save t rm.server_call_context rm.task_store u.id, eq_iff t.id u.id);
  }

  noted-IsConsistent :
      (id : String) (rm : ResultManager Store)
      → IsConsistent rm
      → IsConsistent (note_persisted_task_id ts id rm)
  unfolding note_persisted_task_id
  noted-IsConsistent id rm v = record { keyed = v.keyed; current = v.current }

  load_persisted-stored :
      (id : String) (rm : ResultManager Store) (t : Task)
      → load_persisted ts id rm ≡ some t
      → stored id rm ≡ some t
  unfolding load_persisted
  load_persisted-stored id rm t e = ground arith

  update_stored-IsConsistent :
      (id : String) (change : Task → Task) (rm : ResultManager Store) (o : Option Task)
      → ((t : Task) → o ≡ some t → stored id rm ≡ some t)
      → IsConsistent rm
      → IsConsistent (update_stored ts id change o rm)
  unfolding update_stored
  update_stored-IsConsistent id change rm none e v = record { keyed = v.keyed; current = λ t h. cc }
  update_stored-IsConsistent id change rm (some t) e v = elim (Bool-cases (t.id == id)) [
    | inl same ↦ rw (same, update_stored) (save_current-IsConsistent (change t) rm v.keyed)
    | inr other ↦ absurd (ground (arith, v.keyed id t (e t refl), eq_iff t.id id))
  ]

  apply_artifact_update_of-IsConsistent :
      (o : Option Artifact) (u : TaskArtifactUpdateEvent) (rm : ResultManager Store)
      → IsConsistent rm
      → IsConsistent (apply_artifact_update_of ts o u rm)
  unfolding apply_artifact_update_of
  apply_artifact_update_of-IsConsistent none u rm v = v
  apply_artifact_update_of-IsConsistent (some a) u rm v =
      update_stored-IsConsistent u.task_id (apply_artifact u.append a) _ _
        (load_persisted-stored u.task_id rm) (noted-IsConsistent u.task_id rm v)

  -- Every event keeps the manager and its store in agreement.
  pub process_event-IsConsistent :
      (e : AgentExecutionEvent) (rm : ResultManager Store)
      → IsConsistent rm
      → IsConsistent (process_event ts e rm)
  unfolding process_event process_task_event apply_status_update apply_artifact_update
  process_event-IsConsistent (message_event m) rm v = record {
    keyed = v.keyed;
    current = v.current;
  }
  process_event-IsConsistent (task_event t) rm v =
      save_current-IsConsistent _ (note_persisted_task_id ts t.id rm)
        (noted-IsConsistent t.id rm v).keyed
  process_event-IsConsistent (status_update u) rm v =
      update_stored-IsConsistent u.task_id (apply_status u.status) _ _
        (load_persisted-stored u.task_id rm) (noted-IsConsistent u.task_id rm v)
  process_event-IsConsistent (artifact_update u) rm v =
      apply_artifact_update_of-IsConsistent u.artifact u rm v

  -- Every sequence of events keeps a manager in agreement with its store: each task that it can
  -- load stands under its own id, and its current task is the stored one.
  pub process_events-IsConsistent :
      (es : List AgentExecutionEvent) (rm : ResultManager Store)
      → IsConsistent rm
      → IsConsistent (process_events ts es rm)
  unfolding process_events
  process_events-IsConsistent [] rm v = v
  process_events-IsConsistent (e ∷ es) rm v =
      process_events-IsConsistent es (process_event ts e rm) (process_event-IsConsistent e rm v)

  -- What an update event leaves in the store, about the task of the event and about others.
  pub stored-update_stored :
      (id other : String) (change : Task → Task) (rm : ResultManager Store) (o : Option Task)
      → ((t : Task) → (change t).id ≡ t.id)
      → ((t : Task) → o ≡ some t → t.id ≡ id)
      → stored other (update_stored ts id change o rm)
        ≡ (if is_some o && id == other then Option.map change o else stored other rm)
  unfolding update_stored save_current
  stored-update_stored id other change rm none same keyed = refl
  stored-update_stored id other change rm (some t) same keyed = ground (
    arith,
    load-save (change t) rm.server_call_context rm.task_store other,
    same t,
    keyed t refl,
    eq_iff t.id id,
  )
