-- ===== src/Result/InHistory.antt =====
-- The message of a request in the stored history of its task.
use package.a2a_js.Prelude.{
  String, Bool, true, false, Option, none, some, List, [], ◌∷◌, ◌++◌, is_empty, All, All-append,
  if◌then◌else◌, ◌==◌, ◌≡◌, refl, ap, eq_iff, eq_refl, Bool-cases, inl, inr, sym, subst,
}
use package.a2a_js.Types.{
  Message, Task, Artifact, AgentExecutionEvent, message_event, task_event, status_update,
  artifact_update,
}
use package.a2a_js.Store.Interface.{TaskStore}
use package.a2a_js.Result.Merge.{
  has_message, with_latest, add_message, apply_status, merge_task, apply_artifact, status_message,
}
use package.a2a_js.Result.History.{with_latest-has_message, add_message-has_message}
use package.a2a_js.Result.Stored.{stored, IsConsistent}
use package.a2a_js.Result.Refinement.{
  is_about, IsNamed, with_artifact, after_event, after_events, stored-process_events,
}
use package.a2a_js.Result.{ResultManager, process_events}

-- Whether a stored task has a message of an id in its history.
abbrev in_history : String → Option Task → Bool
in_history id none = false
in_history id (some t) = has_message id t.history

with_artifact-in_history :
    (id : String) (append : Bool) (a : Option Artifact) (o : Option Task)
    → in_history id o ≡ true
    → in_history id (with_artifact append a o) ≡ true
with_artifact-in_history id append none o h = h
with_artifact-in_history id append (some a) none h = h
with_artifact-in_history id append (some a) (some t) h = unfold apply_artifact in h

after_event-in_history :
    (m : Message) (e : AgentExecutionEvent) (o : Option Task)
    → in_history m.message_id o ≡ true
    → in_history m.message_id (after_event (some m) e o) ≡ true
after_event-in_history m (message_event _) o h = h
after_event-in_history m (task_event t) o h = with_latest-has_message m (merge_task o t)
after_event-in_history m (status_update u) (some t) h =
    unfold apply_status in
    add_message-has_message (status_message u.status) m.message_id t.history h
after_event-in_history m (status_update u) none h = h
after_event-in_history m (artifact_update u) o h =
    with_artifact-in_history m.message_id u.append u.artifact o h

after_events-in_history :
    (m : Message) (id : String) (es : List AgentExecutionEvent) (o : Option Task)
    → in_history m.message_id o ≡ true
    → in_history m.message_id (after_events (some m) id es o) ≡ true
after_events-in_history m id [] o h = h
after_events-in_history m id (e ∷ es) o h = after_events-in_history m id es _ step
  where
    step : in_history m.message_id (if is_about id e then after_event (some m) e o else o) ≡ true
    step = elim (Bool-cases (is_about id e)) [
      | inl yes_about ↦ rw yes_about (after_event-in_history m e o h)
      | inr not_about ↦ rw not_about h
    ]

after_task-in_history :
    (m : Message) (t : Task) (es : List AgentExecutionEvent) (latest : Option Message)
    (o : Option Task)
    → latest ≡ some m
    → in_history m.message_id (after_events latest t.id (task_event t ∷ es) o) ≡ true
after_task-in_history m t es latest o e =
    subst (λ l. in_history m.message_id (after_events l t.id (task_event t ∷ es) o) ≡ true) (sym e)
      (rw eq_refl (
        after_events-in_history m t.id es (some (with_latest (some m) (merge_task o t)))
          (with_latest-has_message m (merge_task o t))))

-- A message that has the id of `m` is `m`.
abbrev pub Agrees : Message → Message → Type 0
Agrees m x = x.message_id ≡ m.message_id → x ≡ m

abbrev pub AgreesTask : Message → Option Task → Type 0
AgreesTask m none = Unit
AgreesTask m (some t) = All (Agrees m) t.history

abbrev AgreesMessage : Message → Option Message → Type 0
AgreesMessage m none = Unit
AgreesMessage m (some x) = Agrees m x

-- No message that an event brings into a history is another one under the id of `m`.
abbrev pub AgreesEvent : Message → AgentExecutionEvent → Type 0
AgreesEvent m (message_event x) = Unit
AgreesEvent m (task_event t) = All (Agrees m) t.history
AgreesEvent m (status_update u) = AgreesMessage m (status_message u.status)
AgreesEvent m (artifact_update u) = Unit

-- The message itself stands in the history of a task that is there.
abbrev pub Stands : Message → Option Task → Type 0
Stands m none = ⊥
Stands m (some t) =
    (before : List Message) × (after : List Message) × (t.history ≡ before ++ m ∷ after)

stands_in :
    (m : Message) (ms : List Message)
    → has_message m.message_id ms ≡ true
    → All (Agrees m) ms
    → (before : List Message) × (after : List Message) × (ms ≡ before ++ m ∷ after)
stands_in m [] h k = cc
stands_in m (x ∷ ms) h (agrees, k) = elim (Bool-cases (x.message_id == m.message_id)) [
  | inl same ↦ ([], ms, ap (λ y. y ∷ ms) (agrees ((eq_iff x.message_id m.message_id).0 same)))
  | inr other ↦
      let (before, after, split) = stands_in m ms (rw other at h) k in
      (x ∷ before, after, ap (◌∷◌ x) split)
]

Stands-in_history :
    (m : Message) (o : Option Task) → in_history m.message_id o ≡ true → AgreesTask m o → Stands m o
Stands-in_history m none h k = cc
Stands-in_history m (some t) h k = stands_in m t.history h k

merge_task-Agrees :
    (m : Message) (o : Option Task) (t : Task)
    → AgreesTask m o
    → All (Agrees m) t.history
    → All (Agrees m) (merge_task o t).history
unfolding merge_task
merge_task-Agrees m none t h k = k
merge_task-Agrees m (some p) t h k = elim (Bool-cases (p.id == t.id)) [
  | inr other ↦ rw (other, merge_task) k
  | inl same ↦ elim (Bool-cases (is_empty t.history)) [
    | inl blank ↦ rw (same, blank, merge_task) h
    | inr filled ↦ rw (same, filled, merge_task) k
  ]
]

with_latest-Agrees :
    (m : Message) (t : Task)
    → All (Agrees m) t.history
    → All (Agrees m) (with_latest (some m) t).history
unfolding with_latest
with_latest-Agrees m t k = elim (Bool-cases (has_message m.message_id t.history)) [
  | inl old ↦ rw (old, with_latest) k
  | inr new ↦ rw (new, with_latest) ((λ same. refl), k)
]

add_message-Agrees :
    (m : Message) (update : Option Message) (history : List Message)
    → AgreesMessage m update
    → All (Agrees m) history
    → All (Agrees m) (add_message update history)
unfolding add_message
add_message-Agrees m none history h k = k
add_message-Agrees m (some x) history h k = elim (Bool-cases (has_message x.message_id history)) [
  | inl old ↦ rw (old, add_message) k
  | inr new ↦ rw (new, add_message) (All-append (Agrees m) history (x ∷ []) k (h, tt))
]

with_artifact-Agrees :
    (m : Message) (append : Bool) (a : Option Artifact) (o : Option Task)
    → AgreesTask m o
    → AgreesTask m (with_artifact append a o)
with_artifact-Agrees m append none o k = k
with_artifact-Agrees m append (some a) none k = k
with_artifact-Agrees m append (some a) (some t) k = unfold apply_artifact in k

after_event-Agrees :
    (m : Message) (e : AgentExecutionEvent) (o : Option Task)
    → AgreesEvent m e
    → AgreesTask m o
    → AgreesTask m (after_event (some m) e o)
after_event-Agrees m (message_event x) o h k = k
after_event-Agrees m (task_event t) o h k =
    with_latest-Agrees m (merge_task o t) (merge_task-Agrees m o t k h)
after_event-Agrees m (status_update u) none h k = k
after_event-Agrees m (status_update u) (some t) h k =
    unfold apply_status in add_message-Agrees m (status_message u.status) t.history h k
after_event-Agrees m (artifact_update u) o h k = with_artifact-Agrees m u.append u.artifact o k

after_events-Agrees :
    (m : Message) (id : String) (es : List AgentExecutionEvent) (o : Option Task)
    → All (AgreesEvent m) es
    → AgreesTask m o
    → AgreesTask m (after_events (some m) id es o)
after_events-Agrees m id [] o h k = k
after_events-Agrees m id (e ∷ es) o (agrees, h) k = after_events-Agrees m id es _ h step
  where
    step : AgreesTask m (if is_about id e then after_event (some m) e o else o)
    step = elim (Bool-cases (is_about id e)) [
      | inl yes_about ↦ rw yes_about (after_event-Agrees m e o agrees k)
      | inr not_about ↦ rw not_about k
    ]

after_task-Stands :
    (m : Message) (t : Task) (es : List AgentExecutionEvent) (latest : Option Message)
    (o : Option Task)
    → latest ≡ some m
    → All (AgreesEvent m) (task_event t ∷ es)
    → AgreesTask m o
    → Stands m (after_events latest t.id (task_event t ∷ es) o)
after_task-Stands m t es latest o e h k =
    subst (λ l. Stands m (after_events l t.id (task_event t ∷ es) o)) (sym e)
      (Stands-in_history m (after_events (some m) t.id (task_event t ∷ es) o)
        (after_task-in_history m t es (some m) o refl)
        (after_events-Agrees m t.id (task_event t ∷ es) o h k))

module _ (ts : TaskStore) where
  open ts use {Store}

  -- Once a task event has arrived, the message that the manager was given stands, as it is, in
  -- the stored history of that task, and still does after whatever events follow. The manager
  -- agrees with its store, every event names its task by a non-empty id, and neither the history
  -- that is stored for the task before nor any event holds another message under the same id.
  pub process_events-in_history :
      (m : Message) (t : Task) (es : List AgentExecutionEvent) (rm : ResultManager Store)
      → IsConsistent ts rm
      → rm.latest_user_message ≡ some m
      → All IsNamed (task_event t ∷ es)
      → AgreesTask m (stored ts t.id rm)
      → All (AgreesEvent m) (task_event t ∷ es)
      → Stands m (stored ts t.id (process_events ts (task_event t ∷ es) rm))
  process_events-in_history m t es rm v latest named before agree =
      rw (stored-process_events ts (task_event t ∷ es) t.id rm v named)
        (after_task-Stands m t es rm.latest_user_message (stored ts t.id rm) latest agree before)
