-- ===== src/Handler/Tasks/Cancel.antt =====
-- What `cancelTask` returns and stores.
use package.a2a_js.Prelude.{
  String, true, false, Option, none, some, List, if◌then◌else◌, ◌==◌, ◌≡◌, ◌≢◌, arith, refl,
  Bool-cases, inl, inr, eq_iff, ap, subst,
}
use package.a2a_js.Types.{
  Task, TaskState, canceled, state_eq_iff, AgentExecutionEvent, CancelTaskRequest,
}
use package.a2a_js.Context.{ServerCallContext}
use package.a2a_js.Errors.{Result, ok, err, task_not_cancelable}
use package.a2a_js.Store.Interface.{TaskStore}
use package.a2a_js.Handler.Context.{state_in, is_terminal_state, is_terminal}
use package.a2a_js.Handler.Tasks.{
  is_canceled, mark_canceled, canceled_or_error, cancel_loaded, carry_out, cancel_task,
  not_cancelable_text,
}

canceled_or_error-ok :
    (id : String) (o : Option Task) (t : Task)
    → canceled_or_error id o ≡ ok t
    → (o ≡ some t) × (is_canceled (state_in t.status) ≡ true)
canceled_or_error-ok id none t h = cc
canceled_or_error-ok id (some u) t h = ground arith

is_canceled-some : (o : Option TaskState) → is_canceled o ≡ true → o ≡ some canceled
is_canceled-some none h = cc
is_canceled-some (some st) h = ap some ((state_eq_iff st canceled).0 h)

is_canceled_of_open : (o : Option TaskState) → is_terminal_state o ≡ false → is_canceled o ≡ false
is_canceled_of_open none h = refl
is_canceled_of_open (some st) h = ground arith

module _ (ts : TaskStore) (uuid now : String) where
  open ts use {Store, save, load, load-save}

  cancel_loaded-ok :
      (bus : Option (List AgentExecutionEvent)) (id : String) (c : ServerCallContext) (s s' : Store)
      (o : Option Task) (t : Task)
      → load id c s ≡ o
      → cancel_loaded ts uuid now bus id c s o ≡ (ok t, s')
      → (load id c s' ≡ some t) × (is_canceled (state_in t.status) ≡ true)
  cancel_loaded-ok bus id c s s' none t found h = cc
  cancel_loaded-ok bus id c s s' (some u) t found h =
      elim (Bool-cases (is_canceled (state_in u.status))) [
        | inl done ↦
            let same : ◌≡◌ {A = Result Task × Store} (ok u, s) (ok t, s') =
              rw (done, cancel_loaded) at h in
            let task_eq : u ≡ t = cc in
            let store_eq : s ≡ s' = cc in rw (← task_eq, ← store_eq) (found, done)
        | inr going ↦ elim (Bool-cases (is_terminal_state (state_in u.status))) [
          | inl over ↦ let clash = rw (going, over, cancel_loaded) at h in cc
          | inr open_ ↦
              let after = carry_out ts uuid now bus u c s in
              let same : ◌≡◌ {A = Result Task × Store}
                  (canceled_or_error id (load id c after), after) (ok t, s') =
                rw (going, open_) at h in
              let checked : canceled_or_error id (load id c after) ≡ ok t = cc in
              let store_eq : after ≡ s' = cc in
              subst (λ x. (load id c x ≡ some t) × (is_canceled (state_in t.status) ≡ true))
                store_eq (canceled_or_error-ok id (load id c after) t checked)
        ]
      ]

  -- A cancellation that succeeds returns the stored task, in the state `canceled`; a second one
  -- from that store, with whatever bus, returns the same task and changes nothing.
  pub cancel_task_idempotent :
      (bus bus' : Option (List AgentExecutionEvent)) (q : CancelTaskRequest) (c : ServerCallContext)
      (s s' : Store) (t : Task)
      → cancel_task ts uuid now bus q c s ≡ (ok t, s')
      → (load q.id c s' ≡ some t)
        × (state_in t.status ≡ some canceled)
        × (cancel_task ts uuid now bus' q c s' ≡ (ok t, s'))
  unfolding cancel_task
  cancel_task_idempotent bus bus' q c s s' t h =
      let (kept, done) = cancel_loaded-ok bus q.id c s s' (load q.id c s) t refl h in
      (kept, is_canceled-some (state_in t.status) done, rw (kept, cancel_loaded) (rw done refl))

  -- Without a running execution a stored task that is not terminal and stands under its own id
  -- is cancelled: it is saved with the notice behind its history, and no other task changes.
  pub cancel_task_of_idle :
      (q : CancelTaskRequest) (c : ServerCallContext) (s : Store) (t : Task) (other : String)
      → load q.id c s ≡ some t
      → t.id ≡ q.id
      → is_terminal t ≡ false
      → let done = mark_canceled uuid now t in
        (cancel_task ts uuid now none q c s ≡ (ok done, save done c s))
        × (load other c (save done c s) ≡ (if q.id == other then some done else load other c s))
  unfolding cancel_task
  cancel_task_of_idle q c s t other found keyed open_ =
      let done = mark_canceled uuid now t in
      let after = save done c s in
      let kept : load q.id c after ≡ some done =
        ground (arith, load-save done c s q.id, eq_iff t.id q.id) in
      (
        rw (found, cancel_loaded)
            (rw (is_canceled_of_open (state_in t.status) open_, open_)
              (rw (kept, canceled_or_error) refl)),
        ground (arith, load-save done c s other, eq_iff t.id other, eq_iff q.id other),
      )

  -- Cancelling a stored task that is in a terminal state other than `canceled` is refused, and
  -- the store does not change.
  pub cancel_task_of_ended :
      (bus : Option (List AgentExecutionEvent)) (q : CancelTaskRequest) (c : ServerCallContext)
      (s : Store) (t : Task)
      → load q.id c s ≡ some t
      → is_terminal t ≡ true
      → state_in t.status ≢ some canceled
      → cancel_task ts uuid now bus q c s
        ≡ (err (task_not_cancelable (not_cancelable_text q.id)), s)
  unfolding cancel_task
  cancel_task_of_ended bus q c s t found ended other =
      elim (Bool-cases (is_canceled (state_in t.status))) [
        | inl done ↦ absurd (other (is_canceled-some (state_in t.status) done))
        | inr going ↦ rw (found, cancel_loaded) (rw (going, ended) refl)
      ]
