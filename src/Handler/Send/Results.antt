-- ===== src/Handler/Send/Results.antt =====
-- The result of `sendMessage` against what is stored.
use package.a2a_js.Prelude.{
  or_false, ℤ, true, false, Option, none, some, List, [], ◌∷◌, ◌++◌, any, if◌then◌else◌, ◌≡◌, refl,
  ap, ◌∙◌,
}
use package.a2a_js.Types.{Message, Task, AgentExecutionEvent, GetTaskRequest}
use package.a2a_js.Errors.{ok}
use package.a2a_js.Store.Interface.{TaskStore}
use package.a2a_js.Result.{
  ResultManager, process_event, process_events, SendResult, task_result, get_final_result, final_of,
}
use package.a2a_js.Result.Stored.{IsConsistent, process_events-IsConsistent}
use package.a2a_js.Handler.History.{apply_history_length}
use package.a2a_js.Handler.Tasks.{get_task}
use package.a2a_js.Handler.Send.{
  is_auth_required, limit_result, finish_blocking, blocking_loop, blocking_result,
  non_blocking_loop, non_blocking_result, first_result,
}

final_task :
    (n : Option ℤ) (m : Option Message) (o : Option Task) (t : Task)
    → finish_blocking n (final_of m o) ≡ ok (task_result t)
    → (u : Task) × (o ≡ some u) × (t ≡ apply_history_length n u)
unfolding final_of limit_result
final_task n none none t h = cc
final_task n none (some u) t h = (u, refl, cc)
final_task n (some m) o t h = cc

id-apply_history_length : (n : Option ℤ) (t : Task) → (apply_history_length n t).id ≡ t.id
unfolding apply_history_length
id-apply_history_length n t = refl

module _ (ts : TaskStore) where
  open ts use {Store, save, load}

  -- The loop leaves the store as the events do, whatever it returns.
  blocking_loop-process_events :
      (es : List AgentExecutionEvent) (rm : ResultManager Store) (snapshot : Option Task)
      → (blocking_loop ts es rm snapshot).0 ≡ process_events ts es rm
  unfolding blocking_loop process_events
  blocking_loop-process_events [] rm snapshot = refl
  blocking_loop-process_events (e ∷ es) rm snapshot =
      blocking_loop-process_events es (process_event ts e rm) _

  current_of_result :
      (n : Option ℤ) (p : ResultManager Store × Option Task) (t : Task)
      → p.1 ≡ none
      → blocking_result ts n p ≡ ok (task_result t)
      → (u : Task) × (p.0.current_task ≡ some u) × (t ≡ apply_history_length n u)
  unfolding blocking_result get_final_result
  current_of_result n (rm, none) t e h = final_task n rm.final_message_result rm.current_task t h
  current_of_result n (rm, some s) t e h = cc

  result_of_snapshot :
      (n : Option ℤ) (p : ResultManager Store × Option Task) (t : Task)
      → p.1 ≡ some t
      → blocking_result ts n p ≡ ok (task_result (apply_history_length n t))
  unfolding blocking_result
  result_of_snapshot n (rm, none) t h = cc
  result_of_snapshot n (rm, some s) t h = cc

  blocking_loop_keeps :
      (es : List AgentExecutionEvent) (rm : ResultManager Store) (t : Task)
      → (blocking_loop ts es rm (some t)).1 ≡ some t
  unfolding blocking_loop
  blocking_loop_keeps [] rm t = refl
  blocking_loop_keeps (e ∷ es) rm t = blocking_loop_keeps es (process_event ts e rm) t

  -- When a blocking call that met no `AUTH_REQUIRED` returns a task after its events, that task
  -- is the stored one: `getTask` with the same id and history length returns the same. The
  -- manager agreed with its store before the events.
  pub get_task-blocking_result :
      (n : Option ℤ) (es : List AgentExecutionEvent) (rm : ResultManager Store) (t : Task)
      (q : GetTaskRequest)
      → IsConsistent ts rm
      → (blocking_loop ts es rm none).1 ≡ none
      → blocking_result ts n (blocking_loop ts es rm none) ≡ ok (task_result t)
      → q.id ≡ t.id
      → q.history_length ≡ n
      → let rm' = (blocking_loop ts es rm none).0 in
        get_task ts q rm'.server_call_context rm'.task_store ≡ ok t
  unfolding get_task
  get_task-blocking_result n es rm t q v no_snapshot h same_id same_length =
      let (u, current, cut) = current_of_result n (blocking_loop ts es rm none) t no_snapshot h in
      let v' : IsConsistent ts (blocking_loop ts es rm none).0 =
        rw (blocking_loop-process_events es rm none) (process_events-IsConsistent ts es rm v) in
      let ids : q.id ≡ u.id = same_id ∙ ap (λ (x : Task). x.id) cut ∙ id-apply_history_length n u in
      rw (ids, v'.current u current, same_length, cut) refl

  blocking_loop_step :
      (e : AgentExecutionEvent) (es : List AgentExecutionEvent) (rm : ResultManager Store)
      → blocking_loop ts (e ∷ es) rm none
        ≡ blocking_loop ts es
            (process_event ts e rm)
            (if is_auth_required e then (process_event ts e rm).current_task else none)
  unfolding blocking_loop
  blocking_loop_step e es rm = refl

  -- A blocking call whose first `AUTH_REQUIRED` update finds a current task returns that task as
  -- it was then, cut to the history length, whatever the execution publishes later.
  pub blocking_result_of_auth_required :
      (n : Option ℤ) (before after : List AgentExecutionEvent) (e : AgentExecutionEvent)
      (rm : ResultManager Store) (t : Task)
      → any is_auth_required before ≡ false
      → is_auth_required e ≡ true
      → (process_event ts e (process_events ts before rm)).current_task ≡ some t
      → blocking_result ts n (blocking_loop ts (before ++ e ∷ after) rm none)
        ≡ ok (task_result (apply_history_length n t))
  unfolding process_events
  blocking_result_of_auth_required n [] after e rm t quiet auth h =
      rw (blocking_loop_step e after rm, auth)
        (simp h (
          result_of_snapshot n (blocking_loop ts after (process_event ts e rm) (some t)) t
            (blocking_loop_keeps after (process_event ts e rm) t)))
  blocking_result_of_auth_required n (x ∷ xs) after e rm t quiet auth h =
      let (first, later) = or_false (is_auth_required x) (any is_auth_required xs) quiet in
      rw (blocking_loop_step x (xs ++ e ∷ after) rm, first)
        (blocking_result_of_auth_required n xs after e (process_event ts x rm) t later auth h)

  non_blocking_loop_keeps :
      (es : List AgentExecutionEvent) (rm : ResultManager Store) (r : SendResult)
      → (non_blocking_loop ts es rm (some r)).1 ≡ some r
  unfolding non_blocking_loop
  non_blocking_loop_keeps [] rm r = refl
  non_blocking_loop_keeps (e ∷ es) rm r = non_blocking_loop_keeps es (process_event ts e rm) r

  result_of_first :
      (n : Option ℤ) (p : ResultManager Store × Option SendResult) (r : SendResult)
      → p.1 ≡ some r
      → non_blocking_result ts n p ≡ ok (limit_result n r)
  unfolding non_blocking_result
  result_of_first n (rm, none) r h = cc
  result_of_first n (rm, some s) r h = cc

  non_blocking_loop_step :
      (e : AgentExecutionEvent) (es : List AgentExecutionEvent) (rm : ResultManager Store)
      → non_blocking_loop ts (e ∷ es) rm none
        ≡ non_blocking_loop ts es
            (process_event ts e rm)
            (first_result ts e (process_event ts e rm))
  unfolding non_blocking_loop
  non_blocking_loop_step e es rm = refl

  -- No event of a list resolves a non-blocking call.
  abbrev pub Unresolving : List AgentExecutionEvent → ResultManager Store → Type 0
  Unresolving [] rm = Unit
  Unresolving (e ∷ es) rm =
      (first_result ts e (process_event ts e rm) ≡ none) × Unresolving es (process_event ts e rm)

  -- If no event before resolves a non-blocking call and an event does, by its message, its task
  -- or the manager's result behind an update, the call returns that result, cut to the history
  -- length, whatever comes later.
  pub non_blocking_result_of_first :
      (n : Option ℤ) (before after : List AgentExecutionEvent) (e : AgentExecutionEvent)
      (rm : ResultManager Store) (r : SendResult)
      → Unresolving before rm
      → first_result ts e (process_event ts e (process_events ts before rm)) ≡ some r
      → non_blocking_result ts n (non_blocking_loop ts (before ++ e ∷ after) rm none)
        ≡ ok (limit_result n r)
  unfolding process_events
  non_blocking_result_of_first n [] after e rm r quiet h =
      rw (non_blocking_loop_step e after rm, h)
        (result_of_first n (non_blocking_loop ts after (process_event ts e rm) (some r)) r
          (non_blocking_loop_keeps after (process_event ts e rm) r))
  non_blocking_result_of_first n (x ∷ xs) after e rm r (first, later) h =
      rw (non_blocking_loop_step x (xs ++ e ∷ after) rm, first)
        (non_blocking_result_of_first n xs after e (process_event ts x rm) r later h)
