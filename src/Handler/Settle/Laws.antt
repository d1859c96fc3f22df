-- ===== src/Handler/Settle/Laws.antt =====
-- How an execution ends on the bus.
use package.a2a_js.Prelude.{
  String, true, Option, none, some, List, [], ◌∷◌, ◌++◌, ◌≡◌, ◌⊎◌, inl, inr, refl, any-append,
  eq_refl, Bool-cases, All, All-append, ◌==◌,
}
use package.a2a_js.Types.{
  Message, Task, TaskState, AgentExecutionEvent, interrupted_state_list, message_event, task_event,
  status_update, artifact_update,
}
use package.a2a_js.Events.Queue.{is_final}
use package.a2a_js.Result.Merge.{has_message}
use package.a2a_js.Handler.Stream.{IsOrdered, IsUpdate, lifecycle}
use package.a2a_js.Handler.Context.{RequestContext}
use package.a2a_js.Handler.Settle.{
  latest_state, latest_task, failure_events, stream_failure_events, closes_bus, error_history,
  error_task, failure_update, history_of_task,
}

latest_state-append :
    (xs ys : List AgentExecutionEvent) (last : Option TaskState)
    → latest_state (xs ++ ys) last ≡ latest_state ys (latest_state xs last)
unfolding latest_state
latest_state-append [] ys last = refl
latest_state-append (x ∷ xs) ys last = latest_state-append xs ys _

error_history-has_message :
    (task : Option Task) (user : Message)
    → has_message user.message_id (error_history task user) ≡ true
unfolding error_history
error_history-has_message task user =
    elim (Bool-cases (has_message user.message_id (history_of_task task))) [
      | inl there ↦ rw (there, error_history) there
      | inr missing ↦
          rw (missing, error_history)
            (rw
              (
                any-append (λ (m : Message). m.message_id == user.message_id) (history_of_task task)
                    (user ∷ []),
                missing,
                eq_refl,
              )
              refl)
    ]

-- Whatever a rejecting executor published before, the default configuration closes the bus
-- behind it; the failure is a task with the id of the request and the user's message in its
-- history, and then an event at which every consumer's stream ends.
pub failure_events_close :
    (uuid now : String) (rc : RequestContext) (user : Message) (s : String)
    (before : List AgentExecutionEvent)
    → (closes_bus interrupted_state_list
          (latest_state (before ++ failure_events uuid now rc user s) none)
        ≡ true)
      × ((e : AgentExecutionEvent) × (t : Task) × (failure_events uuid now rc user s
            ≡ task_event t ∷ e ∷ [])
          × (is_final e ≡ true)
          × (t.id ≡ rc.task_id)
          × (has_message user.message_id t.history ≡ true))
unfolding failure_events latest_state closes_bus is_final
failure_events_close uuid now rc user s before =
    let t = error_task uuid now rc user s in
    (
      rw (latest_state-append before (failure_events uuid now rc user s) none) refl,
      (
        status_update (failure_update t.id t.context_id t.status),
        t,
        refl,
        refl,
        refl,
        error_history-has_message rc.task user,
      ),
    )

latest_task_of_updates :
    (es : List AgentExecutionEvent) (last : Option Task)
    → All IsUpdate es
    → latest_task es last ≡ last
unfolding latest_task
latest_task_of_updates [] last h = refl
latest_task_of_updates (message_event m ∷ es) last (bad, h) = absurd bad
latest_task_of_updates (task_event t ∷ es) last (bad, h) = absurd bad
latest_task_of_updates (status_update u ∷ es) last (fine, h) = latest_task_of_updates es last h
latest_task_of_updates (artifact_update u ∷ es) last (fine, h) = latest_task_of_updates es last h

-- If an executor rejects before it publishes anything, or behind a task and updates, then what
-- it published and the failure form a stream in order, and the last event is one at which the
-- stream ends.
pub stream_failure_events-IsOrdered :
    (uuid now uuid' now' : String) (rc : RequestContext) (user : Message) (s : String)
    (es : List AgentExecutionEvent)
    → (es ≡ [])
      ⊎ ((t : Task) × (us : List AgentExecutionEvent) × (es ≡ task_event t ∷ us) × All IsUpdate us)
    → IsOrdered (es ++ stream_failure_events uuid now uuid' now' rc user s (latest_task es none))
      × ((front : List AgentExecutionEvent) × (e : AgentExecutionEvent) × (es
              ++ stream_failure_events uuid now uuid' now' rc user s (latest_task es none)
            ≡ front ++ e ∷ [])
          × (is_final e ≡ true))
unfolding stream_failure_events latest_task is_final
stream_failure_events-IsOrdered uuid now uuid' now' rc user s es (inl e) =
    rw e (lifecycle _ (tt, tt), (task_event _ ∷ [], status_update _, refl, refl))
stream_failure_events-IsOrdered uuid now uuid' now' rc user s es (inr (t, us, e, h)) =
    rw (e, latest_task_of_updates us (some t) h)
      (
        lifecycle t (All-append IsUpdate us _ h (tt, tt)),
        (task_event t ∷ us, status_update _, refl, refl),
      )
