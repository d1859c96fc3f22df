-- ===== src/Tests/Queues.antt =====
-- An event queue that is fed, drained and stopped, and the order of a stream.
use package.a2a_js.Prelude.{List, [], ◌∷◌, ◌++◌, ◌≡◌, ◌↔◌, refl, none}
use package.a2a_js.Types.{AgentExecutionEvent, task_event, working, completed}
use package.a2a_js.Errors.{ok}
use package.a2a_js.Events.Queue.{
  Action, publishes, pulls, run, new_session, ended, act, pull, loop, handle_event, stop, is_final,
  new_queue,
}
use package.a2a_js.Events.Queue.Delivery.{until_final, pulled-until_final}
use package.a2a_js.Handler.Stream.{
  StreamPattern, undetermined, stream_pattern, Shows, task_lifecycle, stream_pattern-ok_iff,
}
use package.a2a_js.Result.{process_events}
use package.a2a_js.Handler.Subscribe.{stream_loop}
use package.a2a_js.Handler.Subscribe.Laws.{stream_loop-process_events, responses_of, IsEnd}
use package.a2a_js.Tests.Data.{task_store, manager, task_of, update_to, artifact_event}

-- The consumer waits first, and the executor publishes on behind the final event.
abbrev actions : List Action
actions =
    pulls
    ∷ publishes (task_event (task_of working))
    ∷ publishes (update_to completed)
    ∷ pulls
    ∷ publishes artifact_event
    ∷ pulls
    ∷ pulls
    ∷ []

pulled-until_final_example :
    (rest : List AgentExecutionEvent) × (until_final (run actions new_session).accepted
      ≡ (run actions new_session).pulled ++ rest)
pulled-until_final_example = pulled-until_final actions

ends : (run actions new_session).point ≡ ended
unfolding run act pull loop handle_event stop is_final new_session new_queue
ends = refl

abbrev stream : List AgentExecutionEvent
stream = task_event (task_of working) ∷ artifact_event ∷ update_to completed ∷ []

stream_pattern-ok_iff_example :
    (stream_pattern stream undetermined ≡ ok task_lifecycle) ↔ Shows task_lifecycle stream
stream_pattern-ok_iff_example = stream_pattern-ok_iff task_lifecycle stream

-- A second task breaks the order.
abbrev broken : List AgentExecutionEvent
broken = stream ++ task_event (task_of working) ∷ artifact_event ∷ []

stream_loop-process_events_example :
    let out = stream_loop task_store none broken undetermined manager in
    (front : List AgentExecutionEvent) × (back : List AgentExecutionEvent) × (q : StreamPattern)
    × (broken ≡ front ++ back)
    × (stream_pattern front undetermined ≡ ok q)
    × (out.manager ≡ process_events task_store front manager)
    × (out.responses ≡ responses_of task_store none front manager)
    × IsEnd q back out.failure
stream_loop-process_events_example =
    stream_loop-process_events task_store none broken undetermined manager
