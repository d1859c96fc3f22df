-- ===== src/Events/Queue.antt =====
-- `ExecutionEventQueue` of src/server/events/execution_event_queue.ts. The async generator
-- `events()` is a state machine: each pull of its consumer runs it from one `yield` to the next.
pub mod Delivery
use package.a2a_js.Prelude.{
  Bool, true, false, ◌||◌, Option, none, some, List, [], ◌∷◌, ◌++◌, if◌then◌else◌,
}
use package.a2a_js.Types.{
  AgentExecutionEvent, message_event, task_event, status_update, artifact_update, TaskStatus,
  includes_state, terminal_state_list, input_required_state_list,
}

-- `resolvePromise` is set while the consumer waits; `attached` says that the queue listens on the
-- bus.
pub record EventQueue : Type 0 where
  pub event_queue : List AgentExecutionEvent
  pub waiting : Bool
  pub stopped : Bool
  pub attached : Bool

-- The constructor, with its two subscriptions.
unfoldable pub new_queue : EventQueue
new_queue = record { event_queue = []; waiting = false; stopped = false; attached = true }

unfoldable pub handle_event : AgentExecutionEvent → EventQueue → EventQueue
handle_event e q =
    if q.stopped then q else record q { event_queue = q.event_queue ++ e ∷ []; waiting = false }

unfoldable pub stop : EventQueue → EventQueue
stop q = record q { stopped = true; waiting = false; attached = false }

abbrev ends_stream : Option TaskStatus → Bool
ends_stream none = false
ends_stream (some st) =
    includes_state terminal_state_list st.state || includes_state input_required_state_list st.state

-- The events after which the generator stops.
unfoldable pub is_final : AgentExecutionEvent → Bool
is_final (message_event m) = true
is_final (task_event t) = false
is_final (status_update u) = ends_stream u.status
is_final (artifact_update u) = false

-- Where the generator stands: at the head of its loop, behind the `yield` of an event, or ended.
pub data Point : Type 0 where
  at_loop : Point
  behind_yield : AgentExecutionEvent → Point
  ended : Point

-- What a pull gives to the consumer: an event, the end, or a promise that is not yet resolved.
pub data Pulled : Type 0 where
  yields : AgentExecutionEvent → Pulled
  finishes : Pulled
  waits : Pulled

-- The loop from its head on.
unfoldable pub loop : List AgentExecutionEvent → EventQueue → Pulled × Point × EventQueue
loop (e ∷ es) q = (yields e, behind_yield e, record q { event_queue = es })
loop [] q =
    if q.stopped then (finishes, ended, q) else (waits, at_loop, record q { waiting = true })

unfoldable pub pull : Point → EventQueue → Pulled × Point × EventQueue
unfolding loop stop is_final
pull at_loop q = loop q.event_queue q
pull (behind_yield e) q = if is_final e then (finishes, ended, stop q) else loop q.event_queue q
pull ended q = (finishes, ended, q)

-- A queue with its consumer: what was pulled so far, and what the queue took from the bus.
pub record Session : Type 0 where
  pub queue : EventQueue
  pub point : Point
  pub pulled : List AgentExecutionEvent
  pub accepted : List AgentExecutionEvent

unfoldable pub new_session : Session
unfolding new_queue
new_session = record { queue = new_queue; point = at_loop; pulled = []; accepted = [] }

-- What can happen to it: the bus publishes or finishes (as `stop()` does), or the consumer pulls.
pub data Action : Type 0 where
  publishes : AgentExecutionEvent → Action
  stops : Action
  pulls : Action

abbrev pub given : Pulled → List AgentExecutionEvent
given (yields e) = e ∷ []
given finishes = []
given waits = []

unfoldable pub act : Action → Session → Session
unfolding handle_event stop pull
act (publishes e) s = record s {
  queue = handle_event e s.queue;
  accepted = if s.queue.stopped then s.accepted else s.accepted ++ e ∷ [];
}
act stops s = record s { queue = stop s.queue }
act pulls s =
    let (p, point, q) = pull s.point s.queue in
    record s { queue = q; point = point; pulled = s.pulled ++ given p }

unfoldable pub run : List Action → Session → Session
run [] s = s
run (a ∷ as_) s = run as_ (act a s)
