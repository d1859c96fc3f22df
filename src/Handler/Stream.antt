-- ===== src/Handler/Stream.antt =====
-- `_advanceStreamPattern`, and the loop of `sendMessageStream` that it guards.
use package.a2a_js.Prelude.{List, [], ◌∷◌, All, ◌≡◌, ◌↔◌, refl}
use package.a2a_js.Types.{
  Message, Task, AgentExecutionEvent, message_event, task_event, status_update, artifact_update,
}
use package.a2a_js.Errors.{Result, ok, err, ◌>>=◌, unsupported_operation}

pub data StreamPattern : Type 0 where
  undetermined message_only task_lifecycle : StreamPattern

unfoldable pub advance_stream_pattern : AgentExecutionEvent → StreamPattern → Result StreamPattern
advance_stream_pattern (message_event m) undetermined = ok message_only
advance_stream_pattern (task_event t) undetermined = ok task_lifecycle
advance_stream_pattern (status_update u) undetermined =
    err (unsupported_operation "Received statusUpdate before initial 'Message'/'Task' event.")
advance_stream_pattern (artifact_update u) undetermined =
    err (unsupported_operation "Received artifactUpdate before initial 'Message'/'Task' event.")
advance_stream_pattern (message_event m) message_only =
    err (unsupported_operation "Received message after message-only response.")
advance_stream_pattern (task_event t) message_only =
    err (unsupported_operation "Received task after message-only response.")
advance_stream_pattern (status_update u) message_only =
    err (unsupported_operation "Received statusUpdate after message-only response.")
advance_stream_pattern (artifact_update u) message_only =
    err (unsupported_operation "Received artifactUpdate after message-only response.")
advance_stream_pattern (message_event m) task_lifecycle =
    err (
      unsupported_operation "Stream ordering violation: received message in task lifecycle stream.")
advance_stream_pattern (task_event t) task_lifecycle =
    err (unsupported_operation "Stream ordering violation: received task in task lifecycle stream.")
advance_stream_pattern (status_update u) task_lifecycle = ok task_lifecycle
advance_stream_pattern (artifact_update u) task_lifecycle = ok task_lifecycle

-- The pattern through a whole stream.
unfoldable pub stream_pattern : List AgentExecutionEvent → StreamPattern → Result StreamPattern
stream_pattern [] p = ok p
stream_pattern (e ∷ es) p = do next ← advance_stream_pattern e p; stream_pattern es next

abbrev pub IsUpdate : AgentExecutionEvent → Type 0
IsUpdate (message_event m) = ⊥
IsUpdate (task_event t) = ⊥
IsUpdate (status_update u) = Unit
IsUpdate (artifact_update u) = Unit

-- The streams in order: nothing, one message alone, or a task and then updates. What the states of
-- the updates are does not matter.
pub data IsOrdered : List AgentExecutionEvent → Type 0 where
  nothing : IsOrdered []
  one_message : (m : Message) → IsOrdered (message_event m ∷ [])
  lifecycle :
      (t : Task) {es : List AgentExecutionEvent} → All IsUpdate es → IsOrdered (task_event t ∷ es)

-- The streams that lead from the start to a pattern.
abbrev pub Shows : StreamPattern → List AgentExecutionEvent → Type 0
Shows undetermined es = es ≡ []
Shows message_only es = (m : Message) × (es ≡ message_event m ∷ [])
Shows task_lifecycle es =
    (t : Task) × (us : List AgentExecutionEvent) × (es ≡ task_event t ∷ us) × All IsUpdate us

updates_of_stream_pattern :
    (q : StreamPattern) (es : List AgentExecutionEvent)
    → stream_pattern es task_lifecycle ≡ ok q
    → (q ≡ task_lifecycle) × All IsUpdate es
unfolding stream_pattern advance_stream_pattern
updates_of_stream_pattern q [] e = (cc, tt)
updates_of_stream_pattern q (message_event m ∷ es) e = cc
updates_of_stream_pattern q (task_event t ∷ es) e = cc
updates_of_stream_pattern q (status_update u ∷ es) e =
    let (end_, all_) = updates_of_stream_pattern q es e in (end_, (tt, all_))
updates_of_stream_pattern q (artifact_update u ∷ es) e =
    let (end_, all_) = updates_of_stream_pattern q es e in (end_, (tt, all_))

stream_pattern_of_updates :
    (es : List AgentExecutionEvent)
    → All IsUpdate es
    → stream_pattern es task_lifecycle ≡ ok task_lifecycle
unfolding stream_pattern advance_stream_pattern
stream_pattern_of_updates [] a = refl
stream_pattern_of_updates (message_event m ∷ es) (bad, a) = absurd bad
stream_pattern_of_updates (task_event t ∷ es) (bad, a) = absurd bad
stream_pattern_of_updates (status_update u ∷ es) (fine, a) = stream_pattern_of_updates es a
stream_pattern_of_updates (artifact_update u ∷ es) (fine, a) = stream_pattern_of_updates es a

task_lifecycle-Shows :
    (q : StreamPattern) (t : Task) (es : List AgentExecutionEvent)
    → stream_pattern es task_lifecycle ≡ ok q
    → Shows q (task_event t ∷ es)
task_lifecycle-Shows q t es e =
    let (end_, all_) = updates_of_stream_pattern q es e in rw end_ (t, es, refl, all_)

stream_pattern-Shows :
    (q : StreamPattern) (es : List AgentExecutionEvent)
    → stream_pattern es undetermined ≡ ok q
    → Shows q es
unfolding stream_pattern advance_stream_pattern
stream_pattern-Shows q [] e = let start : q ≡ undetermined = cc in rw start refl
stream_pattern-Shows q (message_event m ∷ []) e =
    let alone : q ≡ message_only = cc in rw alone (m, refl)
stream_pattern-Shows q (message_event m ∷ message_event n ∷ es) e = cc
stream_pattern-Shows q (message_event m ∷ task_event t ∷ es) e = cc
stream_pattern-Shows q (message_event m ∷ status_update u ∷ es) e = cc
stream_pattern-Shows q (message_event m ∷ artifact_update u ∷ es) e = cc
stream_pattern-Shows q (task_event t ∷ es) e = task_lifecycle-Shows q t es e
stream_pattern-Shows q (status_update u ∷ es) e = cc
stream_pattern-Shows q (artifact_update u ∷ es) e = cc

Shows-stream_pattern :
    (q : StreamPattern) (es : List AgentExecutionEvent)
    → Shows q es
    → stream_pattern es undetermined ≡ ok q
unfolding stream_pattern advance_stream_pattern
Shows-stream_pattern undetermined es e = rw e refl
Shows-stream_pattern message_only es (m, e) = rw e refl
Shows-stream_pattern task_lifecycle es (t, us, e, a) = rw e (stream_pattern_of_updates us a)

-- A stream passes the check and leaves it in a pattern exactly if it has the form of that pattern:
-- no event at all for the undetermined one, a single message for message-only, and a task behind
-- which only status and artifact updates follow for the lifecycle of a task. A stream of any other
-- form fails, and the states of the updates do not matter.
pub stream_pattern-ok_iff :
    (q : StreamPattern) (es : List AgentExecutionEvent)
    → (stream_pattern es undetermined ≡ ok q) ↔ Shows q es
stream_pattern-ok_iff q es = (stream_pattern-Shows q es, Shows-stream_pattern q es)

-- The check lets every stream in order through.
stream_pattern_of_ordered :
    (es : List AgentExecutionEvent)
    → IsOrdered es
    → (q : StreamPattern) × (stream_pattern es undetermined ≡ ok q)
stream_pattern_of_ordered _ nothing = (undetermined, Shows-stream_pattern undetermined [] refl)
stream_pattern_of_ordered _ (one_message m) =
    (message_only, Shows-stream_pattern message_only _ (m, refl))
stream_pattern_of_ordered _ (lifecycle t a) =
    (task_lifecycle, Shows-stream_pattern task_lifecycle _ (t, _, refl, a))
