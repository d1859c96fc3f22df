-- ===== src/Handler/Subscribe/Laws.antt =====
-- What a stream yields and stores, and what a subscription sees.
use package.a2a_js.Prelude.{
  ℤ, Option, none, some, List, [], ◌∷◌, ◌++◌, ◌≡◌, ◌⊎◌, inl, inr, refl, ap,
}
use package.a2a_js.Types.{StreamResponse, AgentExecutionEvent}
use package.a2a_js.Errors.{A2aError, Result, ok, err}
use package.a2a_js.Store.Interface.{TaskStore}
use package.a2a_js.Result.{ResultManager, process_event, process_events}
use package.a2a_js.Handler.Stream.{StreamPattern, advance_stream_pattern, stream_pattern}
use package.a2a_js.Handler.Subscribe.{Streamed, put_first, response_to, stream_loop}

Result-cases {ℓ} :
    {A : Type ℓ} (r : Result A) → ((a : A) × (r ≡ ok a)) ⊎ ((e : A2aError) × (r ≡ err e))
Result-cases (ok a) = inl (a, refl)
Result-cases (err e) = inr (e, refl)

-- How a stream ends behind the events in front, which lead to the pattern `q`: it fails at the
-- first of the others, or none is left.
abbrev pub IsEnd : StreamPattern → List AgentExecutionEvent → Option A2aError → Type 0
IsEnd q [] failure = failure ≡ none
IsEnd q (e ∷ back) failure =
    (x : A2aError) × (advance_stream_pattern e q ≡ err x) × (failure ≡ some x)

module _ (ts : TaskStore) (n : Option ℤ) where
  open ts use {Store}

  -- The response to each event, made once that event is processed.
  abbrev pub responses_of : List AgentExecutionEvent → ResultManager Store → List StreamResponse
  responses_of [] rm = []
  responses_of (e ∷ es) rm =
      let next = process_event ts e rm in response_to ts n e next ∷ responses_of es next

  -- What is known of a stream that started from `rm` in the pattern `p`.
  abbrev IsProcessed :
      List AgentExecutionEvent → StreamPattern → ResultManager Store → Streamed ts → Type 0
  IsProcessed es p rm out =
      (front : List AgentExecutionEvent) × (back : List AgentExecutionEvent) × (q : StreamPattern)
      × (es ≡ front ++ back)
      × (stream_pattern front p ≡ ok q)
      × (out.manager ≡ process_events ts front rm)
      × (out.responses ≡ responses_of front rm)
      × IsEnd q back out.failure

  stream_loop_of_err :
      (e : AgentExecutionEvent) (es : List AgentExecutionEvent) (p : StreamPattern)
      (rm : ResultManager Store) (x : A2aError)
      → advance_stream_pattern e p ≡ err x
      → IsProcessed (e ∷ es) p rm (stream_loop ts n (e ∷ es) p rm)
  unfolding stream_loop stream_pattern process_events
  stream_loop_of_err e es p rm x h =
      rw (h, stream_loop) ([], e ∷ es, p, refl, refl, refl, refl, (x, h, refl))

  put_first-IsProcessed :
      (e : AgentExecutionEvent) (es : List AgentExecutionEvent) (p next : StreamPattern)
      (rm : ResultManager Store) (out : Streamed ts)
      → advance_stream_pattern e p ≡ ok next
      → IsProcessed es next (process_event ts e rm) out
      → IsProcessed (e ∷ es) p rm (put_first ts (response_to ts n e (process_event ts e rm)) out)
  unfolding process_events stream_pattern
  put_first-IsProcessed e es p next rm out h (front, back, q, split, passes, made, yields, end_) = (
    e ∷ front,
    back,
    q,
    ap (◌∷◌ e) split,
    rw h passes,
    made,
    ap (◌∷◌ (response_to ts n e (process_event ts e rm))) yields,
    end_,
  )

  stream_loop_step :
      (e : AgentExecutionEvent) (es : List AgentExecutionEvent) (p next : StreamPattern)
      (rm : ResultManager Store)
      → advance_stream_pattern e p ≡ ok next
      → stream_loop ts n (e ∷ es) p rm
        ≡ put_first ts
            (response_to ts n e (process_event ts e rm))
            (stream_loop ts n es next (process_event ts e rm))
  unfolding stream_loop
  stream_loop_step e es p next rm h = rw (h, stream_loop) refl

  -- A stream splits its events into those in front, which pass the check, and the others, of which
  -- the first does not. It stores exactly what the events in front make of the tasks, and yields
  -- the response to each of them, made from what is stored once that event is processed. If no
  -- event is left it ends by no error, and otherwise by the error that the check gives for the
  -- first of the others.
  pub stream_loop-process_events :
      (es : List AgentExecutionEvent) (p : StreamPattern) (rm : ResultManager Store)
      → let out = stream_loop ts n es p rm in
        (front : List AgentExecutionEvent) × (back : List AgentExecutionEvent) × (q : StreamPattern)
        × (es ≡ front ++ back)
        × (stream_pattern front p ≡ ok q)
        × (out.manager ≡ process_events ts front rm)
        × (out.responses ≡ responses_of front rm)
        × IsEnd q back out.failure
  unfolding stream_loop process_events stream_pattern
  stream_loop-process_events [] p rm = ([], [], p, refl, refl, refl, refl, refl)
  stream_loop-process_events (e ∷ es) p rm = elim (Result-cases (advance_stream_pattern e p)) [
    | inl (next, h) ↦ rw (stream_loop_step e es p next rm h) (
        put_first-IsProcessed e es p next rm _ h
          (stream_loop-process_events es next (process_event ts e rm)))
    | inr (x, h) ↦ stream_loop_of_err e es p rm x h
  ]
