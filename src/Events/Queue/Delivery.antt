-- ===== src/Events/Queue/Delivery.antt =====
-- What the consumer of a queue receives, under every order of publishing, stopping and pulling.
use package.a2a_js.Prelude.{
  Bool, true, false, List, [], ◌∷◌, ◌++◌, append_assoc, append-nil, any, any-append, if◌then◌else◌,
  ◌≡◌, ◌⊎◌, inl, inr, arith, refl, Bool-cases, sym, subst, ◌∙◌,
}
use package.a2a_js.Types.{AgentExecutionEvent}
use package.a2a_js.Events.Queue.{
  EventQueue, handle_event, is_final, Point, at_loop, behind_yield, ended, loop, pull, Session,
  new_session, Pulled, Action, publishes, stops, pulls, given, act, run,
}

abbrev has_final : List AgentExecutionEvent → Bool
has_final = any is_final

-- The events up to the first that ends a stream, that one included.
abbrev pub until_final : List AgentExecutionEvent → List AgentExecutionEvent
until_final [] = []
until_final (e ∷ es) = if is_final e then e ∷ [] else e ∷ until_final es

until_final-append :
    (xs ys : List AgentExecutionEvent)
    → until_final (xs ++ ys) ≡ (if has_final xs then until_final xs else xs ++ until_final ys)
until_final-append [] ys = refl
until_final-append (x ∷ xs) ys = ground (arith, until_final-append xs ys)

until_final_of_none : (xs : List AgentExecutionEvent) → has_final xs ≡ false → until_final xs ≡ xs
until_final_of_none [] h = refl
until_final_of_none (x ∷ xs) h = ground (arith, until_final_of_none xs)

-- What is known of the pulled events at each point of the generator.
abbrev PointInv : Point → Session → Type 0
PointInv at_loop s = has_final s.pulled ≡ false
PointInv (behind_yield e) s =
    (before : List AgentExecutionEvent) × (s.pulled ≡ before ++ e ∷ []) × (has_final before ≡ false)
PointInv ended s =
    (s.queue.stopped ≡ true)
    × (until_final s.pulled ≡ s.pulled)
    × ((has_final s.pulled ≡ true) ⊎ (s.queue.event_queue ≡ []))

record Inv (s : Session) : Type 0 where
  nothing_lost : s.accepted ≡ s.pulled ++ s.queue.event_queue
  at_point : PointInv s.point s

new_session-Inv : Inv new_session
unfolding new_session
new_session-Inv = record { nothing_lost = refl; at_point = refl }

publish-PointInv :
    (p : Point) (s : Session) (q : EventQueue) (taken : List AgentExecutionEvent)
    → s.queue.stopped ≡ false
    → PointInv p s
    → PointInv p (record s { queue = q; accepted = taken })
publish-PointInv at_loop s q taken open_ h = h
publish-PointInv (behind_yield e) s q taken open_ h = h
publish-PointInv ended s q taken open_ h = absurd (cc)

publish_stopped :
    (e : AgentExecutionEvent) (s : Session) → s.queue.stopped ≡ true → act (publishes e) s ≡ s
unfolding act handle_event
publish_stopped e s shut = ground arith

publish-Inv : (e : AgentExecutionEvent) (s : Session) → Inv s → Inv (act (publishes e) s)
unfolding act handle_event
publish-Inv e s v = elim (Bool-cases s.queue.stopped) [
  | inl shut ↦ rw (publish_stopped e s shut) v
  | inr open_ ↦
      rw (open_, act)
        (record {
          nothing_lost = rw v.nothing_lost (append_assoc s.pulled _ _);
          at_point = publish-PointInv s.point s _ _ open_ v.at_point;
        })
]

stop-PointInv : (p : Point) (s : Session) → PointInv p s → PointInv p (act stops s)
unfolding act
stop-PointInv at_loop s h = h
stop-PointInv (behind_yield e) s h = h
stop-PointInv ended s h = (refl, h.1, h.2)

stop-Inv : (s : Session) → Inv s → Inv (act stops s)
unfolding act
stop-Inv s v = record {
  nothing_lost = v.nothing_lost;
  at_point = stop-PointInv s.point s v.at_point;
}

-- A session after the outcome of a pull.
abbrev after_pull : Session → Pulled × Point × EventQueue → Session
after_pull s (p, point, q) = record s { queue = q; point = point; pulled = s.pulled ++ given p }

loop-Inv :
    (es : List AgentExecutionEvent) (s : Session)
    → s.accepted ≡ s.pulled ++ es
    → s.queue.event_queue ≡ es
    → has_final s.pulled ≡ false
    → Inv (after_pull s (loop es s.queue))
unfolding loop
loop-Inv (e ∷ es) s kept same h = record {
  nothing_lost = kept ∙ sym (append_assoc s.pulled (e ∷ []) es);
  at_point = (s.pulled, refl, h);
}
loop-Inv [] s kept same h = elim (Bool-cases s.queue.stopped) [
  | inl shut ↦
      rw (shut, loop)
        (record {
          nothing_lost = rw (append-nil s.pulled, same) kept;
          at_point = (refl, rw (append-nil s.pulled) (until_final_of_none s.pulled h), inr same);
        })
  | inr open_ ↦
      rw (open_, loop)
        (record {
          nothing_lost = rw (append-nil s.pulled, same) kept;
          at_point = rw (append-nil s.pulled) h;
        })
]

pull-PointInv :
    (p : Point) (s : Session)
    → Inv s
    → s.point ≡ p
    → PointInv p s
    → Inv (after_pull s (pull p s.queue))
unfolding pull
pull-PointInv at_loop s v at h = loop-Inv s.queue.event_queue s v.nothing_lost refl h
pull-PointInv (behind_yield e) s v at (before, same, h) = elim (Bool-cases (is_final e)) [
  | inl last ↦
      rw (last, pull)
        (record {
          nothing_lost = rw (append-nil s.pulled) v.nothing_lost;
          at_point = (
            refl,
            rw (append-nil s.pulled, same, until_final-append before (e ∷ []), h, last) refl,
            inl (rw (append-nil s.pulled, same, any-append is_final before (e ∷ []), h, last) refl),
          );
        })
  | inr more ↦
      rw (more, pull)
        (loop-Inv s.queue.event_queue s v.nothing_lost refl
          (rw (same, any-append is_final before (e ∷ []), h, more) refl))
]
pull-PointInv ended s v at h = record {
  nothing_lost = rw (append-nil s.pulled) v.nothing_lost;
  at_point = rw (append-nil s.pulled) h;
}

pull-Inv : (s : Session) → Inv s → Inv (act pulls s)
unfolding act
pull-Inv s v = pull-PointInv s.point s v refl v.at_point

act-Inv : (a : Action) (s : Session) → Inv s → Inv (act a s)
act-Inv (publishes e) s v = publish-Inv e s v
act-Inv stops s v = stop-Inv s v
act-Inv pulls s v = pull-Inv s v

run-Inv : (as_ : List Action) (s : Session) → Inv s → Inv (run as_ s)
unfolding run
run-Inv [] s v = v
run-Inv (a ∷ as_) s v = run-Inv as_ (act a s) (act-Inv a s v)

-- What the consumer has still to receive.
abbrev left : Point → Session → List AgentExecutionEvent
left at_loop s = until_final s.queue.event_queue
left (behind_yield e) s = if is_final e then [] else until_final s.queue.event_queue
left ended s = []

Inv-left :
    (p : Point) (s : Session)
    → s.accepted ≡ s.pulled ++ s.queue.event_queue
    → PointInv p s
    → until_final s.accepted ≡ s.pulled ++ left p s
Inv-left at_loop s kept h = rw (kept, until_final-append s.pulled _, h) refl
Inv-left (behind_yield e) s kept (before, same, h) = elim (Bool-cases (is_final e)) [
  | inl last ↦
      rw
        (
          kept,
          until_final-append s.pulled s.queue.event_queue,
          same,
          any-append is_final before (e ∷ []),
          h,
          last,
          until_final-append before (e ∷ []),
          h,
          last,
        )
        (sym (append-nil _))
  | inr more ↦
      rw
        (
          kept,
          until_final-append s.pulled s.queue.event_queue,
          same,
          any-append is_final before (e ∷ []),
          h,
          more,
        )
        refl
]
Inv-left ended s kept (shut, whole, inl f) =
    rw (kept, until_final-append s.pulled s.queue.event_queue, f, append-nil s.pulled) whole
Inv-left ended s kept (shut, whole, inr e) = rw (kept, e, append-nil s.pulled) whole

-- Under every order of publishing, stopping and pulling, the consumer has received a prefix of
-- what it is to receive: the events that the queue took before it was stopped, in their order, up
-- to the first that ends a stream, that one included.
pub pulled-until_final :
    (as_ : List Action)
    → let s = run as_ new_session in
      (rest : List AgentExecutionEvent) × (until_final s.accepted ≡ s.pulled ++ rest)
pulled-until_final as_ =
    let s = run as_ new_session in
    let v = run-Inv as_ new_session new_session-Inv in
    (left s.point s, Inv-left s.point s v.nothing_lost v.at_point)

-- When the generator has ended, the consumer has received all events that the queue took before
-- it was stopped, up to the first that ends a stream, that one included, and nothing else.
pub pulled_of_ended :
    (as_ : List Action)
    → (run as_ new_session).point ≡ ended
    → (run as_ new_session).pulled ≡ until_final (run as_ new_session).accepted
pulled_of_ended as_ e =
    let s = run as_ new_session in
    let v = run-Inv as_ new_session new_session-Inv in
    let all_left : until_final s.accepted ≡ s.pulled ++ left ended s =
      Inv-left ended s v.nothing_lost (subst (λ p. PointInv p s) e v.at_point) in
    sym (all_left ∙ append-nil s.pulled)
