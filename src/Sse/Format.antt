-- ===== src/Sse/Format.antt =====
-- What is formatted as server-sent events is parsed back.
use package.a2a_js.Prelude.{
  Text, codes, ℕ, ◌+◌, ◌≤◌, true, false, none, List, [], ◌∷◌, ◌++◌, map, length, ltb, leb, is_empty,
  All, ◌≡◌, arith, refl, sym, ap, ◌∙◌, append_assoc, append-nil, length-append,
}
use package.a2a_js.Sse.Parser.{
  newline, SseEvent, format_sse_event, format_sse_error_event, Pending, no_event, lines_of,
  strip_return, after_prefix, strip_optional_leading_space, add_data, field_step, process_line,
  continues, yields, take_line, put_event, run_lines, finish, parse_sse_stream,
}
use package.a2a_js.Sse.Chunks.{
  concat_all, has_newline, lines_of_no_newline, parse_text, parse_sse_stream-parse_text,
}

-- No code unit of a text is a control character.
abbrev pub IsPlain : Text → Type 0
IsPlain = All (λ c. leb 32 c ≡ true)

-- What a server sends: an event, or an error.
pub data Outgoing {ℓ} (A : Type ℓ) : Type ℓ where
  sends : A → Outgoing A
  sends_error : A → Outgoing A

IsPlain-no_newline : (s : Text) → IsPlain s → has_newline s ≡ false
IsPlain-no_newline [] h = refl
IsPlain-no_newline (c ∷ cs) (p, h) = ground (arith, p, IsPlain-no_newline cs h)

strip_return_of_plain : (s : Text) → IsPlain s → strip_return s ≡ s
unfolding strip_return
strip_return_of_plain [] h = refl
strip_return_of_plain (c ∷ []) (p, h) = ground (arith, p)
strip_return_of_plain (c ∷ d ∷ cs) (p, h) = ap (◌∷◌ c) (strip_return_of_plain (d ∷ cs) h)

abbrev pending_of : Text → Text → Pending
pending_of type_ value = record { event_type = type_; event_data = value }

abbrev event_of : Text → Text → SseEvent
event_of type_ value = record { event_type = type_; payload = value }

data_line : (s : Text) → IsPlain s → IsPlain (codes "data: " ++ s)
data_line s h = (refl, (refl, (refl, (refl, (refl, (refl, h))))))

take_line_of_plain :
    (max : ℕ) (l : Text) (p : Pending)
    → IsPlain l
    → ltb max (length l) ≡ false
    → take_line max l p ≡ process_line max l p
unfolding take_line
take_line_of_plain max l p h short = rw (short, strip_return_of_plain l h) refl

take_data_line :
    (max : ℕ) (s : Text) (p : Pending)
    → IsPlain s
    → is_empty p.event_data ≡ true
    → 12 + length s ≤ max
    → take_line max (codes "data: " ++ s) p ≡ continues (record p { event_data = s })
unfolding process_line field_step after_prefix strip_optional_leading_space add_data
take_data_line max s p h fresh fits =
    let short : ltb max (length (codes "data: " ++ s)) ≡ false =
      ground (arith, fits, length-append (codes "data: ") s) in
    let within : ltb max (length s) ≡ false = ground (arith, fits) in
    take_line_of_plain max (codes "data: " ++ s) p (data_line s h) short ∙ rw (fresh, within) refl

take_empty_line :
    (max : ℕ) (p : Pending)
    → is_empty p.event_data ≡ false
    → take_line max [] p ≡ yields (event_of p.event_type p.event_data)
unfolding take_line process_line strip_return
take_empty_line max p h = let short : ltb max 0 ≡ false = ground arith in rw (short, h) refl

take_error_line :
    (max : ℕ)
    → 12 ≤ max
    → take_line max (codes "event: error") no_event ≡ continues (pending_of (codes "error") [])
unfolding take_line process_line field_step after_prefix strip_optional_leading_space strip_return
take_error_line max fits = let short : ltb max 12 ≡ false = ground (arith, fits) in rw short refl

lines_of_event :
    (s w : Text)
    → IsPlain s
    → lines_of (codes "data: " ++ s ++ newline ∷ newline ∷ w)
      ≡ ((codes "data: " ++ s) ∷ [] ∷ (lines_of w).0, (lines_of w).1)
unfolding lines_of
lines_of_event s w h =
    let line = codes "data: " ++ s in
    ap lines_of (sym (append_assoc (codes "data: ") s (newline ∷ newline ∷ w)))
    ∙ lines_of_no_newline line (newline ∷ newline ∷ w) (IsPlain-no_newline line (data_line s h))
    ∙ ap (λ l. (l ∷ [] ∷ (lines_of w).0, (lines_of w).1)) (append-nil line)

lines_of_error :
    (s w : Text)
    → IsPlain s
    → lines_of (codes "event: error" ++ newline ∷ codes "data: " ++ s ++ newline ∷ newline ∷ w)
      ≡ (codes "event: error" ∷ (codes "data: " ++ s) ∷ [] ∷ (lines_of w).0, (lines_of w).1)
lines_of_error s w h =
    let behind = codes "data: " ++ s ++ newline ∷ newline ∷ w in
    lines_of_no_newline (codes "event: error") (newline ∷ behind) refl
    ∙ unfold lines_of in rw (lines_of_event s w h) refl

module _ {ℓ} {A : Type ℓ} (stringify : A → Text) where
  unfoldable pub format_outgoing : Outgoing A → Text
  unfolding format_sse_event format_sse_error_event
  format_outgoing (sends a) = format_sse_event stringify a
  format_outgoing (sends_error a) = format_sse_error_event stringify a

  abbrev pub format_all : List (Outgoing A) → Text
  format_all [] = []
  format_all (o ∷ os) = format_outgoing o ++ format_all os

  abbrev pub payload_of : Outgoing A → Text
  payload_of (sends a) = stringify a
  payload_of (sends_error a) = stringify a

  -- The event that a client is to receive.
  abbrev pub received : Outgoing A → SseEvent
  received (sends a) = event_of (codes "message") (stringify a)
  received (sends_error a) = event_of (codes "error") (stringify a)

  -- What `JSON.stringify` returns: a text that is not empty and without control characters.
  abbrev pub IsStringify : Type ℓ
  IsStringify = (a : A) → IsPlain (stringify a) × (is_empty (stringify a) ≡ false)

  abbrev pub Fits : ℕ → Outgoing A → Type 0
  Fits max o = 12 + length (payload_of o) ≤ max

  parse_text_of_first :
      (max : ℕ) (o : Outgoing A) (w : Text)
      → IsStringify
      → Fits max o
      → parse_text max (format_outgoing o ++ w) no_event
        ≡ put_event (received o) (parse_text max w no_event)
  unfolding parse_text run_lines format_outgoing
  parse_text_of_first max (sends a) w json fits =
      let (plain, filled) = json a in
      ap (λ t. parse_text max t no_event) (event_text (stringify a) w)
      ∙ rw (lines_of_event (stringify a) w plain) (
          rw (take_data_line max (stringify a) no_event plain refl fits)
            (rw (take_empty_line max (pending_of (codes "message") (stringify a)) filled) refl))
    where
      event_text :
          (s w : Text)
          → (codes "data: " ++ s ++ newline ∷ newline ∷ []) ++ w
            ≡ codes "data: " ++ s ++ newline ∷ newline ∷ w
      event_text s w = ap (λ t. codes "data: " ++ t) (append_assoc s _ w)
  parse_text_of_first max (sends_error a) w json fits =
      let (plain, filled) = json a in
      let wide : 12 ≤ max = omega (arith, fits) in
      ap (λ t. parse_text max t no_event) (event_text (stringify a) w)
      ∙ rw (lines_of_error (stringify a) w plain) (
          rw (take_error_line max wide) (
            rw (take_data_line max (stringify a) (pending_of (codes "error") []) plain refl fits)
              (rw (take_empty_line max (pending_of (codes "error") (stringify a)) filled) refl)))
    where
      event_text :
          (s w : Text)
          → (codes "event: error" ++ newline ∷ codes "data: " ++ s ++ newline ∷ newline ∷ []) ++ w
            ≡ codes "event: error" ++ newline ∷ codes "data: " ++ s ++ newline ∷ newline ∷ w
      event_text s w =
          ap (λ t. codes "event: error" ++ newline ∷ codes "data: " ++ t) (append_assoc s _ w)

  parse_text-format_all :
      (max : ℕ) (os : List (Outgoing A))
      → IsStringify
      → All (Fits max) os
      → parse_text max (format_all os) no_event
        ≡ record { events = map received os; failure = none }
  unfolding parse_text run_lines lines_of finish
  parse_text-format_all max [] json fits = ground arith
  parse_text-format_all max (o ∷ os) json (fits, rest) =
      parse_text_of_first max o (format_all os) json fits
      ∙ ap (put_event (received o)) (parse_text-format_all max os json rest)

  -- However the text of formatted events and errors is cut into chunks, a client receives exactly
  -- these events, in order, each with its type and its JSON text, and no error. `JSON.stringify`
  -- returns a text that is not empty and has no control characters, and no text is longer than
  -- the limit less 12.
  pub parse_sse_stream-format_all :
      (max : ℕ) (os : List (Outgoing A)) (chunks : List Text)
      → IsStringify
      → All (Fits max) os
      → concat_all chunks ≡ format_all os
      → parse_sse_stream max chunks ≡ record { events = map received os; failure = none }
  parse_sse_stream-format_all max os chunks json fits cut =
      parse_sse_stream-parse_text max chunks
      ∙ ap (λ t. parse_text max t no_event) cut
      ∙ parse_text-format_all max os json fits
