-- ===== src/Sse/Parser.antt =====
-- `formatSSEEvent`, `formatSSEErrorEvent` and `parseSseStream` of src/sse_utils.ts. A JavaScript
-- string is the list of its UTF-16 code units, so that its length is the length of the list. The
-- chunks that the decoder of the response's body delivers are a parameter.
use package.a2a_js.Prelude.{
  Text, codes, ℕ, Option, none, some, List, [], ◌∷◌, ◌++◌, length, ltb, nat_eq, is_empty,
  if◌then◌else◌,
}

abbrev pub newline : ℕ
newline = 10

abbrev pub carriage_return : ℕ
carriage_return = 13

pub record SseEvent : Type 0 where
  pub event_type : Text
  pub payload : Text

pub data SseError : Type 0 where
  line_too_long data_too_long : SseError

-- `stringify` is `JSON.stringify`.
unfoldable pub format_sse_event {ℓ} : {A : Type ℓ} → (A → Text) → A → Text
format_sse_event stringify event = codes "data: " ++ stringify event ++ newline ∷ newline ∷ []

unfoldable pub format_sse_error_event {ℓ} : {A : Type ℓ} → (A → Text) → A → Text
format_sse_error_event stringify error =
    codes "event: error" ++ newline ∷ codes "data: " ++ stringify error ++ newline ∷ newline ∷ []

-- The variables of the parser beside its buffer.
pub record Pending : Type 0 where
  pub event_type : Text
  pub event_data : Text

abbrev pub no_event : Pending
no_event = record { event_type = codes "message"; event_data = [] }

-- A code unit in front of the first line, or of the rest if there is no line.
abbrev pub put_unit : ℕ → List Text × Text → List Text × Text
put_unit c ([], rest) = ([], c ∷ rest)
put_unit c (l ∷ ls, rest) = ((c ∷ l) ∷ ls, rest)

-- The lines that the inner loop takes off the buffer by `indexOf` and `substring`, each without its
-- newline, and what it leaves in the buffer.
unfoldable pub lines_of : Text → List Text × Text
lines_of [] = ([], [])
lines_of (c ∷ cs) =
    let split = lines_of cs in
    if nat_eq c newline then ([] ∷ split.0, split.1) else put_unit c split

-- `if (line.endsWith('\r')) line = line.substring(0, line.length - 1)`.
unfoldable pub strip_return : Text → Text
strip_return [] = []
strip_return (c ∷ []) = if nat_eq c carriage_return then [] else c ∷ []
strip_return (c ∷ d ∷ cs) = c ∷ strip_return (d ∷ cs)

-- What follows a prefix, if the text starts with it.
unfoldable pub after_prefix : Text → Text → Option Text
after_prefix [] cs = some cs
after_prefix (p ∷ ps) [] = none
after_prefix (p ∷ ps) (c ∷ cs) = let rest = after_prefix ps cs in if nat_eq c p then rest else none

unfoldable pub strip_optional_leading_space : Text → Text
strip_optional_leading_space [] = []
strip_optional_leading_space (c ∷ cs) = if nat_eq c 32 then cs else c ∷ cs

-- What a line does.
pub data LineStep : Type 0 where
  continues : Pending → LineStep
  yields : SseEvent → LineStep
  fails : SseError → LineStep

unfoldable pub add_data : ℕ → Text → Pending → LineStep
add_data max value p =
    let joined = if is_empty p.event_data then value else p.event_data ++ newline ∷ value in
    if ltb max (length joined)
    then fails data_too_long
    else continues (record p { event_data = joined })

unfoldable pub field_step : ℕ → Text → Pending → LineStep
unfolding after_prefix strip_optional_leading_space add_data
field_step max line p = elim (after_prefix (codes "event:") line) [
  | some value ↦ continues (record p { event_type = strip_optional_leading_space value })
  | none ↦ elim (after_prefix (codes "data:") line) [
    | some value ↦ add_data max (strip_optional_leading_space value) p
    | none ↦ continues p
  ]
]

unfoldable pub process_line : ℕ → Text → Pending → LineStep
unfolding field_step
process_line max [] p =
    if is_empty p.event_data
    then continues p
    else yields (record { event_type = p.event_type; payload = p.event_data })
process_line max (c ∷ cs) p = if nat_eq c b':' then continues p else field_step max (c ∷ cs) p

-- A line as it was in the buffer.
unfoldable pub take_line : ℕ → Text → Pending → LineStep
unfolding process_line strip_return
take_line max raw p =
    if ltb max (length raw) then fails line_too_long else process_line max (strip_return raw) p

-- What the consumer receives, and the error by which the stream ends.
pub record Parsed : Type 0 where
  pub events : List SseEvent
  pub failure : Option SseError

abbrev pub put_event : SseEvent → Parsed → Parsed
put_event e out = record out { events = e ∷ out.events }

abbrev pub failed_with : SseError → Parsed
failed_with e = record { events = []; failure = some e }

-- What follows a line, if the stream goes on.
abbrev pub after_step : LineStep → (Pending → Parsed) → Parsed
after_step (fails e) k = failed_with e
after_step (continues p) k = k p
after_step (yields e) k = put_event e (k no_event)

-- The inner loop over the lines, and then `next`.
unfoldable pub run_lines : ℕ → List Text → Pending → (Pending → Parsed) → Parsed
unfolding take_line
run_lines max [] p next = next p
run_lines max (l ∷ ls) p next = after_step (take_line max l p) (λ p'. run_lines max ls p' next)

-- The end of the stream: a pending event is yielded.
unfoldable pub finish : Pending → Parsed
finish p = if is_empty p.event_data then record { events = []; failure = none } else record {
  events = record { event_type = p.event_type; payload = p.event_data } ∷ [];
  failure = none;
}

-- The loop over the chunks.
unfoldable pub feed : ℕ → List Text → Text → Pending → Parsed
unfolding lines_of run_lines finish
feed max [] buffer p = finish p
feed max (v ∷ vs) buffer p =
    let split = lines_of (buffer ++ v) in
    run_lines max split.0 p
      (λ p'. if ltb max (length split.1) then failed_with line_too_long else feed max vs split.1 p')

unfoldable pub parse_sse_stream : ℕ → List Text → Parsed
unfolding feed
parse_sse_stream max chunks = feed max chunks [] no_event
