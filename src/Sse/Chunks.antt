-- ===== src/Sse/Chunks.antt =====
-- The parser's result does not depend on how the text is cut into chunks.
use package.a2a_js.Prelude.{
  Text, ℕ, Bool, true, false, List, [], ◌∷◌, ◌++◌, length, ltb, nat_eq, if◌then◌else◌, Bool-cases,
  inl, inr, ◌≡◌, arith, refl, sym, ap, ◌∙◌, append_assoc, append-nil, any, length-append, fun_ext,
  or_false,
}
use package.a2a_js.Sse.Parser.{
  Pending, no_event, newline, lines_of, put_unit, fails, take_line, Parsed, line_too_long,
  after_step, failed_with, run_lines, finish, feed, parse_sse_stream,
}

abbrev pub concat_all : List Text → Text
concat_all [] = []
concat_all (v ∷ vs) = v ++ concat_all vs

-- The parser on a text that is there at once.
unfoldable pub parse_text : ℕ → Text → Pending → Parsed
parse_text max text p =
    run_lines max (lines_of text).0 p
      (λ p'. if ltb max (length (lines_of text).1) then failed_with line_too_long else finish p')

-- The lines of a text of which the first lines are split off.
abbrev behind_lines : List Text → List Text × Text → List Text × Text
behind_lines ls s = (ls ++ s.0, s.1)

put_unit-behind :
    (c : ℕ) (l : Text) (ls : List Text) (s : List Text × Text)
    → put_unit c (behind_lines (l ∷ ls) s) ≡ behind_lines ((c ∷ l) ∷ ls) s
put_unit-behind c l ls s = refl

put_lines :
    (c : ℕ) (w : Text) (ls : List Text) (rest : Text)
    → nat_eq c newline ≡ false
    → put_unit c (behind_lines ls (lines_of (rest ++ w)))
      ≡ behind_lines (put_unit c (ls, rest)).0 (lines_of ((put_unit c (ls, rest)).1 ++ w))
unfolding lines_of
put_lines c w [] rest inside = rw (inside, lines_of) refl
put_lines c w (l ∷ ls) rest inside = refl

lines_of-append :
    (x w : Text) → lines_of (x ++ w) ≡ behind_lines (lines_of x).0 (lines_of ((lines_of x).1 ++ w))
unfolding lines_of
lines_of-append [] w = refl
lines_of-append (c ∷ cs) w = elim (Bool-cases (nat_eq c newline)) [
  | inl ends ↦ rw (ends, lines_of-append cs w, lines_of) refl
  | inr inside ↦
      rw (inside, lines_of-append cs w, lines_of)
        (put_lines c w (lines_of cs).0 (lines_of cs).1 inside)
]

abbrev pub has_newline : Text → Bool
has_newline = any (λ c. nat_eq c newline)

put_unit-rest :
    (c : ℕ) (s : List Text × Text)
    → nat_eq c newline ≡ false
    → has_newline s.1 ≡ false
    → has_newline (put_unit c s).1 ≡ false
put_unit-rest c ([], rest) inside h = rw (inside, h) refl
put_unit-rest c (l ∷ ls, rest) inside h = h

-- What stays in the buffer holds no newline.
rest_of_lines : (x : Text) → has_newline (lines_of x).1 ≡ false
unfolding lines_of
rest_of_lines [] = refl
rest_of_lines (c ∷ cs) = elim (Bool-cases (nat_eq c newline)) [
  | inl ends ↦ rw (ends, lines_of) (rest_of_lines cs)
  | inr inside ↦ rw (inside, lines_of) (put_unit-rest c (lines_of cs) inside (rest_of_lines cs))
]

-- A text without a newline in front of the first line, or of the rest.
abbrev put_text : Text → List Text × Text → List Text × Text
put_text r ([], rest) = ([], r ++ rest)
put_text r (l ∷ ls, rest) = ((r ++ l) ∷ ls, rest)

put_unit-put_text :
    (c : ℕ) (cs : Text) (s : List Text × Text) → put_unit c (put_text cs s) ≡ put_text (c ∷ cs) s
put_unit-put_text c cs ([], rest) = refl
put_unit-put_text c cs (l ∷ ls, rest) = refl

put_text-nil : (s : List Text × Text) → s ≡ put_text [] s
put_text-nil ([], rest) = refl
put_text-nil (l ∷ ls, rest) = refl

pub lines_of_no_newline :
    (r w : Text) → has_newline r ≡ false → lines_of (r ++ w) ≡ put_text r (lines_of w)
unfolding lines_of
lines_of_no_newline [] w h = put_text-nil (lines_of w)
lines_of_no_newline (c ∷ cs) w h =
    let (inside, clean) = or_false (nat_eq c newline) (has_newline cs) h in
    rw (inside, lines_of_no_newline cs w clean, lines_of) (put_unit-put_text c cs (lines_of w))

run_lines-append :
    (max : ℕ) (xs ys : List Text) (p : Pending) (next : Pending → Parsed)
    → run_lines max (xs ++ ys) p next ≡ run_lines max xs p (λ p'. run_lines max ys p' next)
unfolding run_lines
run_lines-append max [] ys p next = refl
run_lines-append max (l ∷ ls) ys p next =
    ap (after_step (take_line max l p)) (fun_ext (λ p'. run_lines-append max ls ys p' next))

take_line_too_long :
    (max : ℕ) (l : Text) (p : Pending)
    → ltb max (length l) ≡ true
    → take_line max l p ≡ fails line_too_long
unfolding take_line
take_line_too_long max l p h = rw h refl

ltb-append : (max : ℕ) (r l : Text) → ltb max (length r) ≡ true → ltb max (length (r ++ l)) ≡ true
ltb-append max r l h = ground (arith, h, length-append r l)

parse_split : ℕ → List Text × Text → Pending → Parsed
parse_split max s p =
    run_lines max s.0 p
      (λ p'. if ltb max (length s.1) then failed_with line_too_long else finish p')

parse_split_too_long :
    (max : ℕ) (r : Text) (s : List Text × Text) (p : Pending)
    → ltb max (length r) ≡ true
    → parse_split max (put_text r s) p ≡ failed_with line_too_long
unfolding parse_split run_lines
parse_split_too_long max r ([], rest) p h = rw (ltb-append max r rest h) refl
parse_split_too_long max r (l ∷ ls, rest) p h =
    rw (take_line_too_long max (r ++ l) p (ltb-append max r l h), parse_split, run_lines) refl

-- A buffer without a newline that is too long fails, whatever follows it.
parse_text_too_long :
    (max : ℕ) (r w : Text) (p : Pending)
    → has_newline r ≡ false
    → ltb max (length r) ≡ true
    → parse_text max (r ++ w) p ≡ failed_with line_too_long
unfolding parse_text parse_split
parse_text_too_long max r w p clean long =
    rw (lines_of_no_newline r w clean) (parse_split_too_long max r (lines_of w) p long)

parse_text_of_rest :
    (max : ℕ) (r : Text) (p : Pending)
    → has_newline r ≡ false
    → ltb max (length r) ≡ false
    → parse_text max (r ++ []) p ≡ finish p
unfolding parse_text run_lines lines_of
parse_text_of_rest max r p clean fits =
    rw (lines_of_no_newline r [] clean) (rw (append-nil r, fits) refl)

parse_text-append :
    (max : ℕ) (x w : Text) (p : Pending)
    → parse_text max (x ++ w) p
      ≡ run_lines max (lines_of x).0 p (λ p'. parse_text max ((lines_of x).1 ++ w) p')
unfolding parse_text
parse_text-append max x w p =
    rw (lines_of-append x w)
      (run_lines-append max (lines_of x).0 (lines_of ((lines_of x).1 ++ w)).0 p _)

-- What follows the lines of a chunk, against the text in one piece.
feed_rest :
    (max : ℕ) (vs : List Text) (r : Text) (p : Pending)
    → (ltb max (length r) ≡ false → feed max vs r p ≡ parse_text max (r ++ concat_all vs) p)
    → has_newline r ≡ false
    → (if ltb max (length r) then failed_with line_too_long else feed max vs r p)
      ≡ parse_text max (r ++ concat_all vs) p
feed_rest max vs r p ih clean = elim (Bool-cases (ltb max (length r))) [
  | inl long ↦ rw long (sym (parse_text_too_long max r (concat_all vs) p clean long))
  | inr short ↦ rw short (ih short)
]

feed-parse_text :
    (max : ℕ) (vs : List Text) (buffer : Text) (p : Pending)
    → has_newline buffer ≡ false
    → ltb max (length buffer) ≡ false
    → feed max vs buffer p ≡ parse_text max (buffer ++ concat_all vs) p
unfolding feed
feed-parse_text max [] buffer p clean fits = sym (parse_text_of_rest max buffer p clean fits)
feed-parse_text max (v ∷ vs) buffer p clean fits =
    let rest = (lines_of (buffer ++ v)).1 in
    let rest_clean = rest_of_lines (buffer ++ v) in
    ap (run_lines max (lines_of (buffer ++ v)).0 p) (
      fun_ext (λ p'.
        feed_rest max vs rest p' (λ short. feed-parse_text max vs rest p' rest_clean short)
          rest_clean))
    ∙ sym (parse_text-append max (buffer ++ v) (concat_all vs) p)
    ∙ ap (λ t. parse_text max t p) (append_assoc buffer v (concat_all vs))

-- However a stream is cut into chunks, the parser yields the same events and ends by the same
-- error, or by none, as on the whole text in one chunk.
pub parse_sse_stream-concat_all :
    (max : ℕ) (chunks : List Text)
    → parse_sse_stream max chunks ≡ parse_sse_stream max (concat_all chunks ∷ [])
unfolding parse_sse_stream
parse_sse_stream-concat_all max chunks =
    feed-parse_text max chunks [] no_event refl (ltb_zero max)
    ∙ ap (λ t. parse_text max t no_event) (sym (append-nil (concat_all chunks)))
    ∙ sym (feed-parse_text max (concat_all chunks ∷ []) [] no_event refl (ltb_zero max))
  where
    ltb_zero : (n : ℕ) → ltb n 0 ≡ false
    ltb_zero n = ground arith

pub parse_sse_stream-parse_text :
    (max : ℕ) (chunks : List Text)
    → parse_sse_stream max chunks ≡ parse_text max (concat_all chunks) no_event
unfolding parse_sse_stream
parse_sse_stream-parse_text max chunks = feed-parse_text max chunks [] no_event refl (ground arith)
