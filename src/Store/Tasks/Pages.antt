-- ===== src/Store/Tasks/Pages.antt =====
-- `list` of `InMemoryTaskStore`, page by page.
use package.a2a_js.Prelude.{
  ℕ, zero, suc, pos, ◌≤◌, ◌<◌, String, false, Option, none, some, List, [], ◌++◌, append_assoc,
  map-append, truthy, is_true, ltb, length, length-drop, take, drop, take-drop, All, map,
  if◌then◌else◌, Bool-cases, inl, inr, arith, refl, sym, ap, ◌∙◌, ◌≡◌,
}
use package.a2a_js.Types.{Task, ListTasksRequest, ListTasksResponse}
use package.a2a_js.Context.{ServerCallContext}
use package.a2a_js.Errors.{Result, ok, err}
use package.a2a_js.Store.Tasks.{
  Platform, InMemoryTaskStore, timestamp_of, skip_to, next_token, strip_artifacts, matching,
  page_size_of, list,
}
use package.a2a_js.Store.Tasks.Paging.{
  HasUniqueTasks, has_bar, take_of_fits, skip_to-next_token, next_token_of_longer,
  next_token_of_shorter, All-right,
}

-- What the requests of the loop have in common: the filters and the size are those of `q`.
abbrev at_token : ListTasksRequest → String → ListTasksRequest
at_token q token = record q { page_token = token }

abbrev put_in_front : List Task → Option (List Task) → Option (List Task)
put_in_front ts none = none
put_in_front ts (some us) = some (ts ++ us)

-- A caller that asks for a page and follows its token until the token is empty: the tasks that it
-- has got, or `none` if a page fails or more pages than allowed are asked for.
abbrev and_rest : Result ListTasksResponse → (String → Option (List Task)) → Option (List Task)
and_rest (err e) rest = none
and_rest (ok r) rest =
    let more = put_in_front r.tasks (rest r.next_page_token) in
    if truthy r.next_page_token then more else some r.tasks

pub read_pages :
    Platform
    → ListTasksRequest
    → ServerCallContext
    → InMemoryTaskStore
    → ℕ
    → String
    → Option (List Task)
read_pages p q c s zero token = none
read_pages p q c s (suc fuel) token =
    and_rest (list p (at_token q token) c s) (read_pages p q c s fuel)

-- The tasks as `list` gives them out.
abbrev pub given_out : ListTasksRequest → List Task → List Task
given_out q ts = map (strip_artifacts (is_true q.include_artifacts)) ts

list_of_skip :
    (p : Platform) (q : ListTasksRequest) (c : ServerCallContext) (s : InMemoryTaskStore) (n : ℕ)
    (token : String) (ts : List Task)
    → page_size_of q ≡ pos n
    → skip_to p token (matching p q c s) ≡ ok ts
    → list p (at_token q token) c s
      ≡ ok (record {
        tasks = given_out q (take n ts);
        next_page_token = next_token p (take n ts) ts;
        page_size = pos n;
        total_size = pos (length (matching p q c s));
      })
unfolding list matching
list_of_skip p q c s n token ts size h = rw (h, size) refl

module _ (p : Platform) (inverse : (s : String) → p.decode (p.encode s) ≡ s)
    (empty_ : p.decode "" ≡ "") (q : ListTasksRequest) (c : ServerCallContext)
    (s : InMemoryTaskStore) (n : ℕ) (size : page_size_of q ≡ pos (suc n))
    (unique : HasUniqueTasks (matching p q c s))
    (clear : All (λ t. has_bar (timestamp_of t) ≡ false) (matching p q c s)) where
  last_page :
      (fuel : ℕ) (token : String) (ts : List Task)
      → skip_to p token (matching p q c s) ≡ ok ts
      → length ts ≤ suc n
      → read_pages p q c s (suc fuel) token ≡ some (given_out q ts)
  unfolding read_pages
  last_page fuel token ts h fits =
      rw
        (
          list_of_skip p q c s (suc n) token ts size h,
          next_token_of_shorter p (suc n) ts fits,
          take_of_fits (suc n) ts fits,
        )
        refl

  earlier_page :
      (fuel : ℕ) (token : String) (before ts : List Task)
      → matching p q c s ≡ before ++ ts
      → skip_to p token (matching p q c s) ≡ ok ts
      → suc n < length ts
      → read_pages p q c s (suc fuel) token
        ≡ put_in_front
            (given_out q (take (suc n) ts))
            (read_pages p q c s fuel (next_token p (take (suc n) ts) ts))
  unfolding read_pages
  earlier_page fuel token before ts split h more =
      let bars = rw split at clear in
      rw
        (
          list_of_skip p q c s (suc n) token ts size h,
          next_token_of_longer p n ts inverse empty_
              (All-right (λ t. has_bar (timestamp_of t) ≡ false) before ts bars) more,
        )
        refl

  skip_behind :
      (before ts : List Task)
      → matching p q c s ≡ before ++ ts
      → suc n < length ts
      → skip_to p (next_token p (take (suc n) ts) ts) (matching p q c s) ≡ ok (drop (suc n) ts)
  skip_behind before ts split more = rw split (
      skip_to-next_token p n before ts inverse empty_ (rw split at unique) (rw split at clear) more)

  given_out-take-drop :
      (ts : List Task)
      → given_out q (take (suc n) ts) ++ given_out q (drop (suc n) ts) ≡ given_out q ts
  given_out-take-drop ts =
      sym (map-append (strip_artifacts (is_true q.include_artifacts)) (take (suc n) ts) _)
      ∙ ap (given_out q) (take-drop (suc n) ts)

  read_pages_from :
      (fuel : ℕ) (token : String) (before ts : List Task)
      → matching p q c s ≡ before ++ ts
      → skip_to p token (matching p q c s) ≡ ok ts
      → length ts < fuel
      → read_pages p q c s fuel token ≡ some (given_out q ts)
  read_pages_from zero token before ts split h enough = absurd (omega (arith, enough))
  read_pages_from (suc fuel) token before ts split h enough =
      elim (Bool-cases (ltb (suc n) (length ts))) [
        | inr last ↦ last_page fuel token ts h (ground (arith, last))
        | inl more ↦
            let longer : suc n < length ts = ground (arith, more) in
            let page = take (suc n) ts in
            let behind_page : matching p q c s ≡ (before ++ page) ++ drop (suc n) ts =
              split
              ∙ ap (λ xs. before ++ xs) (sym (take-drop (suc n) ts))
              ∙ sym (append_assoc before page (drop (suc n) ts)) in
            let rest =
              read_pages_from fuel (next_token p page ts) (before ++ page) (drop (suc n) ts)
                behind_page (skip_behind before ts split longer)
                (omega (arith, length-drop (suc n) ts)) in
            rw (earlier_page fuel token before ts split h longer, rest)
              (ap some (given_out-take-drop ts))
      ]

  -- A caller that starts without a token and follows the token of each page until it is empty
  -- reads every task that matches the request exactly once and in order, page after page, and
  -- needs no more pages than one for each task and one more. The page size is at least one, ids
  -- are distinct, no timestamp has a bar, and the decoder of base64 inverts the encoder and takes
  -- the empty text to itself.
  pub list-all_pages :
      read_pages p q c s (suc (length (matching p q c s))) ""
      ≡ some (given_out q (matching p q c s))
  unfolding skip_to
  list-all_pages =
      read_pages_from (suc (length (matching p q c s))) "" [] (matching p q c s) refl refl
        (omega arith)
