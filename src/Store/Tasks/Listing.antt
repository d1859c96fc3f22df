-- ===== src/Store/Tasks/Listing.antt =====
-- What `list` of `InMemoryTaskStore` returns.
use package.a2a_js.Prelude.{
  ℕ, suc, ℤ, pos, negsuc, ap, sym, ◌≤◌, String, Bool, true, false, Option, none, some, List, [],
  ◌∷◌, map, truthy, is_true, length, slice_to, length-take-le, values, or_else, All, All-filter,
  All-filter_self, All-take, All-imp, Bool-cases, inl, inr, refl, ◌≡◌, ◌==◌, eq_iff,
}
use package.a2a_js.Types.{
  Task, TaskState, unspecified, state_eq, ListTasksRequest, ListTasksResponse,
}
use package.a2a_js.Context.{ServerCallContext}
use package.a2a_js.Errors.{Result, ok, err, >>=-ok, request_malformed}
use package.a2a_js.Store.Scoped.{get_bucket}
use package.a2a_js.Store.Tasks.{
  Platform, InMemoryTaskStore, has_state, filter_context, filter_status, filter_after,
  insert_sorted, sort_tasks, compare_tasks, is_gt, behind, is_cursor, split_cursor, skip_to,
  matching, strip_artifacts, page_size_of, list,
}

-- A task passes the filters on context and state that a request gives.
pub record Passes (q : ListTasksRequest) (t : Task) : Type 0 where
  pub in_context : truthy q.context_id ≡ true → t.context_id ≡ q.context_id
  pub in_state : state_eq q.status unspecified ≡ false → has_state t.status q.status ≡ true

abbrev InContext : String → Task → Type 0
InContext id t = truthy id ≡ true → t.context_id ≡ id

abbrev InState : TaskState → Task → Type 0
InState s t = state_eq s unspecified ≡ false → has_state t.status s ≡ true

All-any {ℓ} : {A : Type ℓ} (P : A → Type 0) (xs : List A) → ((x : A) → P x) → All P xs
All-any P [] f = tt
All-any P (x ∷ xs) f = (f x, All-any P xs f)

All-both {ℓ} :
    {A : Type ℓ} (P Q : A → Type 0) (xs : List A) → All P xs → All Q xs → All (λ x. P x × Q x) xs
All-both P Q [] h k = tt
All-both P Q (x ∷ xs) (px, h) (qx, k) = ((px, qx), All-both P Q xs h k)

filter_context-InContext :
    (id : String) (tasks : List Task) → All (InContext id) (filter_context id tasks)
unfolding filter_context
filter_context-InContext id tasks = elim (Bool-cases (truthy id)) [
  | inl given ↦
      rw (given, filter_context)
        (All-imp (λ t. (t.context_id == id) ≡ true) (InContext id) _
          (λ t h _. (eq_iff t.context_id id).0 h) (All-filter_self (λ t. t.context_id == id) tasks))
  | inr absent ↦ All-any (InContext id) _ (λ t h. cc)
]

filter_status-InState :
    (s : TaskState) (tasks : List Task) → All (InState s) (filter_status s tasks)
unfolding filter_status
filter_status-InState s tasks = elim (Bool-cases (state_eq s unspecified)) [
  | inl absent ↦ All-any (InState s) _ (λ t h. cc)
  | inr given ↦
      rw (given, filter_status)
        (All-imp (λ t. has_state t.status s ≡ true) (InState s) _ (λ t h _. h)
          (All-filter_self (λ t. has_state t.status s) tasks))
]

module _ (P : Task → Type 0) where
  filter_status-All : (s : TaskState) (ts : List Task) → All P ts → All P (filter_status s ts)
  unfolding filter_status
  filter_status-All s ts h = elim (Bool-cases (state_eq s unspecified)) [
    | inl absent ↦ rw (absent, filter_status) h
    | inr given ↦ rw (given, filter_status) (All-filter P (λ t. has_state t.status s) ts h)
  ]

  filter_after-All :
      (p : Platform) (o : Option String) (ts : List Task) → All P ts → All P (filter_after p o ts)
  unfolding filter_after
  filter_after-All p none ts h = h
  filter_after-All p (some after) ts h = elim (Bool-cases (truthy after)) [
    | inl given ↦ rw (given, filter_after) (All-filter P _ ts h)
    | inr absent ↦ rw (absent, filter_after) h
  ]

  insert_sorted-All :
      (p : Platform) (x : Task) (ts : List Task) → P x → All P ts → All P (insert_sorted p x ts)
  unfolding insert_sorted
  insert_sorted-All p x [] px h = (px, tt)
  insert_sorted-All p x (y ∷ ys) px (py, h) = elim (Bool-cases (is_gt (compare_tasks p x y))) [
    | inl later ↦ rw (later, insert_sorted) (py, insert_sorted-All p x ys px h)
    | inr earlier ↦ rw (earlier, insert_sorted) (px, (py, h))
  ]

  sort_tasks-All : (p : Platform) (ts : List Task) → All P ts → All P (sort_tasks p ts)
  unfolding sort_tasks
  sort_tasks-All p [] h = tt
  sort_tasks-All p (x ∷ xs) (px, h) =
      insert_sorted-All p x (sort_tasks p xs) px (sort_tasks-All p xs h)

  behind-All : (fits : Task → Bool) (ts : List Task) → All P ts → All P (behind fits ts)
  unfolding behind
  behind-All fits [] h = tt
  behind-All fits (t ∷ ts) (pt, h) = elim (Bool-cases (fits t)) [
    | inl found ↦ rw (found, behind) h
    | inr other ↦ rw (other, behind) (behind-All fits ts h)
  ]

  skip_to-All :
      (p : Platform) (token : String) (ts us : List Task)
      → skip_to p token ts ≡ ok us
      → All P ts
      → All P us
  unfolding skip_to
  skip_to-All p token ts us h all_ = elim (Bool-cases (truthy token)) [
    | inl given ↦ skipped (split_cursor (p.decode token)) (rw (given, skip_to) at h)
    | inr absent ↦
        let same : ◌≡◌ {A = Result (List Task)} (ok ts) (ok us) = rw (absent, skip_to) at h in
        let ends_same : ts ≡ us = cc in rw (← ends_same) all_
  ]
    where
      skipped :
          (o : Option (String × String))
          → (elim o [
            | none ↦ err (request_malformed "Invalid page token format.")
            | some (stamp, id) ↦ ok (behind (is_cursor stamp id) ts)
          ])
            ≡ ok us
          → All P us
      skipped none e = cc
      skipped (some (stamp, id)) e =
          let ends_same : behind (is_cursor stamp id) ts ≡ us = cc in
          rw (← ends_same) (behind-All (is_cursor stamp id) ts all_)

matching-Passes :
    (p : Platform) (q : ListTasksRequest) (c : ServerCallContext) (s : InMemoryTaskStore)
    → All (Passes q) (matching p q c s)
unfolding matching
matching-Passes p q c s =
    let stored = values (or_else (get_bucket s c) []) in
    let in_context = filter_context q.context_id stored in
    All-imp (λ t. InContext q.context_id t × InState q.status t) (Passes q) _
      (λ t h. record { in_context = h.0; in_state = h.1 })
      (sort_tasks-All _ p _ (
        filter_after-All _ p q.status_timestamp_after _ (
          All-both (InContext q.context_id) (InState q.status) _
            (filter_status-All (InContext q.context_id) q.status in_context
              (filter_context-InContext q.context_id stored))
            (filter_status-InState q.status in_context))))

slice_to-All : (P : Task → Type 0) (n : ℤ) (ts : List Task) → All P ts → All P (slice_to n ts)
slice_to-All P (pos n) ts h = All-take P n ts h
slice_to-All P (negsuc n) ts h = All-take P _ ts h

strip_artifacts-Passes :
    (b : Bool) (q : ListTasksRequest) (t : Task) → Passes q t → Passes q (strip_artifacts b t)
strip_artifacts-Passes true q t h = h
strip_artifacts-Passes false q t h = record { in_context = h.in_context; in_state = h.in_state }

map_strip-Passes :
    (b : Bool) (q : ListTasksRequest) (ts : List Task)
    → All (Passes q) ts
    → All (Passes q) (map (strip_artifacts b) ts)
map_strip-Passes b q [] h = tt
map_strip-Passes b q (t ∷ ts) (pt, h) = (strip_artifacts-Passes b q t pt, map_strip-Passes b q ts h)

length-map : (f : Task → Task) (ts : List Task) → length (map f ts) ≡ length ts
length-map f [] = refl
length-map f (t ∷ ts) = ap suc (length-map f ts)

-- What a page holds of the tasks behind the token.
abbrev page_of : ListTasksRequest → List Task → List Task
page_of q ts = map (strip_artifacts (is_true q.include_artifacts)) (slice_to (page_size_of q) ts)

page_of-Passes :
    (q : ListTasksRequest) (ts : List Task) → All (Passes q) ts → All (Passes q) (page_of q ts)
page_of-Passes q ts h =
    map_strip-Passes (is_true q.include_artifacts) q (slice_to (page_size_of q) ts)
      (slice_to-All (Passes q) (page_size_of q) ts h)

length-page_of :
    (n : ℕ) (q : ListTasksRequest) (ts : List Task)
    → page_size_of q ≡ pos n
    → length (page_of q ts) ≤ n
length-page_of n q ts size =
    rw (size, length-map (strip_artifacts (is_true q.include_artifacts)) (slice_to (pos n) ts))
      (length-take-le n ts)

-- A page of `list` holds no more tasks than its size says, which is not negative, and only tasks
-- that pass the filters on context and state; the total counts the tasks that match, whatever
-- the page.
pub list-Passes :
    (p : Platform) (q : ListTasksRequest) (c : ServerCallContext) (s : InMemoryTaskStore) (n : ℕ)
    (r : ListTasksResponse)
    → page_size_of q ≡ pos n
    → list p q c s ≡ ok r
    → (length r.tasks ≤ n)
      × All (Passes q) r.tasks
      × (r.total_size ≡ pos (length (matching p q c s)))
unfolding list
list-Passes p q c s n r size h =
    let (tasks, skipped, made) = >>=-ok (skip_to p q.page_token (matching p q c s)) _ r h in
    let page_eq : page_of q tasks ≡ r.tasks = cc in
    let total_eq : pos (length (matching p q c s)) ≡ r.total_size = cc in
    (
      rw (← page_eq) (length-page_of n q tasks size),
      rw (← page_eq) (
          page_of-Passes q tasks
            (skip_to-All (Passes q) p q.page_token _ tasks skipped (matching-Passes p q c s))),
      sym total_eq,
    )
