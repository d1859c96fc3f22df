-- ===== src/Store/Tasks.antt =====
-- `InMemoryTaskStore` of src/server/store.ts. The copies that it makes on the way in and out are
-- the values themselves here.
pub mod Scope
pub mod Paging
pub mod Listing
pub mod Pages
use package.a2a_js.Prelude.{
  ℕ, ℤ, pos, zero, suc, String, Bool, true, false, not, ◌&&◌, Option, none, some, List, [], ◌∷◌,
  Ordering, JsMap, get, set, values, truthy, or_else, or_string, is_true, is_empty, length, filter,
  slice_to, map, ltb, nat_eq, if◌then◌else◌, ◌==◌, ◌≡◌, ◌<◌,
}
use Prim.Native.Char.{Char, code}
use Prim.Native.String
use package.a2a_js.Types.{
  Task, TaskStatus, TaskState, unspecified, state_eq, ListTasksRequest, ListTasksResponse,
}
use package.a2a_js.Context.{ServerCallContext, OwnerResolver}
use package.a2a_js.Errors.{Result, ok, err, ◌>>=◌, request_malformed}
use package.a2a_js.Store.Scoped.{ScopedStore, get_bucket, update_bucket}

-- What the store takes from the platform: dates, collation and base64.
pub record Platform : Type 0 where
  -- `new Date(a).getTime() > new Date(b).getTime()`, false where a date is invalid.
  pub is_later : String → String → Bool
  -- `!isNaN(Date.parse(s))`.
  pub is_date : String → Bool
  -- The sign of `a.localeCompare(b)`.
  pub locale_compare : String → String → Ordering
  -- `Buffer.from(s).toString('base64')` and `Buffer.from(s, 'base64').toString('utf-8')`.
  pub encode : String → String
  pub decode : String → String

abbrev pub InMemoryTaskStore : Type 0
InMemoryTaskStore = ScopedStore Task

-- `this._scopedStore.getBucket(context)?.get(id)`.
abbrev bucket_get : String → Option (JsMap Task) → Option Task
bucket_get id none = none
bucket_get id (some bucket) = get id bucket

unfoldable pub load : String → ServerCallContext → InMemoryTaskStore → Option Task
load id c s = bucket_get id (get_bucket s c)

unfoldable pub save : Task → ServerCallContext → InMemoryTaskStore → InMemoryTaskStore
save t c s = update_bucket s c (set t.id t)

abbrev timestamp_in : Option TaskStatus → String
timestamp_in none = ""
timestamp_in (some st) = or_else st.timestamp ""

-- `task.status?.timestamp || ''`.
abbrev pub timestamp_of : Task → String
timestamp_of t = timestamp_in t.status

abbrev pub has_state : Option TaskStatus → TaskState → Bool
has_state none s = false
has_state (some st) s = state_eq st.state s

-- The three filters, each applied if its parameter is given.
unfoldable pub filter_context : String → List Task → List Task
filter_context id tasks = if truthy id then filter (λ t. t.context_id == id) tasks else tasks

unfoldable pub filter_status : TaskState → List Task → List Task
filter_status s tasks =
    if state_eq s unspecified then tasks else filter (λ t. has_state t.status s) tasks

unfoldable pub filter_after : Platform → Option String → List Task → List Task
filter_after p none tasks = tasks
filter_after p (some after) tasks =
    if truthy after
    then filter (λ t. truthy (timestamp_of t) && p.is_later (timestamp_of t) after) tasks
    else tasks

-- The comparison of the sort: by timestamp, then by id, both descending.
unfoldable pub compare_tasks : Platform → Task → Task → Ordering
compare_tasks p a b =
    if timestamp_of b == timestamp_of a
    then p.locale_compare b.id a.id
    else p.locale_compare (timestamp_of b) (timestamp_of a)

abbrev pub is_gt : Ordering → Bool
is_gt Ordering.gt = true
is_gt _ = false

-- `tasks.sort(compare)`, which is stable.
unfoldable pub insert_sorted : Platform → Task → List Task → List Task
insert_sorted p x [] = x ∷ []
insert_sorted p x (y ∷ ys) =
    let rest = insert_sorted p x ys in if is_gt (compare_tasks p x y) then y ∷ rest else x ∷ y ∷ ys

unfoldable pub sort_tasks : Platform → List Task → List Task
unfolding insert_sorted compare_tasks
sort_tasks p [] = []
sort_tasks p (x ∷ xs) = insert_sorted p x (sort_tasks p xs)

-- `decoded.split('|')` with the parts behind the first joined again; `none` if there is no '|'.
unfoldable pub split_cursor : String → Option (String × String)
split_cursor String.[] = none
split_cursor (String.◌∷◌ c s) = elim (nat_eq (code c) b'|') [
  | true ↦ some ("", s)
  | false ↦ elim (split_cursor s) [ none ↦ none | some (a, b) ↦ some (String.◌∷◌ c a, b) ]
]

unfoldable pub is_cursor : String → String → Task → Bool
is_cursor stamp id t = timestamp_of t == stamp && t.id == id

-- The tasks behind the first that fits; none if no task fits.
unfoldable pub behind : (Task → Bool) → List Task → List Task
behind fits [] = []
behind fits (t ∷ ts) = if fits t then ts else behind fits ts

-- `tasks` cut down to what follows the page token.
unfoldable pub skip_to : Platform → String → List Task → Result (List Task)
unfolding split_cursor is_cursor behind
skip_to p token tasks =
    if truthy token
    then elim (split_cursor (p.decode token)) [
      | none ↦ err (request_malformed "Invalid page token format.")
      | some (stamp, id) ↦ ok (behind (is_cursor stamp id) tasks)
    ]
    else ok tasks

unfoldable pub page_token_of : Platform → Task → String
page_token_of p t = p.encode (String.◌++◌ (timestamp_of t) (String.◌++◌ "|" t.id))

abbrev pub last_of : List Task → Option Task
last_of [] = none
last_of (t ∷ []) = some t
last_of (t ∷ u ∷ ts) = last_of (u ∷ ts)

-- The token of the next page: empty if this page is the last.
unfoldable pub next_token : Platform → List Task → List Task → String
unfolding page_token_of
next_token p page tasks = elim (last_of page) [
  | none ↦ ""
  | some t ↦ if ltb (length page) (length tasks) then page_token_of p t else ""
]

abbrev pub strip_artifacts : Bool → Task → Task
strip_artifacts true t = t
strip_artifacts false t = record t { artifacts = [] }

-- The tasks of the caller that pass the filters, in order.
unfoldable pub matching :
    Platform → ListTasksRequest → ServerCallContext → InMemoryTaskStore → List Task
unfolding filter_context filter_status filter_after sort_tasks
matching p q c s = sort_tasks p (
    filter_after p q.status_timestamp_after
      (filter_status q.status (filter_context q.context_id (values (or_else (get_bucket s c) [])))))

abbrev pub default_page_size : ℤ
default_page_size = pos 50

abbrev pub page_size_of : ListTasksRequest → ℤ
page_size_of q = or_else q.page_size default_page_size

unfoldable pub list :
    Platform → ListTasksRequest → ServerCallContext → InMemoryTaskStore → Result ListTasksResponse
unfolding matching skip_to next_token
list p q c s = do
  tasks ← skip_to p q.page_token (matching p q c s)
  let page = slice_to (page_size_of q) tasks
  ok (record {
    tasks = map (strip_artifacts (is_true q.include_artifacts)) page;
    next_page_token = next_token p page tasks;
    page_size = page_size_of q;
    total_size = pos (length (matching p q c s));
  })
