-- ===== src/Events/Bus.antt =====
-- `DefaultExecutionEventBus` of src/server/events/execution_event_bus.ts, for one of its two event
-- names: it treats 'event' and 'finished' alike, each with a map and registrations of its own. A
-- listener is known by a name, and a wrapper by the number of its creation. Listeners that change
-- the bus while it calls them are not modelled.
pub mod Registrations
pub mod Invariant
pub mod Steps
pub mod Calls
pub mod Refinement
use package.a2a_js.Prelude.{
  ℕ, ◌+◌, String, Bool, true, false, not, Option, none, some, List, [], ◌∷◌, ◌++◌, map, filter,
  JsMap, get, set, delete, values, or_else, is_empty, nat_eq, if◌then◌else◌,
}

-- A listener of the `EventTarget` that the bus extends.
pub record Registration : Type 0 where
  pub wrapper : ℕ
  pub listener : String
  pub once : Bool

pub record Channel : Type 0 where
  -- `eventListeners` or `finishedListeners`.
  pub tracked : JsMap (List ℕ)
  -- The listeners of the `EventTarget`, in the order in which it calls them.
  pub registered : List Registration
  pub next_wrapper : ℕ

unfoldable pub new_channel : Channel
new_channel = record { tracked = []; registered = []; next_wrapper = 0 }

-- `removeEventListener`: a wrapper is registered at most once.
unfoldable pub unregister : ℕ → List Registration → List Registration
unregister id rs = filter (λ r. not (nat_eq r.wrapper id)) rs

-- `trackListener`.
unfoldable pub track_listener : String → ℕ → JsMap (List ℕ) → JsMap (List ℕ)
track_listener l id m = set l (or_else (get l m) [] ++ id ∷ []) m

-- A list of wrappers put back into the map, where it is not empty.
abbrev pub put_back : String → List ℕ → JsMap (List ℕ) → JsMap (List ℕ)
put_back l ids m = if is_empty ids then delete l m else set l ids m

-- `indexOf` and `splice`.
unfoldable pub remove_wrapper : ℕ → List ℕ → List ℕ
remove_wrapper id [] = []
remove_wrapper id (x ∷ xs) = let rest = remove_wrapper id xs in if nat_eq x id then xs else x ∷ rest

abbrev pub contains_wrapper : ℕ → List ℕ → Bool
contains_wrapper id [] = false
contains_wrapper id (x ∷ xs) = if nat_eq x id then true else contains_wrapper id xs

-- `untrackWrappedListener`.
unfoldable pub untrack_wrapped_listener : String → ℕ → JsMap (List ℕ) → JsMap (List ℕ)
unfolding remove_wrapper
untrack_wrapped_listener l id m =
    let ids = or_else (get l m) [] in
    if contains_wrapper id ids then put_back l (remove_wrapper id ids) m else m

-- `addEventListenerInternal` and `addEventListenerOnceInternal`.
unfoldable pub add_listener : Bool → String → Channel → Channel
unfolding track_listener
add_listener once l ch = record {
  tracked = track_listener l ch.next_wrapper ch.tracked;
  registered =
      ch.registered ++ record { wrapper = ch.next_wrapper; listener = l; once = once } ∷ [];
  next_wrapper = ch.next_wrapper + 1;
}

-- `pop` of a list that is not empty: what it leaves, and what it returns.
abbrev pub but_last : ℕ → List ℕ → List ℕ
but_last x [] = []
but_last x (y ∷ ys) = x ∷ but_last y ys

abbrev pub last_of : ℕ → List ℕ → ℕ
last_of x [] = x
last_of x (y ∷ ys) = last_of y ys

abbrev pub pop_listener : String → List ℕ → Channel → Channel
pop_listener l [] ch = ch
pop_listener l (x ∷ xs) ch = record ch {
  tracked = put_back l (but_last x xs) ch.tracked;
  registered = unregister (last_of x xs) ch.registered;
}

-- `removeEventListenerInternal`.
unfoldable pub remove_listener : String → Channel → Channel
unfolding unregister
remove_listener l ch = pop_listener l (or_else (get l ch.tracked) []) ch

abbrev pub unregister_all : List ℕ → List Registration → List Registration
unregister_all [] rs = rs
unregister_all (id ∷ ids) rs = unregister_all ids (unregister id rs)

abbrev pub unregister_lists : List (List ℕ) → List Registration → List Registration
unregister_lists [] rs = rs
unregister_lists (ids ∷ lists) rs = unregister_lists lists (unregister_all ids rs)

-- `removeAllListeners`.
unfoldable pub remove_all_listeners : Channel → Channel
unfolding unregister
remove_all_listeners ch = record ch {
  tracked = [];
  registered = unregister_lists (values ch.tracked) ch.registered;
}

-- What the call of a registration changes: one that is for one call is unregistered by the
-- `EventTarget`, and its wrapper untracks itself.
unfoldable pub call_registration : Registration → Channel → Channel
unfolding unregister untrack_wrapped_listener
call_registration r ch =
    if r.once
    then record ch {
      tracked = untrack_wrapped_listener r.listener r.wrapper ch.tracked;
      registered = unregister r.wrapper ch.registered;
    }
    else ch

unfoldable pub call_all : List Registration → Channel → Channel
unfolding call_registration
call_all [] ch = ch
call_all (r ∷ rs) ch = call_all rs (call_registration r ch)

-- `publish` or `finished`: the listeners that are called, in order, and the bus afterwards.
unfoldable pub dispatch : Channel → List String × Channel
unfolding call_all
dispatch ch = (map (λ r. r.listener) ch.registered, call_all ch.registered ch)
