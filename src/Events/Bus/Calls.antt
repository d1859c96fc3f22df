-- ===== src/Events/Bus/Calls.antt =====
-- Calling every listener, and removing every listener.
use package.a2a_js.Prelude.{
  ℕ, String, Bool, true, false, not, List, [], ◌∷◌, ◌++◌, map, filter, any, nat_eq, All, All-imp,
  ◌==◌, ◌||◌, ◌≡◌, arith, refl, ap, sym, ◌∙◌, eq_refl, Bool-cases, inl, inr, append-nil, JsMap,
  values, append_assoc, map-append,
}
use package.a2a_js.Types.{nat_eq_iff}
use package.a2a_js.Events.Bus.{
  Registration, Channel, unregister, contains_wrapper, unregister_all, unregister_lists,
  remove_all_listeners, call_registration, call_all, dispatch,
}
use package.a2a_js.Events.Bus.Registrations.{
  HasUniqueWrappers, wrappers_of, Entry, entry_of, entries, unregister_at,
}
use package.a2a_js.Events.Bus.Invariant.{listed, IsConsistent}
use package.a2a_js.Events.Bus.Steps.{Shows, untrack_wrapped_listener-IsConsistent}

-- A call goes to every listener once, and keeps those that were not registered for one call.
abbrev pub kept_entries : List Entry → List Entry
kept_entries es = filter (λ e. not e.1) es

kept_once :
    (r : Registration) (es : List Entry)
    → r.once ≡ true
    → kept_entries (entry_of r ∷ es) ≡ kept_entries es
kept_once r es h = rw h refl

kept_more :
    (r : Registration) (es : List Entry)
    → r.once ≡ false
    → kept_entries (entry_of r ∷ es) ≡ entry_of r ∷ kept_entries es
kept_more r es h = rw h refl

call_again :
    (ch : Channel) (r : Registration) (rs : List Registration)
    → r.once ≡ false
    → call_all (r ∷ rs) ch ≡ call_all rs ch
unfolding call_all call_registration
call_again ch r rs h = ap (call_all rs) (rw h refl)

after_call :
    (ch : Channel) (pre : List Registration) (r : Registration) (post : List Registration)
    → IsConsistent ch
    → ch.registered ≡ pre ++ r ∷ post
    → r.once ≡ true
    → IsConsistent (call_registration r ch) × ((call_registration r ch).registered ≡ pre ++ post)
unfolding call_registration
after_call ch pre r post h shape once =
    let unique : HasUniqueWrappers (pre ++ r ∷ post) = rw shape at h.unique in
    rw once (
      untrack_wrapped_listener-IsConsistent ch pre r post h shape,
      rw shape (unregister_at pre r post unique),
    )

call_all-Shows :
    (ch : Channel) (pre rs : List Registration)
    → IsConsistent ch
    → ch.registered ≡ pre ++ rs
    → Shows (call_all rs ch) (entries pre ++ kept_entries (entries rs))
unfolding call_all
call_all-Shows ch pre [] h shape = (h, rw (shape, append-nil pre, append-nil (entries pre)) refl)
call_all-Shows ch pre (r ∷ rs) h shape = elim (Bool-cases r.once) [
  | inl once ↦
      let after = after_call ch pre r rs h shape once in
      rw (kept_once r (entries rs) once)
        (call_all-Shows (call_registration r ch) pre rs after.0 after.1)
  | inr stays ↦
      let again = shape ∙ sym (append_assoc pre (r ∷ []) rs) in
      let next = call_all-Shows ch (pre ++ r ∷ []) rs h again in
      let order : entries (pre ++ r ∷ []) ++ kept_entries (entries rs)
          ≡ entries pre ++ entry_of r ∷ kept_entries (entries rs) =
        rw
          (
            map-append entry_of pre (r ∷ []),
            append_assoc (entries pre) (entry_of r ∷ []) (kept_entries (entries rs)),
          )
          refl in
      rw (kept_more r (entries rs) stays, call_again ch r rs stays) (next.0, next.1 ∙ order)
]

pub dispatch-Shows :
    (ch : Channel)
    → IsConsistent ch
    → ((dispatch ch).0 ≡ map (λ e. e.0) (entries ch.registered))
      × Shows (dispatch ch).1 (kept_entries (entries ch.registered))
unfolding dispatch
dispatch-Shows ch h = (listeners_of ch.registered, call_all-Shows ch [] ch.registered h refl)
  where
    listeners_of : (rs : List Registration) → map (λ r. r.listener) rs ≡ map (λ e. e.0) (entries rs)
    listeners_of [] = refl
    listeners_of (r ∷ rs) = ap (◌∷◌ r.listener) (listeners_of rs)

-- The registrations whose wrapper is among some lists.
abbrev IsAmong : List ℕ → (Registration → Bool) → Registration → Type 0
IsAmong ids else_case r = (contains_wrapper r.wrapper ids || else_case r) ≡ true

unregister-IsAmong :
    (id : ℕ) (ids : List ℕ) (f : Registration → Bool) (rs : List Registration)
    → All (IsAmong (id ∷ ids) f) rs
    → All (IsAmong ids f) (unregister id rs)
unfolding unregister
unregister-IsAmong id ids f [] h = tt
unregister-IsAmong id ids f (r ∷ rs) (p, h) = elim (Bool-cases (nat_eq r.wrapper id)) [
  | inl same ↦ rw same (unregister-IsAmong id ids f rs h)
  | inr other ↦
      let here : IsAmong ids f r =
        ground (arith, p, other, nat_eq_iff r.wrapper id, nat_eq_iff id r.wrapper) in
      rw other (here, unregister-IsAmong id ids f rs h)
]

unregister_all-IsAmong :
    (ids : List ℕ) (f : Registration → Bool) (rs : List Registration)
    → All (IsAmong ids f) rs
    → All (λ r. f r ≡ true) (unregister_all ids rs)
unregister_all-IsAmong [] f rs h = h
unregister_all-IsAmong (id ∷ ids) f rs h =
    unregister_all-IsAmong ids f (unregister id rs) (unregister-IsAmong id ids f rs h)

abbrev in_some : List (List ℕ) → Registration → Bool
in_some lists r = any (contains_wrapper r.wrapper) lists

unregister_lists-empty :
    (lists : List (List ℕ)) (rs : List Registration)
    → All (λ r. in_some lists r ≡ true) rs
    → unregister_lists lists rs ≡ []
unregister_lists-empty [] [] h = refl
unregister_lists-empty [] (r ∷ rs) (p, h) = cc
unregister_lists-empty (ids ∷ lists) rs h =
    unregister_lists-empty lists (unregister_all ids rs)
      (unregister_all-IsAmong ids (in_some lists) rs h)

contains_own_wrapper :
    (rs : List Registration)
    → All (λ r. contains_wrapper r.wrapper (wrappers_of r.listener rs) ≡ true) rs
contains_own_wrapper [] = tt
contains_own_wrapper (r ∷ rs) = (
  rw (eq_refl r.listener) ground (arith, nat_eq_iff r.wrapper r.wrapper),
  All-imp (λ q. contains_wrapper q.wrapper (wrappers_of q.listener rs) ≡ true)
      (λ q. contains_wrapper q.wrapper (wrappers_of q.listener (r ∷ rs)) ≡ true) rs
      (λ q p. ground (arith, p)) (contains_own_wrapper rs),
)

in_some-values :
    (r : Registration) (l : String) (m : JsMap (List ℕ))
    → contains_wrapper r.wrapper (listed l m) ≡ true
    → in_some (values m) r ≡ true
in_some-values r l [] h = cc
in_some-values r l ((j, ids) ∷ m) h = elim (Bool-cases (j == l)) [
  | inl here ↦ let found : contains_wrapper r.wrapper ids ≡ true = rw here at h in rw found refl
  | inr other ↦
      let found : contains_wrapper r.wrapper (listed l m) ≡ true = rw other at h in
      let rest = in_some-values r l m found in ground (arith, rest)
]

pub remove_all_listeners-Shows :
    (ch : Channel) → IsConsistent ch → Shows (remove_all_listeners ch) []
unfolding remove_all_listeners
remove_all_listeners-Shows ch h =
    let own = contains_own_wrapper ch.registered in
    let covered =
      All-imp (λ r. contains_wrapper r.wrapper (wrappers_of r.listener ch.registered) ≡ true)
        (λ r. in_some (values ch.tracked) r ≡ true) ch.registered
        (λ r p. in_some-values r r.listener ch.tracked (rw (h.agrees r.listener) p)) own in
    let gone = unregister_lists-empty (values ch.tracked) ch.registered covered in
    rw gone (record { agrees = λ l. refl; unique = tt; fresh = tt }, refl)
