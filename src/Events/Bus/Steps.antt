-- ===== src/Events/Bus/Steps.antt =====
-- What each operation of the bus does to the entries that a caller knows of.
use package.a2a_js.Prelude.{
  ℕ, String, true, false, List, [], ◌∷◌, ◌++◌, any-append, nat_eq, ◌==◌, ◌≡◌, arith, refl, ap, sym,
  ◌∙◌, eq_refl, Bool-cases, inl, inr, append-nil,
}
use package.a2a_js.Types.{nat_eq_iff}
use package.a2a_js.Events.Bus.{
  Registration, Channel, unregister, remove_wrapper, contains_wrapper, untrack_wrapped_listener,
  but_last, pop_listener, remove_listener,
}
use package.a2a_js.Events.Bus.Registrations.{
  has_wrapper, HasUniqueWrappers, wrappers_of, Entry, entries, remove_last, find_last,
  unregister_at, wrappers_of-append, remove_last_at, remove_last_of_no_wrappers,
}
use package.a2a_js.Events.Bus.Invariant.{listed, IsConsistent, without-IsConsistent}

-- The consistent bus of certain entries.
abbrev pub Shows : Channel → List Entry → Type 0
Shows ch es = IsConsistent ch × (entries ch.registered ≡ es)

pop_listener-Shows :
    (l : String) (ids : List ℕ) (ch : Channel)
    → IsConsistent ch
    → wrappers_of l ch.registered ≡ ids
    → Shows (pop_listener l ids ch) (remove_last l (entries ch.registered))
pop_listener-Shows l [] ch h e = (h, sym (remove_last_of_no_wrappers l ch.registered e))
pop_listener-Shows l (x ∷ xs) ch h e =
    let at = find_last l x xs ch.registered e in
    let kept : but_last x xs ≡ wrappers_of l at.pre ++ wrappers_of l at.post =
      rw (at.before, at.ends, append-nil (wrappers_of l at.pre)) refl in
    let unique : HasUniqueWrappers (at.pre ++ at.found ∷ at.post) = rw at.shape at h.unique in
    let left = unregister_at at.pre at.found at.post unique in
    rw at.is_last (
      without-IsConsistent ch l (but_last x xs) at.pre at.found at.post h at.shape at.belongs kept,
      rw (at.shape, left) (sym (remove_last_at l at.pre at.found at.post at.belongs at.ends)),
    )

pub remove_listener-Shows :
    (l : String) (ch : Channel)
    → IsConsistent ch
    → Shows (remove_listener l ch) (remove_last l (entries ch.registered))
unfolding remove_listener
remove_listener-Shows l ch h = pop_listener-Shows l (listed l ch.tracked) ch h (sym (h.agrees l))

-- `indexOf` and `splice` at the wrapper's place.
contains_wrapper_at : (id : ℕ) (xs ys : List ℕ) → contains_wrapper id (xs ++ id ∷ ys) ≡ true
contains_wrapper_at id [] ys = ground (arith, nat_eq_iff id id)
contains_wrapper_at id (x ∷ xs) ys = ground (arith, contains_wrapper_at id xs ys)

remove_wrapper_at :
    (id : ℕ) (xs ys : List ℕ)
    → contains_wrapper id xs ≡ false
    → remove_wrapper id (xs ++ id ∷ ys) ≡ xs ++ ys
unfolding remove_wrapper
remove_wrapper_at id [] ys h = ground (arith, nat_eq_iff id id)
remove_wrapper_at id (x ∷ xs) ys h = elim (Bool-cases (nat_eq x id)) [
  | inl same ↦ let clash = rw same at h in cc
  | inr other ↦
      let rest : contains_wrapper id xs ≡ false = rw other at h in
      rw other (ap (◌∷◌ x) (remove_wrapper_at id xs ys rest))
]

contains_wrapper-wrappers_of :
    (id : ℕ) (l : String) (rs : List Registration)
    → has_wrapper id rs ≡ false
    → contains_wrapper id (wrappers_of l rs) ≡ false
contains_wrapper-wrappers_of id l [] h = refl
contains_wrapper-wrappers_of id l (r ∷ rs) h =
    let later : has_wrapper id rs ≡ false = ground (arith, h) in
    let rest = contains_wrapper-wrappers_of id l rs later in
    let here : nat_eq r.wrapper id ≡ false = ground (arith, h) in
    elim (Bool-cases (r.listener == l)) [
      | inl same ↦ rw (same, here) rest
      | inr other ↦ rw other rest
    ]

has_wrapper_before :
    (pre : List Registration) (r : Registration) (post : List Registration)
    → HasUniqueWrappers (pre ++ r ∷ post)
    → has_wrapper r.wrapper pre ≡ false
has_wrapper_before [] r post h = refl
has_wrapper_before (p ∷ pre) r post (absent, h) = ground (
  arith,
  absent,
  any-append (λ q. nat_eq q.wrapper p.wrapper) pre (r ∷ post),
  nat_eq_iff p.wrapper r.wrapper,
  nat_eq_iff r.wrapper p.wrapper,
  has_wrapper_before pre r post h,
)

-- The wrapper of a call takes itself out of the map.
pub untrack_wrapped_listener-IsConsistent :
    (ch : Channel) (pre : List Registration) (r : Registration) (post : List Registration)
    → IsConsistent ch
    → ch.registered ≡ pre ++ r ∷ post
    → IsConsistent record ch {
      tracked = untrack_wrapped_listener r.listener r.wrapper ch.tracked;
      registered = unregister r.wrapper ch.registered;
    }
unfolding untrack_wrapped_listener
untrack_wrapped_listener-IsConsistent ch pre r post h shape =
    let l = r.listener in
    let unique : HasUniqueWrappers (pre ++ r ∷ post) = rw shape at h.unique in
    let front =
      contains_wrapper-wrappers_of r.wrapper l pre (has_wrapper_before pre r post unique) in
    let held : listed l ch.tracked ≡ wrappers_of l pre ++ r.wrapper ∷ wrappers_of l post =
      h.agrees l ∙ rw (shape, wrappers_of-append l pre (r ∷ post), eq_refl l) refl in
    let found = contains_wrapper_at r.wrapper (wrappers_of l pre) (wrappers_of l post) in
    let removed : remove_wrapper r.wrapper (listed l ch.tracked)
        ≡ wrappers_of l pre ++ wrappers_of l post =
      rw held (remove_wrapper_at r.wrapper (wrappers_of l pre) (wrappers_of l post) front) in
    let present : contains_wrapper r.wrapper (listed l ch.tracked) ≡ true = rw held found in
    rw present (
      without-IsConsistent ch l (remove_wrapper r.wrapper (listed l ch.tracked)) pre r post h shape
        (eq_refl l) removed)
