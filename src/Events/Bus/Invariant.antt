-- ===== src/Events/Bus/Invariant.antt =====
-- The map of wrappers agrees with the registrations of the event target, and every operation of the
-- bus keeps it so.
use package.a2a_js.Prelude.{
  ℕ, ◌<◌, ◌+◌, String, Bool, true, false, not, List, [], ◌∷◌, ◌++◌, any-append, nat_eq, All,
  All-append, All-filter, All-imp, if◌then◌else◌, ◌==◌, ◌≡◌, arith, refl, sym, ◌∙◌, eq_iff,
  Bool-cases, inl, inr, append-nil, get, get-set, get-delete, or_else, JsMap,
}
use package.a2a_js.Types.{nat_eq_iff}
use package.a2a_js.Events.Bus.{
  Registration, Channel, new_channel, unregister, track_listener, put_back, add_listener,
}
use package.a2a_js.Events.Bus.Registrations.{
  has_wrapper, HasUniqueWrappers, wrappers_of, unregister_at, unregister-HasUniqueWrappers,
  wrappers_of-append,
}

abbrev pub listed : String → JsMap (List ℕ) → List ℕ
listed l m = or_else (get l m) []

abbrev pub Agrees : JsMap (List ℕ) → List Registration → Type 0
Agrees m rs = (l : String) → listed l m ≡ wrappers_of l rs

abbrev pub IsFresh : ℕ → List Registration → Type 0
IsFresh n rs = All (λ r. r.wrapper < n) rs

pub record IsConsistent (ch : Channel) : Type 0 where
  pub agrees : Agrees ch.tracked ch.registered
  pub unique : HasUniqueWrappers ch.registered
  pub fresh : IsFresh ch.next_wrapper ch.registered

pub new_channel-IsConsistent : IsConsistent new_channel
unfolding new_channel
new_channel-IsConsistent = record { agrees = λ l. refl; unique = tt; fresh = tt }

listed-put_back :
    (l j : String) (ids : List ℕ) (m : JsMap (List ℕ))
    → listed j (put_back l ids m) ≡ (if l == j then ids else listed j m)
listed-put_back l j [] m = ground (arith, get-delete l j m)
listed-put_back l j (id ∷ ids) m = ground (arith, get-set l j (id ∷ ids) m)

-- A registration removed from both sides.
Agrees-put_back :
    (l : String) (ids : List ℕ) (m : JsMap (List ℕ)) (pre : List Registration) (r : Registration)
    (post : List Registration)
    → Agrees m (pre ++ r ∷ post)
    → (r.listener == l) ≡ true
    → ids ≡ wrappers_of l pre ++ wrappers_of l post
    → Agrees (put_back l ids m) (pre ++ post)
Agrees-put_back l ids m pre r post h same e j =
    let old = h j in
    let is_l : r.listener ≡ l = ground (arith, eq_iff r.listener l) in
    rw (listed-put_back l j ids m, wrappers_of-append j pre post)
      elim (Bool-cases (l == j)) [
        | inl here ↦ let moved : l ≡ j = ground (arith, eq_iff l j) in rw (here, sym moved) e
        | inr other ↦
            let apart : (r.listener == j) ≡ false = rw is_l other in
            let split = wrappers_of-append j pre (r ∷ post) in
            rw other (old ∙ rw (split, apart) refl)
      ]

pub unregister-IsFresh :
    (id n : ℕ) (rs : List Registration) → IsFresh n rs → IsFresh n (unregister id rs)
unfolding unregister
unregister-IsFresh id n rs h = All-filter (λ r. r.wrapper < n) (λ r. not (nat_eq r.wrapper id)) rs h

-- What an operation leaves when it takes out one registration and its wrapper.
pub without-IsConsistent :
    (ch : Channel) (l : String) (ids : List ℕ) (pre : List Registration) (r : Registration)
    (post : List Registration)
    → IsConsistent ch
    → ch.registered ≡ pre ++ r ∷ post
    → (r.listener == l) ≡ true
    → ids ≡ wrappers_of l pre ++ wrappers_of l post
    → IsConsistent record ch {
      tracked = put_back l ids ch.tracked;
      registered = unregister r.wrapper ch.registered;
    }
without-IsConsistent ch l ids pre r post h shape same e =
    let unique : HasUniqueWrappers (pre ++ r ∷ post) = rw shape at h.unique in
    let agrees : Agrees ch.tracked (pre ++ r ∷ post) = rw shape at h.agrees in
    let left = unregister_at pre r post unique in
    record {
      agrees = rw (shape, left) (Agrees-put_back l ids ch.tracked pre r post agrees same e);
      unique = unregister-HasUniqueWrappers r.wrapper ch.registered h.unique;
      fresh = unregister-IsFresh r.wrapper ch.next_wrapper ch.registered h.fresh;
    }

has_wrapper_fresh : (n : ℕ) (rs : List Registration) → IsFresh n rs → has_wrapper n rs ≡ false
has_wrapper_fresh n [] h = refl
has_wrapper_fresh n (r ∷ rs) (p, h) =
    ground (arith, has_wrapper_fresh n rs h, nat_eq_iff r.wrapper n)

append-HasUniqueWrappers :
    (rs : List Registration) (r : Registration)
    → HasUniqueWrappers rs
    → IsFresh r.wrapper rs
    → HasUniqueWrappers (rs ++ r ∷ [])
append-HasUniqueWrappers [] r h f = (refl, tt)
append-HasUniqueWrappers (x ∷ rs) r (p, h) (q, f) = (
  rw (any-append (λ y. nat_eq y.wrapper x.wrapper) rs (r ∷ []), p) ground
      (arith, nat_eq_iff r.wrapper x.wrapper),
  append-HasUniqueWrappers rs r h f,
)

listed-track_listener :
    (l j : String) (id : ℕ) (m : JsMap (List ℕ))
    → listed j (track_listener l id m) ≡ (if l == j then listed l m ++ id ∷ [] else listed j m)
unfolding track_listener
listed-track_listener l j id m = ground (arith, get-set l j (listed l m ++ id ∷ []) m)

add_listener-Agrees :
    (once : Bool) (l : String) (ch : Channel)
    → IsConsistent ch
    → Agrees (add_listener once l ch).tracked (add_listener once l ch).registered
unfolding add_listener
add_listener-Agrees once l ch h j =
    let added : Registration = record { wrapper = ch.next_wrapper; listener = l; once = once } in
    let old = h.agrees j in
    rw
      (
        listed-track_listener l j ch.next_wrapper ch.tracked,
        wrappers_of-append j ch.registered (added ∷ []),
        sym old,
      )
      elim (Bool-cases (l == j)) [
        | inl here ↦ let moved : l ≡ j = ground (arith, eq_iff l j) in rw (here, sym moved) refl
        | inr other ↦ rw other (sym (append-nil (listed j ch.tracked)))
      ]

pub add_listener-IsConsistent :
    (once : Bool) (l : String) (ch : Channel)
    → IsConsistent ch
    → IsConsistent (add_listener once l ch)
unfolding add_listener
add_listener-IsConsistent once l ch h =
    let added : Registration = record { wrapper = ch.next_wrapper; listener = l; once = once } in
    let below =
      All-imp (λ r. r.wrapper < ch.next_wrapper) (λ r. r.wrapper < ch.next_wrapper + 1)
        ch.registered (λ r p. omega arith) h.fresh in
    record {
      agrees = add_listener-Agrees once l ch h;
      unique = append-HasUniqueWrappers ch.registered added h.unique h.fresh;
      fresh =
          All-append (λ r. r.wrapper < ch.next_wrapper + 1) ch.registered (added ∷ []) below
            (omega arith, tt);
    }
