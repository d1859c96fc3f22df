-- ===== src/Events/Bus/Registrations.antt =====
-- Lists of registrations: their wrappers, and what remains of them when one is removed.
use package.a2a_js.Prelude.{
  ℕ, String, Bool, true, false, List, [], ◌∷◌, ◌++◌, map, any, any-append, nat_eq, if◌then◌else◌,
  ◌==◌, ◌≡◌, arith, refl, ap, sym, Bool-cases, inl, inr,
}
use package.a2a_js.Types.{nat_eq_iff}
use package.a2a_js.Events.Bus.{Registration, unregister, but_last, last_of}

abbrev pub has_wrapper : ℕ → List Registration → Bool
has_wrapper id = any (λ r. nat_eq r.wrapper id)

-- Each wrapper is registered once.
abbrev pub HasUniqueWrappers : List Registration → Type 0
HasUniqueWrappers [] = Unit
HasUniqueWrappers (r ∷ rs) = (has_wrapper r.wrapper rs ≡ false) × HasUniqueWrappers rs

-- The wrappers of a listener, in the order of their registration.
abbrev pub wrappers_of : String → List Registration → List ℕ
wrappers_of l [] = []
wrappers_of l (r ∷ rs) =
    let rest = wrappers_of l rs in if r.listener == l then r.wrapper ∷ rest else rest

-- What a registration is to the outside.
abbrev pub Entry : Type 0
Entry = String × Bool

abbrev pub entry_of : Registration → Entry
entry_of r = (r.listener, r.once)

abbrev pub entries : List Registration → List Entry
entries = map entry_of

abbrev pub has_entry : String → List Entry → Bool
has_entry l = any (λ e. e.0 == l)

-- `off` of an emitter: the last registration of the listener goes.
abbrev pub remove_last : String → List Entry → List Entry
remove_last l [] = []
remove_last l (e ∷ es) =
    let rest = remove_last l es in
    if has_entry l es then e ∷ rest else if e.0 == l then es else e ∷ es

pub unregister_absent :
    (id : ℕ) (rs : List Registration) → has_wrapper id rs ≡ false → unregister id rs ≡ rs
unfolding unregister
unregister_absent id [] h = refl
unregister_absent id (r ∷ rs) h = ground (arith, unregister_absent id rs)

has_entry-wrappers_of :
    (l : String) (rs : List Registration) → wrappers_of l rs ≡ [] → has_entry l (entries rs) ≡ false
has_entry-wrappers_of l [] h = refl
has_entry-wrappers_of l (r ∷ rs) h = elim (Bool-cases (r.listener == l)) [
  | inl same ↦ let clash = rw same at h in cc
  | inr other ↦ let rest = rw other at h in rw (other, has_entry-wrappers_of l rs rest) refl
]

-- A listener without registrations is not there to be removed.
pub remove_last_absent :
    (l : String) (es : List Entry) → has_entry l es ≡ false → remove_last l es ≡ es
remove_last_absent l [] h = refl
remove_last_absent l (e ∷ es) h = ground (arith, h)

pub remove_last_of_no_wrappers :
    (l : String) (rs : List Registration)
    → wrappers_of l rs ≡ []
    → remove_last l (entries rs) ≡ entries rs
remove_last_of_no_wrappers l rs h = remove_last_absent l (entries rs) (has_entry-wrappers_of l rs h)

pub wrappers_of-append :
    (l : String) (rs ss : List Registration)
    → wrappers_of l (rs ++ ss) ≡ wrappers_of l rs ++ wrappers_of l ss
wrappers_of-append l [] ss = refl
wrappers_of-append l (r ∷ rs) ss = elim (Bool-cases (r.listener == l)) [
  | inl same ↦ rw (same, wrappers_of-append l rs ss) refl
  | inr other ↦ rw (other, wrappers_of-append l rs ss) refl
]

pub has_wrapper_self :
    (r : Registration) (rs : List Registration) → has_wrapper r.wrapper (r ∷ rs) ≡ true
has_wrapper_self r rs = ground (arith, nat_eq_iff r.wrapper r.wrapper)

-- A registration between others is the only one that `unregister` takes.
pub unregister_at :
    (pre : List Registration) (r : Registration) (post : List Registration)
    → HasUniqueWrappers (pre ++ r ∷ post)
    → unregister r.wrapper (pre ++ r ∷ post) ≡ pre ++ post
unfolding unregister
unregister_at [] r post (absent, _) =
    let rest = unregister_absent r.wrapper post absent in
    ground (arith, nat_eq_iff r.wrapper r.wrapper, rest)
unregister_at (p ∷ pre) r post (absent, h) =
    let other : nat_eq p.wrapper r.wrapper ≡ false = ground (
      arith,
      absent,
      any-append (λ q. nat_eq q.wrapper p.wrapper) pre (r ∷ post),
      nat_eq_iff p.wrapper r.wrapper,
      nat_eq_iff r.wrapper p.wrapper,
    ) in
    rw other (ap (◌∷◌ p) (unregister_at pre r post h))

has_wrapper-unregister :
    (id j : ℕ) (rs : List Registration)
    → has_wrapper j rs ≡ false
    → has_wrapper j (unregister id rs) ≡ false
unfolding unregister
has_wrapper-unregister id j [] h = refl
has_wrapper-unregister id j (r ∷ rs) h = ground (arith, has_wrapper-unregister id j rs, h)

pub unregister-HasUniqueWrappers :
    (id : ℕ) (rs : List Registration) → HasUniqueWrappers rs → HasUniqueWrappers (unregister id rs)
unfolding unregister
unregister-HasUniqueWrappers id [] h = tt
unregister-HasUniqueWrappers id (r ∷ rs) (absent, h) = elim (Bool-cases (nat_eq r.wrapper id)) [
  | inl same ↦ rw same (unregister-HasUniqueWrappers id rs h)
  | inr other ↦
      rw other (has_wrapper-unregister id r.wrapper rs absent, unregister-HasUniqueWrappers id rs h)
]

-- Where the last registration of a listener with registrations stands.
pub record LastOf (l : String) (x : ℕ) (xs : List ℕ) (rs : List Registration) : Type 0 where
  pub pre : List Registration
  pub found : Registration
  pub post : List Registration
  pub shape : rs ≡ pre ++ found ∷ post
  pub belongs : (found.listener == l) ≡ true
  pub ends : wrappers_of l post ≡ []
  pub is_last : last_of x xs ≡ found.wrapper
  pub before : but_last x xs ≡ wrappers_of l pre

later_last :
    (l : String) (y x : ℕ) (xs : List ℕ) (r : Registration) (rs : List Registration)
    → (r.listener == l) ≡ true
    → r.wrapper ≡ y
    → LastOf l x xs rs
    → LastOf l y (x ∷ xs) (r ∷ rs)
later_last l y x xs r rs same first o = record {
  pre = r ∷ o.pre;
  found = o.found;
  post = o.post;
  shape = ap (◌∷◌ r) o.shape;
  belongs = o.belongs;
  ends = o.ends;
  is_last = o.is_last;
  before = rw (same, first, o.before) refl;
}

skip_last :
    (l : String) (x : ℕ) (xs : List ℕ) (r : Registration) (rs : List Registration)
    → (r.listener == l) ≡ false
    → LastOf l x xs rs
    → LastOf l x xs (r ∷ rs)
skip_last l x xs r rs other o = record {
  pre = r ∷ o.pre;
  found = o.found;
  post = o.post;
  shape = ap (◌∷◌ r) o.shape;
  belongs = o.belongs;
  ends = o.ends;
  is_last = o.is_last;
  before = rw (other, o.before) refl;
}

pub find_last :
    (l : String) (x : ℕ) (xs : List ℕ) (rs : List Registration)
    → wrappers_of l rs ≡ x ∷ xs
    → LastOf l x xs rs
find_last l x xs [] h = cc
find_last l x xs (r ∷ rs) h = elim (Bool-cases (r.listener == l)) [
  | inr other ↦ skip_last l x xs r rs other (find_last l x xs rs (rw other at h))
  | inl same ↦ split xs (λ y zs. find_last l y zs rs) same (rw same at h)
]
  where
    split :
        (ys : List ℕ)
        → ((y : ℕ) (zs : List ℕ) → wrappers_of l rs ≡ y ∷ zs → LastOf l y zs rs)
        → (r.listener == l) ≡ true
        → r.wrapper ∷ wrappers_of l rs ≡ x ∷ ys
        → LastOf l x ys (r ∷ rs)
    split [] later same e =
        let first : r.wrapper ≡ x = cc in
        let none_left : wrappers_of l rs ≡ [] = cc in
        record {
          pre = [];
          found = r;
          post = rs;
          shape = refl;
          belongs = same;
          ends = none_left;
          is_last = sym first;
          before = refl;
        }
    split (y ∷ ys) later same e =
        let first : r.wrapper ≡ x = cc in
        let rest : wrappers_of l rs ≡ y ∷ ys = cc in
        later_last l x y ys r rs same first (later y ys rest)

has_entry_at :
    (l : String) (pre : List Registration) (r : Registration) (post : List Registration)
    → (r.listener == l) ≡ true
    → has_entry l (entries (pre ++ r ∷ post)) ≡ true
has_entry_at l [] r post same = rw same refl
has_entry_at l (p ∷ pre) r post same = ground (arith, has_entry_at l pre r post same)

pub remove_last_at :
    (l : String) (pre : List Registration) (r : Registration) (post : List Registration)
    → (r.listener == l) ≡ true
    → wrappers_of l post ≡ []
    → remove_last l (entries (pre ++ r ∷ post)) ≡ entries (pre ++ post)
remove_last_at l [] r post same ends = rw (has_entry-wrappers_of l post ends, same) refl
remove_last_at l (p ∷ pre) r post same ends =
    let there : has_entry l (entries (pre ++ r ∷ post)) ≡ true = has_entry_at l pre r post same in
    rw there (ap (◌∷◌ (entry_of p)) (remove_last_at l pre r post same ends))
