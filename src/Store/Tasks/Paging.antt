-- ===== src/Store/Tasks/Paging.antt =====
-- A page token of `InMemoryTaskStore` leads to what follows its page, whichever page that is.
use package.a2a_js.Prelude.{
  ℕ, zero, suc, ◌<◌, ◌≤◌, ◌++◌, any-append, ltb, if◌then◌else◌, Option, none, String, Bool, true,
  false, ◌||◌, some, List, [], ◌∷◌, nat_eq, truthy, any, length, take, drop, All, subst, Bool-cases,
  inl, inr, arith, refl, ◌≡◌, ◌==◌, eq_iff, eq_refl, sym, ap, ◌∙◌,
}
use Prim.Native.Char.{Char, code}
use Prim.Native.String
use Prim.Native.String.append
use package.a2a_js.Types.{Task}
use package.a2a_js.Errors.{ok}
use package.a2a_js.Store.Tasks.{
  Platform, timestamp_of, split_cursor, is_cursor, behind, skip_to, page_token_of, next_token,
  last_of,
}

abbrev pub has_bar : String → Bool
has_bar String.[] = false
has_bar (String.◌∷◌ c s) = nat_eq (code c) b'|' || has_bar s

abbrev bar : Char
bar = "|"

split_cursor-append :
    (stamp id : String)
    → has_bar stamp ≡ false
    → split_cursor (String.◌++◌ stamp (String.◌++◌ "|" id)) ≡ some (stamp, id)
unfolding split_cursor
split_cursor-append String.[] id h =
    ap split_cursor (append.nil _ ∙ append.cons _ _ _ ∙ ap (String.◌∷◌ bar) (append.nil id))
split_cursor-append (String.◌∷◌ c s) id h = elim (Bool-cases (nat_eq (code c) b'|')) [
  | inl hit ↦ let clash = rw hit at h in cc
  | inr other ↦
      let rest_clear : has_bar s ≡ false = rw other at h in
      ap split_cursor (append.cons c s _)
      ∙ rw (other, split_cursor) (rw (split_cursor-append s id rest_clear) refl)
]

-- Each id stands once.
abbrev pub HasUniqueTasks : List Task → Type 0
HasUniqueTasks [] = Unit
HasUniqueTasks (t ∷ ts) = (any (λ u. u.id == t.id) ts ≡ false) × HasUniqueTasks ts

any-last :
    (n : ℕ) (ts : List Task) (t : Task)
    → last_of (take (suc n) ts) ≡ some t
    → any (λ u. u.id == t.id) ts ≡ true
any-last n [] t h = cc
any-last zero (u ∷ ts) t h = let same : u ≡ t = cc in rw (same, eq_refl) refl
any-last (suc n) (u ∷ []) t h = let same : u ≡ t = cc in rw (same, eq_refl) refl
any-last (suc n) (u ∷ v ∷ ts) t h =
    let found : any (λ x. x.id == t.id) (v ∷ ts) ≡ true = any-last n (v ∷ ts) t h in
    ground (arith, found)

last-All :
    (P : Task → Type 0) (n : ℕ) (ts : List Task) (t : Task)
    → All P ts
    → last_of (take n ts) ≡ some t
    → P t
last-All P zero ts t h e = cc
last-All P (suc n) [] t h e = cc
last-All P (suc zero) (u ∷ ts) t (pu, h) e = let same : u ≡ t = cc in rw (← same) pu
last-All P (suc (suc n)) (u ∷ []) t (pu, h) e = let same : u ≡ t = cc in rw (← same) pu
last-All P (suc (suc n)) (u ∷ v ∷ ts) t (pu, h) e = last-All P (suc n) (v ∷ ts) t h e

is_cursor_self : (t : Task) → is_cursor (timestamp_of t) t.id t ≡ true
unfolding is_cursor
is_cursor_self t = rw (eq_refl, eq_refl) refl

is_cursor_of_other :
    (stamp id : String) (u : Task) → (u.id == id) ≡ false → is_cursor stamp id u ≡ false
unfolding is_cursor
is_cursor_of_other stamp id u h = ground (arith, h)

behind_of_last :
    (n : ℕ) (ts : List Task) (t : Task)
    → HasUniqueTasks ts
    → last_of (take (suc n) ts) ≡ some t
    → behind (is_cursor (timestamp_of t) t.id) ts ≡ drop (suc n) ts
unfolding behind
behind_of_last n [] t v h = cc
behind_of_last zero (u ∷ ts) t v h = let same : u ≡ t = cc in rw (same, is_cursor_self t) refl
behind_of_last (suc n) (u ∷ []) t v h = let same : u ≡ t = cc in rw (same, is_cursor_self t) refl
behind_of_last (suc n) (u ∷ w ∷ ts) t (new, v) h = elim (Bool-cases (u.id == t.id)) [
  | inl same ↦
      let found = any-last n (w ∷ ts) t h in
      let ids : u.id ≡ t.id = (eq_iff u.id t.id).0 same in
      let clash = subst (λ i. any (λ (x : Task). x.id == i) (w ∷ ts) ≡ true) (sym ids) found in cc
  | inr other ↦
      rw (is_cursor_of_other (timestamp_of t) t.id u other) (behind_of_last n (w ∷ ts) t v h)
]

-- The same, where the page does not start with the first task.
behind_of_page :
    (n : ℕ) (before ts : List Task) (t : Task)
    → HasUniqueTasks (before ++ ts)
    → last_of (take (suc n) ts) ≡ some t
    → behind (is_cursor (timestamp_of t) t.id) (before ++ ts) ≡ drop (suc n) ts
unfolding behind
behind_of_page n [] ts t v h = behind_of_last n ts t v h
behind_of_page n (u ∷ before) ts t (new, v) h = elim (Bool-cases (u.id == t.id)) [
  | inl same ↦
      let found : any (λ x. x.id == t.id) (before ++ ts) ≡ true =
        ground (arith, any-append (λ (x : Task). x.id == t.id) before ts, any-last n ts t h) in
      let ids : u.id ≡ t.id = (eq_iff u.id t.id).0 same in
      let clash =
        subst (λ i. any (λ (x : Task). x.id == i) (before ++ ts) ≡ true) (sym ids) found in
      cc
  | inr other ↦
      rw (is_cursor_of_other (timestamp_of t) t.id u other) (behind_of_page n before ts t v h)
]

skip_to_of_split :
    (p : Platform) (token stamp id : String) (ts : List Task)
    → p.decode "" ≡ ""
    → split_cursor (p.decode token) ≡ some (stamp, id)
    → skip_to p token ts ≡ ok (behind (is_cursor stamp id) ts)
unfolding skip_to split_cursor
skip_to_of_split p token stamp id ts empty_ h = elim (Bool-cases (truthy token)) [
  | inl given ↦ rw (given, skip_to) (rw h refl)
  | inr absent ↦
      let blank : token ≡ "" = ground (arith, eq_iff token "") in
      let clash = rw (blank, empty_) at h in cc
]

truthy_of_split :
    (p : Platform) (token stamp id : String)
    → p.decode "" ≡ ""
    → split_cursor (p.decode token) ≡ some (stamp, id)
    → truthy token ≡ true
unfolding split_cursor
truthy_of_split p token stamp id empty_ h = elim (Bool-cases (truthy token)) [
  | inl given ↦ given
  | inr absent ↦
      let blank : token ≡ "" = ground (arith, eq_iff token "") in
      let clash = rw (blank, empty_) at h in cc
]

pub take_of_fits : (n : ℕ) (ts : List Task) → length ts ≤ n → take n ts ≡ ts
take_of_fits zero [] h = refl
take_of_fits zero (t ∷ ts) h = absurd (omega (arith, h))
take_of_fits (suc n) [] h = refl
take_of_fits (suc n) (t ∷ ts) h =
    let shorter : length ts ≤ n = omega (arith, h) in ap (◌∷◌ t) (take_of_fits n ts shorter)

length-take_of_lt : (n : ℕ) (ts : List Task) → n < length ts → length (take n ts) ≡ n
length-take_of_lt zero ts h = refl
length-take_of_lt (suc n) [] h = omega (arith, h)
length-take_of_lt (suc n) (t ∷ ts) h =
    let shorter : n < length ts = omega (arith, h) in ap suc (length-take_of_lt n ts shorter)

last_of-take :
    (n : ℕ) (ts : List Task) → suc n < length ts → (t : Task) × (last_of (take (suc n) ts) ≡ some t)
last_of-take n [] h = absurd (omega (arith, h))
last_of-take zero (t ∷ ts) h = (t, refl)
last_of-take (suc n) (t ∷ []) h = absurd (omega (arith, h))
last_of-take (suc n) (t ∷ u ∷ ts) h = last_of-take n (u ∷ ts) (omega (arith, h))

next_token_of_more :
    (p : Platform) (n : ℕ) (ts : List Task) (t : Task)
    → suc n < length ts
    → last_of (take (suc n) ts) ≡ some t
    → next_token p (take (suc n) ts) ts ≡ page_token_of p t
unfolding next_token
next_token_of_more p n ts t more last =
    let longer : ltb (suc n) (length ts) ≡ true = ground (arith, more) in
    rw (last, next_token) (rw (length-take_of_lt (suc n) ts more, longer) refl)

pub All-right : (P : Task → Type 0) (xs ys : List Task) → All P (xs ++ ys) → All P ys
All-right P [] ys h = h
All-right P (x ∷ xs) ys (px, h) = All-right P xs ys h

-- The token of a page that is not the last leads behind that page, to exactly the tasks that
-- follow it, whatever tasks stand before the page.
pub skip_to-next_token :
    (p : Platform) (n : ℕ) (before ts : List Task)
    → ((s : String) → p.decode (p.encode s) ≡ s)
    → p.decode "" ≡ ""
    → HasUniqueTasks (before ++ ts)
    → All (λ t. has_bar (timestamp_of t) ≡ false) (before ++ ts)
    → suc n < length ts
    → skip_to p (next_token p (take (suc n) ts) ts) (before ++ ts) ≡ ok (drop (suc n) ts)
unfolding page_token_of
skip_to-next_token p n before ts inverse empty_ unique clear more =
    let (t, last) = last_of-take n ts more in
    let no_bar : has_bar (timestamp_of t) ≡ false =
      last-All (λ u. has_bar (timestamp_of u) ≡ false) (suc n) ts t
        (All-right (λ u. has_bar (timestamp_of u) ≡ false) before ts clear) last in
    let split : split_cursor (p.decode (page_token_of p t)) ≡ some (timestamp_of t, t.id) =
      rw (inverse _) (split_cursor-append (timestamp_of t) t.id no_bar) in
    rw (next_token_of_more p n ts t more last) (
      skip_to_of_split p (page_token_of p t) (timestamp_of t) t.id (before ++ ts) empty_ split
      ∙ ap ok (behind_of_page n before ts t unique last))

-- A page that is not the last comes with a token that is not empty.
pub next_token_of_longer :
    (p : Platform) (n : ℕ) (ts : List Task)
    → ((s : String) → p.decode (p.encode s) ≡ s)
    → p.decode "" ≡ ""
    → All (λ t. has_bar (timestamp_of t) ≡ false) ts
    → suc n < length ts
    → truthy (next_token p (take (suc n) ts) ts) ≡ true
unfolding page_token_of
next_token_of_longer p n ts inverse empty_ clear more =
    let (t, last) = last_of-take n ts more in
    let no_bar : has_bar (timestamp_of t) ≡ false =
      last-All (λ u. has_bar (timestamp_of u) ≡ false) (suc n) ts t clear last in
    let split : split_cursor (p.decode (page_token_of p t)) ≡ some (timestamp_of t, t.id) =
      rw (inverse _) (split_cursor-append (timestamp_of t) t.id no_bar) in
    rw (next_token_of_more p n ts t more last)
      (truthy_of_split p (page_token_of p t) (timestamp_of t) t.id empty_ split)

-- The last page comes with the empty token.
pub next_token_of_shorter :
    (p : Platform) (n : ℕ) (ts : List Task) → length ts ≤ n → next_token p (take n ts) ts ≡ ""
unfolding next_token
next_token_of_shorter p n ts fits = rw (take_of_fits n ts fits) (last_page (last_of ts))
  where
    last_page :
        (o : Option Task)
        → ◌≡◌ {A = String}
            (elim o [
              | none ↦ ""
              | some t ↦ if ltb (length ts) (length ts) then page_token_of p t else ""
            ])
            ""
    last_page none = refl
    last_page (some t) = ground arith
