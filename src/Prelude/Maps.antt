-- ===== src/Prelude/Maps.antt =====
-- A JavaScript `Map` with string keys, also a plain object read as one: entries in insertion
-- order, each key once.
use Prim.Native.String.{String}
use mathlib.Core.Path.{◌≡◌, refl}
use mathlib.Core.Option.{Option, none, some}
use mathlib.Core.List.{List, [], ◌∷◌, map}
use native.Mathlib.Omega.{arith}
use text.Mathlib.Text.{◌==◌}
use text.Mathlib.TextEquality.{eq_iff}
use package.a2a_js.Prelude.Tests.{if◌then◌else◌, is_some}

abbrev pub JsMap {ℓ} : Type ℓ → Type ℓ
JsMap V = List (String × V)

-- `m.get(k)`.
abbrev pub get {ℓ} : {V : Type ℓ} → String → JsMap V → Option V
get k [] = none
get k ((j, v) ∷ m) = if j == k then some v else get k m

-- `m.set(k, v)`: a new key goes to the end, an old one keeps its place.
abbrev pub set {ℓ} : {V : Type ℓ} → String → V → JsMap V → JsMap V
set k v [] = (k, v) ∷ []
set k v ((j, w) ∷ m) = if j == k then (k, v) ∷ m else (j, w) ∷ set k v m

-- `m.delete(k)`.
abbrev pub delete {ℓ} : {V : Type ℓ} → String → JsMap V → JsMap V
delete k [] = []
delete k ((j, w) ∷ m) = let rest = delete k m in if j == k then rest else (j, w) ∷ rest

-- `m.values()`.
abbrev pub values {ℓ} : {V : Type ℓ} → JsMap V → List V
values = map (λ e. e.1)

-- `{ ...a, ...b }`.
abbrev pub assign {ℓ} : {V : Type ℓ} → JsMap V → JsMap V → JsMap V
assign a [] = a
assign a ((k, v) ∷ b) = assign (set k v a) b

-- Each key stands once.
abbrev pub HasUniqueKeys {ℓ} : {V : Type ℓ} → JsMap V → Type ℓ
HasUniqueKeys [] = Unit
HasUniqueKeys ((k, v) ∷ m) = (get k m ≡ none) × HasUniqueKeys m

module _ {ℓ} {V : Type ℓ} where
  pub get-set :
      (k j : String) (v : V) (m : JsMap V)
      → get j (set k v m) ≡ (if k == j then some v else get j m)
  get-set k j v [] = refl
  get-set k j v ((i, w) ∷ m) = ground (arith, eq_iff k j, eq_iff i k, eq_iff i j, get-set k j v m)

  pub get-delete :
      (k j : String) (m : JsMap V) → get j (delete k m) ≡ (if k == j then none else get j m)
  get-delete k j [] = ground arith
  get-delete k j ((i, w) ∷ m) = ground (arith, eq_iff k j, eq_iff i k, eq_iff i j, get-delete k j m)

  pub set-HasUniqueKeys :
      (k : String) (v : V) (m : JsMap V) → HasUniqueKeys m → HasUniqueKeys (set k v m)
  set-HasUniqueKeys k v [] h = (refl, tt)
  set-HasUniqueKeys k v ((i, w) ∷ m) (p, h) =
      ground (arith, eq_iff i k, eq_iff k i, get-set k i v m, set-HasUniqueKeys k v m h)

  pub delete-HasUniqueKeys :
      (k : String) (m : JsMap V) → HasUniqueKeys m → HasUniqueKeys (delete k m)
  delete-HasUniqueKeys k [] h = tt
  delete-HasUniqueKeys k ((i, w) ∷ m) (p, h) =
      ground (arith, eq_iff k i, get-delete k i m, delete-HasUniqueKeys k m h)

  -- The later object wins on every key that it has.
  pub get-assign :
      (j : String) (a b : JsMap V)
      → HasUniqueKeys b
      → get j (assign a b) ≡ (if is_some (get j b) then get j b else get j a)
  get-assign j a [] h = refl
  get-assign j a ((k, v) ∷ b) (p, h) =
      ground (arith, eq_iff k j, get-set k j v a, get-assign j (set k v a) b h)
