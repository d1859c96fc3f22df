-- ===== src/Errors.antt =====
-- The error classes of src/errors/base.ts that the modelled code throws, each with its message,
-- the `TypeError` of a read through `undefined`, and the result of a call that may throw one.
pub mod Classes
pub mod JsonRpc
pub mod Rest
pub mod RoundTrip
use package.a2a_js.Prelude.{
  String, Bool, true, false, Option, none, some, List, [], ◌∷◌, if◌then◌else◌, ◌≡◌, refl,
}

pub data A2aError : Type 0 where
  a2a_error : String → A2aError
  request_malformed : String → A2aError
  task_not_found : String → A2aError
  task_not_cancelable : String → A2aError
  unsupported_operation : String → A2aError
  push_notification_not_supported : A2aError
  extended_card_not_configured : A2aError
  extension_support_required : String → A2aError
  version_not_supported : String → A2aError
  invalid_params : String → A2aError
  type_error : A2aError

pub data Result {ℓ} (A : Type ℓ) : Type ℓ where
  ok : A → Result A
  err : A2aError → Result A

-- A call that throws ends the calls that follow it.
infixl 5 ◌>>=◌
abbrev pub ◌>>=◌ {ℓ κ} : {A : Type ℓ} {B : Type κ} → Result A → (A → Result B) → Result B
err e >>= next = err e
ok x >>= next = next x

infixl 5 ◌>>◌
abbrev pub ◌>>◌ {ℓ} : {B : Type ℓ} → Result (Unit {0}) → Result B → Result B
checked >> rest = checked >>= λ _. rest

-- `if (b) throw e`.
abbrev pub throw_if : Bool → A2aError → Result (Unit {0})
throw_if true e = err e
throw_if false e = ok tt

-- Inversions of a check that passed.
pub throw_if-ok {ℓ} :
    {B : Type ℓ} (b : Bool) (e : A2aError) (k : Result B) (x : B)
    → (throw_if b e >> k) ≡ ok x
    → (b ≡ false) × (k ≡ ok x)
throw_if-ok true e k x h = cc
throw_if-ok false e k x h = (refl, h)

pub if-ok {ℓ} :
    {A : Type ℓ} (b : Bool) (a : A) (e : A2aError) (x : A)
    → (if b then ok a else err e) ≡ ok x
    → (b ≡ true) × (a ≡ x)
if-ok true a e x h = (refl, cc)
if-ok false a e x h = cc

pub >>=-ok {ℓ κ} :
    {A : Type ℓ} {B : Type κ} (r : Result A) (f : A → Result B) (b : B)
    → (r >>= f) ≡ ok b
    → (a : A) × (r ≡ ok a) × (f a ≡ ok b)
>>=-ok (ok a) f b h = (a, refl, h)
>>=-ok (err e) f b h = cc

-- Whether a call throws.
abbrev pub is_err {ℓ} : {A : Type ℓ} → Result A → Bool
is_err (ok a) = false
is_err (err e) = true

-- `as.map(f)` where `f` may throw.
unfoldable pub map_result {ℓ κ} :
    {A : Type ℓ} {B : Type κ} → (A → Result B) → List A → Result (List B)
map_result f [] = ok []
map_result f (a ∷ as_) = do b ← f a; bs ← map_result f as_; ok (b ∷ bs)

-- `f(a)` if there is an `a`.
unfoldable pub map_option_result {ℓ κ} :
    {A : Type ℓ} {B : Type κ} → (A → Result B) → Option A → Result (Option B)
map_option_result f none = ok none
map_option_result f (some a) = do b ← f a; ok (some b)
