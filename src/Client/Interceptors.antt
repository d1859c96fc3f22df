-- ===== src/Client/Interceptors.antt =====
-- `interceptBefore`, `interceptAfter` and `executeWithInterceptors` of
-- src/client/multitransport-client.ts, with the interfaces of src/client/interceptors.ts. An
-- interceptor and the transport are functions that may throw and that change a world of theirs; the
-- arguments that an interceptor changes are the ones that it returns. The agent card and the name
-- of the method, which are read only, are left out.
pub mod Onion
use package.a2a_js.Prelude.{
  Bool, true, false, Option, none, some, List, [], ◌∷◌, ◌++◌, if◌then◌else◌,
}
use package.a2a_js.Errors.{A2aError, Result, ok, err}

-- An asynchronous call: what it returns or throws, and the world afterwards.
abbrev pub Effect {ℓ} : Type ℓ → Type ℓ → Type ℓ
Effect W A = W → Result A × W

abbrev pub done {ℓ} : {W A : Type ℓ} → A → Effect W A
done a w = (ok a, w)

abbrev pub next_of {ℓ} : {W A B : Type ℓ} → (A → Effect W B) → Result A × W → Result B × W
next_of k (err e, w) = (err e, w)
next_of k (ok a, w) = k a w

-- `await m`, then the rest.
infixl 5 ◌⟫◌
abbrev pub ◌⟫◌ {ℓ} : {W A B : Type ℓ} → Effect W A → (A → Effect W B) → Effect W B
(m ⟫ k) w = next_of k (m w)

pub record BeforeArgs (I O R : Type 0) : Type 0 where
  pub input : I
  pub early_return : Option R
  pub options : O

pub record AfterArgs (O R : Type 0) : Type 0 where
  pub result : R
  pub early_return : Bool
  pub options : O

pub record CallInterceptor (W I O R : Type 0) : Type 0 where
  pub before : BeforeArgs I O R → Effect W (BeforeArgs I O R)
  pub after : AfterArgs O R → Effect W (AfterArgs O R)

-- The value of an early return, with the interceptors that have run.
abbrev pub EarlyReturn : Type 0 → Type 0 → Type 0 → Type 0 → Type 0
EarlyReturn W I O R = Option (R × List (CallInterceptor W I O R))

abbrev pub after_args : {O R : Type 0} → R → O → AfterArgs O R
after_args v options = record { result = v; early_return = false; options = options }

module _ {W I O R : Type 0} where
  -- The loop of `interceptBefore`.
  unfoldable pub before_from :
      List (CallInterceptor W I O R)
      → List (CallInterceptor W I O R)
      → BeforeArgs I O R
      → Effect W (BeforeArgs I O R × EarlyReturn W I O R)
  before_from executed [] args = done (args, none)
  before_from executed (i ∷ is) args = i.before args ⟫ λ args'. elim args'.early_return [
    | some v ↦ done (args', some (v, executed ++ i ∷ []))
    | none ↦ before_from (executed ++ i ∷ []) is args'
  ]

  unfoldable pub intercept_before :
      List (CallInterceptor W I O R)
      → BeforeArgs I O R
      → Effect W (BeforeArgs I O R × EarlyReturn W I O R)
  unfolding before_from
  intercept_before is args = before_from [] is args

  -- The loop of `interceptAfter`.
  unfoldable pub after_loop :
      List (CallInterceptor W I O R) → AfterArgs O R → Effect W (AfterArgs O R)
  after_loop [] args = done args
  after_loop (i ∷ is) args =
      i.after args ⟫ λ args'. if args'.early_return then done args' else after_loop is args'

  -- `[...interceptors].reverse()`.
  abbrev pub reversed : List (CallInterceptor W I O R) → List (CallInterceptor W I O R)
  reversed [] = []
  reversed (i ∷ is) = reversed is ++ i ∷ []

  unfoldable pub intercept_after :
      List (CallInterceptor W I O R) → AfterArgs O R → Effect W (AfterArgs O R)
  unfolding after_loop
  intercept_after is args = after_loop (reversed is) args

  -- What follows `interceptBefore`.
  unfoldable pub after_before :
      List (CallInterceptor W I O R)
      → (I → O → Effect W R)
      → BeforeArgs I O R × EarlyReturn W I O R
      → Effect W (AfterArgs O R)
  unfolding intercept_after
  after_before is transport_call (args, some (v, executed)) =
      intercept_after executed (after_args v args.options)
  after_before is transport_call (args, none) =
      transport_call args.input args.options ⟫ λ v. intercept_after is (after_args v args.options)

  unfoldable pub execute_with_interceptors :
      List (CallInterceptor W I O R) → (I → O → Effect W R) → I → O → Effect W R
  unfolding intercept_before after_before
  execute_with_interceptors is transport_call input options =
      intercept_before is (record { input = input; early_return = none; options = options })
      ⟫ after_before is transport_call
      ⟫ λ args. done args.result
