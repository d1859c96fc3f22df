-- ===== src/Client/Interceptors/Onion.antt =====
-- The two loops over the interceptors against a nest of calls, one around the other.
use package.a2a_js.Prelude.{
  Bool, true, false, Option, none, some, List, [], ◌∷◌, ◌++◌, if◌then◌else◌, ◌≡◌, refl, sym, ap,
  ◌∙◌, fun_ext, append_assoc, append-nil,
}
use package.a2a_js.Errors.{Result, ok, err}
use package.a2a_js.Client.Interceptors.{
  Effect, done, next_of, ◌⟫◌, BeforeArgs, AfterArgs, CallInterceptor, before_from, intercept_before,
  after_loop, reversed, intercept_after, after_args, after_before, execute_with_interceptors,
}

-- The rest of an effect is a function of what it returns.
⟫-assoc {ℓ} :
    {W A B C : Type ℓ} (m : Effect W A) (k : A → Effect W B) (h : B → Effect W C)
    → ((m ⟫ k) ⟫ h) ≡ (m ⟫ λ a. k a ⟫ h)
⟫-assoc {W = W} {A = A} m k h = fun_ext (λ w. at (m w))
  where
    at : (r : Result A × W) → next_of h (next_of k r) ≡ next_of (λ a. k a ⟫ h) r
    at (err e, w) = refl
    at (ok a, w) = refl

⟫-done {ℓ} : {W A : Type ℓ} (m : Effect W A) → (m ⟫ done) ≡ m
⟫-done {W = W} {A = A} m = fun_ext (λ w. at (m w))
  where
    at : (r : Result A × W) → next_of done r ≡ r
    at (err e, w) = refl
    at (ok a, w) = refl

module _ {W I O R : Type 0} (transport_call : I → O → Effect W R) where
  -- The `after` hook of an interceptor, unless one inside of it has ended the call.
  abbrev pub after_unless_ended : CallInterceptor W I O R → AfterArgs O R → Effect W (AfterArgs O R)
  after_unless_ended i args = if args.early_return then done args else i.after args

  -- Each interceptor around the ones behind it, and the transport inside all of them.
  abbrev pub nested : List (CallInterceptor W I O R) → BeforeArgs I O R → Effect W (AfterArgs O R)
  nested [] args = transport_call args.input args.options ⟫ λ v. done (after_args v args.options)
  nested (i ∷ is) args = i.before args ⟫ λ args'.
      (elim args'.early_return [
        | some v ↦ done (after_args v args'.options)
        | none ↦ nested is args'
      ])
      ⟫ after_unless_ended i

  -- The `after` hooks that are left, unless the call has ended.
  guarded : List (CallInterceptor W I O R) → AfterArgs O R → Effect W (AfterArgs O R)
  guarded is args = if args.early_return then done args else after_loop is args

  guarded-cons_at :
      (i : CallInterceptor W I O R) (is : List (CallInterceptor W I O R)) (v : R) (b : Bool) (o : O)
      → let args : AfterArgs O R = record { result = v; early_return = b; options = o } in
        guarded (i ∷ is) args ≡ (after_unless_ended i args ⟫ guarded is)
  unfolding guarded after_loop
  guarded-cons_at i is v true o = refl
  guarded-cons_at i is v false o = refl

  guarded-cons :
      (i : CallInterceptor W I O R) (is : List (CallInterceptor W I O R)) (args : AfterArgs O R)
      → guarded (i ∷ is) args ≡ (after_unless_ended i args ⟫ guarded is)
  guarded-cons i is args = guarded-cons_at i is args.result args.early_return args.options

  reversed-append :
      (is : List (CallInterceptor W I O R)) (i : CallInterceptor W I O R)
      → reversed (is ++ i ∷ []) ≡ i ∷ reversed is
  reversed-append [] i = refl
  reversed-append (j ∷ is) i = ap (λ r. r ++ j ∷ []) (reversed-append is i)

  run_from :
      (executed is : List (CallInterceptor W I O R)) (args : BeforeArgs I O R)
      → (before_from executed is args ⟫ after_before (executed ++ is) transport_call)
        ≡ (nested is args ⟫ guarded (reversed executed))
  unfolding before_from after_before intercept_after guarded
  run_from executed [] args =
      ap
        (λ all. transport_call args.input args.options ⟫ λ v.
          after_loop (reversed all) (after_args v args.options))
        (append-nil executed)
      ∙ sym (⟫-assoc (transport_call args.input args.options) _ (guarded (reversed executed)))
  run_from executed (i ∷ is) args =
      ⟫-assoc (i.before args) _ (after_before (executed ++ i ∷ is) transport_call)
      ∙ ap (λ k. i.before args ⟫ k)
          (fun_ext (λ args'.
            split args' args'.early_return (inside args' (run_from (executed ++ i ∷ []) is args'))))
      ∙ sym (⟫-assoc (i.before args) _ (guarded (reversed executed)))
    where
      inside :
          (args' : BeforeArgs I O R)
          → (before_from (executed ++ i ∷ []) is args'
              ⟫ after_before ((executed ++ i ∷ []) ++ is) transport_call)
            ≡ (nested is args' ⟫ guarded (reversed (executed ++ i ∷ [])))
          → (before_from (executed ++ i ∷ []) is args'
              ⟫ after_before (executed ++ i ∷ is) transport_call)
            ≡ (nested is args' ⟫ guarded (i ∷ reversed executed))
      inside args' h =
          ap (λ all. before_from (executed ++ i ∷ []) is args' ⟫ after_before all transport_call)
            (sym (append_assoc executed (i ∷ []) is))
          ∙ h
          ∙ ap (λ r. nested is args' ⟫ guarded r) (reversed-append executed i)

      split :
          (args' : BeforeArgs I O R) (o : Option R)
          → (before_from (executed ++ i ∷ []) is args'
              ⟫ after_before (executed ++ i ∷ is) transport_call)
            ≡ (nested is args' ⟫ guarded (i ∷ reversed executed))
          → ((elim o [
            | some v ↦ done (args', some (v, executed ++ i ∷ []))
            | none ↦ before_from (executed ++ i ∷ []) is args'
          ])
              ⟫ after_before (executed ++ i ∷ is) transport_call)
            ≡ (((elim o [ some v ↦ done (after_args v args'.options) | none ↦ nested is args' ])
                  ⟫ after_unless_ended i)
                ⟫ guarded (reversed executed))
      split args' (some v) h =
          ap (λ r. after_loop r (after_args v args'.options)) (reversed-append executed i)
      split args' none h =
          h
          ∙ ap (λ k. nested is args' ⟫ k) (fun_ext (guarded-cons i (reversed executed)))
          ∙ sym (⟫-assoc (nested is args') (after_unless_ended i) (guarded (reversed executed)))

  guarded_nothing : (m : Effect W (AfterArgs O R)) → (m ⟫ guarded []) ≡ m
  unfolding guarded after_loop
  guarded_nothing m = ap (λ k. m ⟫ k) (fun_ext (λ args. at args args.early_return)) ∙ ⟫-done m
    where
      at :
          (args : AfterArgs O R) (b : Bool)
          → (if b then done {W = W} args else after_loop {W = W} {I = I} [] args) ≡ done args
      at args true = refl
      at args false = refl

  -- A call through a client's interceptors is the nest of them around the transport: each `before`
  -- hook runs in order and its `after` hook in the opposite order, on the arguments and in the
  -- world that the hooks inside of it leave; a `before` hook that returns early takes the place
  -- of the transport and of all hooks behind it, an `after` hook that does skips the ones around
  -- it, and an error of a hook or of the transport ends the call there.
  pub execute_with_interceptors-nested :
      (is : List (CallInterceptor W I O R)) (input : I) (options : O)
      → execute_with_interceptors is transport_call input options ≡ (
          nested is (record { input = input; early_return = none; options = options }) ⟫ λ args.
          done args.result)
  unfolding execute_with_interceptors intercept_before
  execute_with_interceptors-nested is input options =
      let args : BeforeArgs I O R = record {
        input = input;
        early_return = none;
        options = options;
      } in
      ap (λ m. m ⟫ λ a. done a.result) (run_from [] is args ∙ guarded_nothing (nested is args))
