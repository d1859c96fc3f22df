-- ===== src/Client/Factory/Choice.antt =====
-- Which interface and transport a client gets, and when it gets none.
use package.a2a_js.Prelude.{
  String, Bool, true, false, Option, none, some, List, [], ◌++◌, map, JsMap, get, is_some, any,
  any-append, ◌⊎◌, ◌==◌, ◌&&◌, ◌||◌, ◌≡◌, arith, refl, sym, ap, subst, ◌∙◌, eq_iff, inl, inr,
}
use package.a2a_js.Types.{AgentInterface}
use package.a2a_js.Client.Factory.{
  is_current, Selected, outcome_of, best_interfaces, select_transport,
}
use package.a2a_js.Client.Factory.Best.{
  has_key, best_for, get-best_interfaces, is_current_entry, is_current_entry-best_for, IsEntryOf,
  best_for-IsEntryOf,
}
use package.a2a_js.Client.Factory.Selection.{
  is_supported, is_offered, is_some-first_supported, first_supported-both, both-some,
  preferred_is_supported, offered_bindings, offers_itself,
}

abbrev pub is_chosen {ℓ} : {F : Type ℓ} → Selected F ⊎ String → Bool
is_chosen (inl s) = true
is_chosen (inr e) = false

or_absorbed : (a b : Bool) → (a ≡ true → b ≡ true) → (a || b) ≡ b
or_absorbed true b h = sym (h refl)
or_absorbed false b h = refl

entry_is_current :
    (upper : String → String) (interfaces : List AgentInterface) (k : String) (i : AgentInterface)
    → get k (best_interfaces upper interfaces []) ≡ some i
    → (upper i.protocol_binding ≡ k)
      × (is_current i ≡ any (λ j. has_key upper k j && is_current j) interfaces)
unfolding is_current_entry IsEntryOf
entry_is_current upper interfaces k i h =
    let found : best_for upper k interfaces none ≡ some i =
      sym (get-best_interfaces upper k interfaces []) ∙ h in
    let keyed : IsEntryOf upper k (some i) =
      subst (IsEntryOf upper k) found (best_for-IsEntryOf upper k interfaces none tt) in
    (
      ground (arith, keyed, eq_iff (upper i.protocol_binding) k),
      ap (is_current_entry upper) (sym found) ∙ is_current_entry-best_for upper k interfaces none,
    )

module _ {ℓ} {F : Type ℓ} where
  is_chosen-outcome_of :
      (text : String) (o : Option (Selected F)) → is_chosen (outcome_of text o) ≡ is_some o
  is_chosen-outcome_of text none = refl
  is_chosen-outcome_of text (some s) = refl

  -- A client is created exactly if there is a transport for the protocol of some interface of the
  -- agent's card, whatever names are preferred.
  pub select_transport-is_supported :
      (upper : String → String) (factories : JsMap F) (preferred : List String)
      (interfaces : List AgentInterface)
      → is_chosen (select_transport upper factories preferred interfaces)
        ≡ any (λ i. is_some (get (upper i.protocol_binding) factories)) interfaces
  unfolding select_transport
  select_transport-is_supported upper factories preferred interfaces =
      let names = map (λ i. i.protocol_binding) interfaces in
      is_chosen-outcome_of _ _
      ∙ is_some-first_supported upper factories interfaces (preferred ++ names)
      ∙ any-append _ preferred names
      ∙ ap
          (λ b.
            any
              (λ n.
                is_supported upper factories interfaces n
                && is_offered upper factories interfaces (upper n))
              preferred
            || b)
          (offered_bindings upper factories interfaces interfaces (offers_itself upper interfaces))
      ∙ or_absorbed _ _ (preferred_is_supported upper factories interfaces preferred)

  chosen_first :
      (text : String) (o : Option (Selected F)) (s : Selected F)
      → outcome_of text o ≡ inl s
      → o ≡ some s
  chosen_first text none s h = cc
  chosen_first text (some t) s h = let same : t ≡ s = cc in ap some same

  -- The transport of a client is the one for the protocol of the interface that it uses, and this
  -- interface is of protocol version 1.0 exactly if the card has one of this version for that
  -- protocol.
  pub select_transport-is_current :
      (upper : String → String) (factories : JsMap F) (preferred : List String)
      (interfaces : List AgentInterface) (s : Selected F)
      → select_transport upper factories preferred interfaces ≡ inl s
      → let k = upper s.interface.protocol_binding in
        (get k factories ≡ some s.factory)
        × (is_current s.interface
            ≡ any (λ j. (upper j.protocol_binding == k) && is_current j) interfaces)
  unfolding select_transport
  select_transport-is_current upper factories preferred interfaces s h =
      let names = preferred ++ map (λ i. i.protocol_binding) interfaces in
      let (name, chosen) =
        first_supported-both upper factories interfaces names s (chosen_first _ _ s h) in
      let (supplied, kept) = both-some upper factories interfaces _ _ s chosen in
      let (key, current) = entry_is_current upper interfaces (upper name) s.interface kept in
      rw key (supplied, current)
