-- ===== src/Client/Factory/Selection.antt =====
-- Which of the names in the order of preference the factory takes.
use package.a2a_js.Prelude.{
  String, Bool, true, Option, none, some, List, [], ◌∷◌, map, JsMap, get, is_some, any, All,
  All-imp, ◌&&◌, ◌||◌, ◌≡◌, arith, refl, ap, ◌∙◌, eq_iff, eq_refl, Bool-cases, inl, inr,
}
use package.a2a_js.Types.{AgentInterface}
use package.a2a_js.Client.Factory.Best.{has_key, get-best_interfaces, is_some-best_for}
use package.a2a_js.Client.Factory.{Selected, best_interfaces, both, selected, first_supported}

module _ (upper : String → String) where
  module _ {ℓ} {F : Type ℓ} (factories : JsMap F) (interfaces : List AgentInterface) where
    -- Whether there is a transport for a name.
    abbrev pub is_supported : String → Bool
    is_supported name = is_some (get (upper name) factories)

    abbrev pub best : JsMap AgentInterface
    best = best_interfaces upper interfaces []

    abbrev pub is_offered : String → Bool
    is_offered k = any (has_key upper k) interfaces

    is_some-best : (k : String) → is_some (get k best) ≡ is_offered k
    is_some-best k =
        ap is_some (get-best_interfaces upper k interfaces [])
        ∙ is_some-best_for upper k interfaces none

    is_some-both :
        (f : Option F) (i : Option AgentInterface)
        → is_some (both upper f i) ≡ (is_some f && is_some i)
    is_some-both none none = refl
    is_some-both none (some i) = refl
    is_some-both (some f) none = refl
    is_some-both (some f) (some i) = refl

    is_some-or_next :
        (o next : Option (Selected F))
        → is_some (elim o [ some s ↦ some s | none ↦ next ]) ≡ (is_some o || is_some next)
    is_some-or_next (some s) next = refl
    is_some-or_next none next = refl

    pub is_some-first_supported :
        (names : List String)
        → is_some (first_supported upper factories best names)
          ≡ any (λ n. is_supported n && is_offered (upper n)) names
    unfolding first_supported
    is_some-first_supported [] = refl
    is_some-first_supported (n ∷ names) =
        is_some-or_next (both upper (get (upper n) factories) (get (upper n) best)) _
        ∙ rw
            (
              is_some-both (get (upper n) factories) (get (upper n) best),
              is_some-best (upper n),
              is_some-first_supported names,
            )
            refl

    pub first_supported-both :
        (names : List String) (s : Selected F)
        → first_supported upper factories best names ≡ some s
        → (name : String) × (both upper (get (upper name) factories) (get (upper name) best)
            ≡ some s)
    unfolding first_supported
    first_supported-both [] s h = cc
    first_supported-both (n ∷ names) s h =
        choose (both upper (get (upper n) factories) (get (upper n) best)) refl h
          (first_supported-both names s)
      where
        choose :
            (o : Option (Selected F))
            → both upper (get (upper n) factories) (get (upper n) best) ≡ o
            → (elim o [ some s ↦ some s | none ↦ first_supported upper factories best names ])
              ≡ some s
            → (first_supported upper factories best names ≡ some s
                → (name : String) × (both upper (get (upper name) factories) (get (upper name) best)
                    ≡ some s))
            → (name : String) × (both upper (get (upper name) factories) (get (upper name) best)
                ≡ some s)
        choose (some t) e found later = (n, e ∙ found)
        choose none e found later = later found

    -- The parts of a choice.
    pub both-some :
        (f : Option F) (i : Option AgentInterface) (s : Selected F)
        → both upper f i ≡ some s
        → (f ≡ some s.factory) × (i ≡ some s.interface)
    both-some none none s h = cc
    both-some none (some i) s h = cc
    both-some (some f) none s h = cc
    both-some (some f) (some i) s h =
        let same : selected upper f i ≡ s = cc in
        (ap (λ t. some t.factory) same, ap (λ t. some t.interface) same)

    supported_if_offered :
        (k : String) (is : List AgentInterface)
        → (is_some (get k factories) && any (has_key upper k) is) ≡ true
        → any (λ i. is_supported i.protocol_binding) is ≡ true
    supported_if_offered k [] h = ground (arith, h)
    supported_if_offered k (i ∷ is) h = elim (Bool-cases (has_key upper k i)) [
      | inl same ↦
          let key : upper i.protocol_binding ≡ k =
            ground (arith, eq_iff (upper i.protocol_binding) k) in
          let there : is_some (get k factories) ≡ true = ground (arith, h) in rw (key, there) refl
      | inr other ↦
          let left : (is_some (get k factories) && any (has_key upper k) is) ≡ true =
            rw other at h in
          let rest = supported_if_offered k is left in ground (arith, rest)
    ]

    pub preferred_is_supported :
        (names : List String)
        → any (λ n. is_supported n && is_offered (upper n)) names ≡ true
        → any (λ i. is_supported i.protocol_binding) interfaces ≡ true
    preferred_is_supported [] h = cc
    preferred_is_supported (n ∷ names) h =
        elim (Bool-cases (is_supported n && is_offered (upper n))) [
          | inl chosen ↦ supported_if_offered (upper n) interfaces chosen
          | inr left ↦ preferred_is_supported names (rw left at h)
        ]

    pub offered_bindings :
        (is : List AgentInterface)
        → All (λ i. is_offered (upper i.protocol_binding) ≡ true) is
        → any (λ n. is_supported n && is_offered (upper n)) (map (λ i. i.protocol_binding) is)
          ≡ any (λ i. is_supported i.protocol_binding) is
    offered_bindings [] h = refl
    offered_bindings (i ∷ is) (p, h) = let rest = offered_bindings is h in rw (p, rest) ground arith

  pub offers_itself :
      (is : List AgentInterface)
      → All (λ i. any (has_key upper (upper i.protocol_binding)) is ≡ true) is
  offers_itself [] = tt
  offers_itself (i ∷ is) = (
    rw (eq_refl (upper i.protocol_binding)) refl,
    All-imp (λ j. any (has_key upper (upper j.protocol_binding)) is ≡ true)
        (λ j. any (has_key upper (upper j.protocol_binding)) (i ∷ is) ≡ true) is
        (λ j p. ground (arith, p)) (offers_itself is),
  )
