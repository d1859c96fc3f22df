-- ===== src/Client/Factory/Best.antt =====
-- The interface that the factory keeps for a protocol.
use package.a2a_js.Prelude.{
  String, Bool, true, false, Option, none, some, List, [], ◌∷◌, JsMap, get, set, get-set, is_some,
  any, if◌then◌else◌, ◌==◌, ◌&&◌, ◌||◌, ◌≡◌, arith, refl, ap, ◌∙◌, eq_iff, Bool-cases, inl, inr,
  ◌⊎◌,
}
use package.a2a_js.Types.{AgentInterface}
use package.a2a_js.Client.Factory.{is_current, better, best_interfaces}

module _ (upper : String → String) where
  abbrev pub has_key : String → AgentInterface → Bool
  has_key k i = upper i.protocol_binding == k

  -- The entry of one key.
  abbrev pub best_for : String → List AgentInterface → Option AgentInterface → Option AgentInterface
  best_for k [] o = o
  best_for k (i ∷ is) o = best_for k is (if has_key k i && better upper o i then some i else o)

  pub get-best_interfaces :
      (k : String) (is : List AgentInterface) (m : JsMap AgentInterface)
      → get k (best_interfaces upper is m) ≡ best_for k is (get k m)
  unfolding best_interfaces
  get-best_interfaces k [] m = refl
  get-best_interfaces k (i ∷ is) m =
      let key = upper i.protocol_binding in
      get-best_interfaces k is (if better upper (get key m) i then set key i m else m)
      ∙ ap (best_for k is) (entry (Bool-cases (key == k)) (Bool-cases (better upper (get key m) i)))
    where
      entry :
          (has_key k i ≡ true) ⊎ (has_key k i ≡ false)
          → (better upper (get (upper i.protocol_binding) m) i ≡ true)
            ⊎ (better upper (get (upper i.protocol_binding) m) i ≡ false)
          → get k (
              if better upper (get (upper i.protocol_binding) m) i
              then set (upper i.protocol_binding) i m
              else m)
            ≡ (if has_key k i && better upper (get k m) i then some i else get k m)
      entry (inl same) (inl wins) =
          let key : upper i.protocol_binding ≡ k =
            ground (arith, eq_iff (upper i.protocol_binding) k) in
          let wins_at : better upper (get k m) i ≡ true = rw key at wins in
          rw (wins, get-set (upper i.protocol_binding) k i m, same, wins_at) refl
      entry (inl same) (inr loses) =
          let key : upper i.protocol_binding ≡ k =
            ground (arith, eq_iff (upper i.protocol_binding) k) in
          let loses_at : better upper (get k m) i ≡ false = rw key at loses in
          rw (loses, same, loses_at) refl
      entry (inr other) (inl wins) = rw (wins, get-set (upper i.protocol_binding) k i m, other) refl
      entry (inr other) (inr loses) = rw (loses, other) refl

  unfoldable pub is_current_entry : Option AgentInterface → Bool
  is_current_entry none = false
  is_current_entry (some i) = is_current i

  pub is_current_entry-best_for :
      (k : String) (is : List AgentInterface) (o : Option AgentInterface)
      → is_current_entry (best_for k is o)
        ≡ (is_current_entry o || any (λ i. has_key k i && is_current i) is)
  unfolding is_current_entry
  is_current_entry-best_for k [] none = refl
  is_current_entry-best_for k [] (some j) = ground arith
  is_current_entry-best_for k (i ∷ is) none = is_current_entry-best_for k is _ ∙ ground arith
  is_current_entry-best_for k (i ∷ is) (some j) = is_current_entry-best_for k is _ ∙ ground arith

  pub is_some-best_for :
      (k : String) (is : List AgentInterface) (o : Option AgentInterface)
      → is_some (best_for k is o) ≡ (is_some o || any (has_key k) is)
  is_some-best_for k [] none = refl
  is_some-best_for k [] (some j) = refl
  is_some-best_for k (i ∷ is) none = is_some-best_for k is _ ∙ ground arith
  is_some-best_for k (i ∷ is) (some j) = is_some-best_for k is _ ∙ ground arith

  unfoldable pub IsEntryOf : String → Option AgentInterface → Type 0
  IsEntryOf k none = Unit
  IsEntryOf k (some i) = has_key k i ≡ true

  pub best_for-IsEntryOf :
      (k : String) (is : List AgentInterface) (o : Option AgentInterface)
      → IsEntryOf k o
      → IsEntryOf k (best_for k is o)
  unfolding IsEntryOf
  best_for-IsEntryOf k [] o h = h
  best_for-IsEntryOf k (i ∷ is) o h = elim (Bool-cases (has_key k i)) [
    | inr other ↦ rw other (best_for-IsEntryOf k is o h)
    | inl same ↦ elim (Bool-cases (better upper o i)) [
      | inl wins ↦ rw (same, wins) (best_for-IsEntryOf k is (some i) same)
      | inr loses ↦ rw (same, loses) (best_for-IsEntryOf k is o h)
    ]
  ]
