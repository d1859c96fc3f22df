-- ===== src/Client/Factory.antt =====
-- The choice of an interface and a transport in `createFromNormalizedAgentCard` of
-- src/client/factory.ts. `upper` is `toUpperCase`, by which the maps of the factory ignore case; a
-- transport factory is any value.
pub mod Best
pub mod Selection
pub mod Choice
use package.a2a_js.Prelude.{
  String, Bool, true, false, not, Option, none, some, List, [], ◌∷◌, ◌++◌, map, JsMap, get, set,
  get-set, is_some, any, any-append, truthy, if◌then◌else◌, ◌==◌, ◌&&◌, ◌||◌, ◌≡◌, arith, refl, sym,
  ap, ◌∙◌, eq_iff, Bool-cases, inl, inr, ◌⊎◌,
}
use package.a2a_js.Types.{AgentInterface}
use Prim.Native.String

-- `agentInterface.protocolVersion === '1.0'`.
abbrev pub is_current : AgentInterface → Bool
is_current i = i.protocol_version == "1.0"

-- What the client is built of: the factory, the interface, and the tenant by which its transport is
-- decorated, if any.
pub record Selected {ℓ} (F : Type ℓ) : Type ℓ where
  pub factory : F
  pub interface : AgentInterface
  pub decorated_tenant : Option String

-- `[...keys()].join()`.
abbrev keys_text {ℓ} : {F : Type ℓ} → JsMap F → String
keys_text [] = ""
keys_text ((k, f) ∷ []) = k
keys_text ((k, f) ∷ e ∷ m) = String.◌++◌ k (String.◌++◌ "," (keys_text (e ∷ m)))

-- The client's parts, or the error that is thrown.
abbrev pub outcome_of {ℓ} : {F : Type ℓ} → String → Option (Selected F) → Selected F ⊎ String
outcome_of text none = inr text
outcome_of text (some s) = inl s

module _ (upper : String → String) where
  abbrev pub better : Option AgentInterface → AgentInterface → Bool
  better existing i = not (is_some existing) || is_current i

  -- The loop that fills `bestInterfacePerProtocol`.
  unfoldable pub best_interfaces : List AgentInterface → JsMap AgentInterface → JsMap AgentInterface
  best_interfaces [] best = best
  best_interfaces (i ∷ is) best =
      let key = upper i.protocol_binding in
      best_interfaces is (if better (get key best) i then set key i best else best)

  module _ {ℓ} {F : Type ℓ} where
    abbrev pub selected : F → AgentInterface → Selected F
    selected factory i = record {
      factory = factory;
      interface = i;
      decorated_tenant = if truthy i.tenant then some i.tenant else none;
    }

    abbrev pub both : Option F → Option AgentInterface → Option (Selected F)
    both (some f) (some i) = some (selected f i)
    both _ _ = none

    -- The loop over the names in the order of preference.
    unfoldable pub first_supported :
        JsMap F → JsMap AgentInterface → List String → Option (Selected F)
    first_supported factories best [] = none
    first_supported factories best (name ∷ names) =
        elim (both (get (upper name) factories) (get (upper name) best)) [
          | some s ↦ some s
          | none ↦ first_supported factories best names
        ]

    -- `factories` are the transports of the factory under their names in upper case.
    unfoldable pub select_transport :
        JsMap F → List String → List AgentInterface → Selected F ⊎ String
    unfolding best_interfaces first_supported
    select_transport factories preferred interfaces =
        outcome_of
          (String.◌++◌ "No compatible transport found, available transports: "
            (keys_text factories))
          (first_supported factories (best_interfaces interfaces [])
            (preferred ++ map (λ i. i.protocol_binding) interfaces))
