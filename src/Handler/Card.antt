-- ===== src/Handler/Card.antt =====
-- `getAuthenticatedExtendedAgentCard`: the card for callers who may know more of the agent.
use package.a2a_js.Prelude.{Bool, false, Option, none, some, is_true, if◌then◌else◌}
use package.a2a_js.Types.{AgentCard, AgentCapabilities}
use package.a2a_js.Context.{ServerCallContext, User}
use package.a2a_js.Errors.{Result, ok, err, unsupported_operation, extended_card_not_configured}
use package.a2a_js.Handler.Context.{get_agent_card}

-- A provider is a card, or a function of the call.
pub data ExtendedAgentCardProvider : Type 0 where
  fixed_card : AgentCard → ExtendedAgentCardProvider
  computed_card : (ServerCallContext → AgentCard) → ExtendedAgentCardProvider

abbrev extended_flag : Option AgentCapabilities → Option Bool
extended_flag none = none
extended_flag (some c) = c.extended_agent_card

-- `context.user?.isAuthenticated`.
abbrev pub is_known : Option User → Bool
is_known none = false
is_known (some u) = u.is_authenticated

unfoldable pub provided_card : AgentCard → ServerCallContext → ExtendedAgentCardProvider → AgentCard
provided_card card c (computed_card f) = f c
provided_card card c (fixed_card extended) = if is_known c.user then extended else card

abbrev extended_card_from :
    Option (AgentCard → AgentCard)
    → AgentCard
    → ServerCallContext
    → Option ExtendedAgentCardProvider
    → Result AgentCard
extended_card_from sign card c none = err extended_card_not_configured
extended_card_from sign card c (some provider) =
    ok (get_agent_card sign (provided_card card c provider))

unfoldable pub get_extended_card :
    Option (AgentCard → AgentCard)
    → AgentCard
    → Option ExtendedAgentCardProvider
    → ServerCallContext
    → Result AgentCard
unfolding provided_card
get_extended_card sign card provider c =
    if is_true (extended_flag card.capabilities)
    then extended_card_from sign card c provider
    else err (unsupported_operation "Agent does not support authenticated extended card.")
